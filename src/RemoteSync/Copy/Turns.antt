-- ===== src/RemoteSync/Copy/Turns.antt =====
-- A whole push and a whole pull of remote_sync.rs, in turns over a stream.
use obsidian_backup_server.Prelude.{
  ◌≡◌, ◌∙◌, refl, ap, none, List, [], ◌∷◌, ◌++◌, Bytes, All, length, if_true, Result, io, ok, err,
}
use obsidian_backup_server.Prelude.Text.{codes, bytes_eq_refl}
use obsidian_backup_server.RemoteSync.{
  Frame, FrameJson, SyncEngine, Incoming, protocol_version, recv_frame,
}
use obsidian_backup_server.RemoteSync.Sender.{
  Sending, and_send, send_snapshot, send_files, send_objects, sender_handshake, push_snapshot,
}
use obsidian_backup_server.RemoteSync.Receiver.{
  Receiving, receive_frames, receive_snapshot, handle_incoming,
}
use obsidian_backup_server.RemoteSync.Copy.Objects.{arrive}
use obsidian_backup_server.RemoteSync.Copy.Sessions.{hello_frame, hello_ack_frame, confirmations}
use obsidian_backup_server.RemoteSync.Copy.Lockstep.{
  Transferable, sent, push_snapshot-sent, handle_incoming-stored,
}
use obsidian_backup_server.RemoteSync.Copy.Link.{
  payloads, Link, transmit, turns, turns-suc, Fits, transmit-arrive,
}

and_send-sent :
    (x : Sending) (r : Result (Unit {0})) (ys : List Bytes)
    → x.0 ≡ ok tt
    → (and_send x (r, ys)).1 ≡ x.1 ++ ys
and_send-sent (ok _, xs) r ys h = refl
and_send-sent (err e, xs) r ys h = cc

module _ {M : Type 0} (json : FrameJson M) (link : Link) (sender receiver : SyncEngine M)
    (token snapshot_id : Bytes) (a : sender.S) (b b' : receiver.S)
    (t : Transferable json sender receiver token snapshot_id a b b') where
  abbrev pub begin_frame : Bytes
  begin_frame = json.to_vec (Frame.push_begin snapshot_id t.manifest (length t.files))

  abbrev pub ready_frame : Bytes
  ready_frame = json.to_vec (Frame.push_ready (codes "ok"))

  abbrev pub pushing : Incoming → Sending
  pushing incoming = push_snapshot json sender token snapshot_id incoming a

  abbrev pub listening : Incoming → Receiving json receiver
  listening incoming = handle_incoming json receiver token incoming b

  push_greets : (pushing []).1 ≡ hello_frame json token ∷ []
  unfolding push_snapshot sender_handshake recv_frame
  push_greets = refl

  listen_greets :
      payloads (listening (arrive (hello_frame json token ∷ []))) ≡ hello_ack_frame json ∷ []
  unfolding handle_incoming recv_frame
  listen_greets =
      rw (json.from_slice-to_vec (Frame.hello protocol_version token))
        (ap payloads (if_true _ _ (bytes_eq_refl token)))

  push_begins :
      (pushing (arrive (hello_ack_frame json ∷ []))).1 ≡ hello_frame json token ∷ begin_frame ∷ []
  unfolding push_snapshot sender_handshake send_snapshot recv_frame
  push_begins =
      rw
        (
          json.from_slice-to_vec (Frame.hello_ack (codes "ok") none),
          send_snapshot,
          t.has_manifest,
          t.has_files,
        )
        refl

  listen_ready :
      payloads (listening (arrive (hello_frame json token ∷ begin_frame ∷ [])))
      ≡ hello_ack_frame json ∷ ready_frame ∷ []
  unfolding handle_incoming receive_snapshot receive_frames recv_frame
  listen_ready =
      rw
        (
          json.from_slice-to_vec (Frame.hello protocol_version token),
          json.from_slice-to_vec (Frame.push_begin snapshot_id t.manifest (length t.files)),
        )
        (ap payloads (if_true _ _ (bytes_eq_refl token)))

  -- The side with the snapshot, once the other is ready: it sends all and waits for the end.
  pub send_snapshot-ready :
      (send_snapshot json sender snapshot_id (arrive (ready_frame ∷ [])) a).1
      ≡ sent json sender receiver token snapshot_id a b b' t
  unfolding send_snapshot recv_frame
  send_snapshot-ready =
      rw
        (
          t.has_manifest,
          t.has_files,
          send_snapshot,
          send_files,
          json.from_slice-to_vec (Frame.push_ready (codes "ok")),
        )
        (ap (λ l. begin_frame ∷ l)
          (and_send-sent (send_objects json sender t.files a) (err io)
            (json.to_vec Frame.push_end ∷ []) t.readable))

  push_sends :
      (pushing (arrive (hello_ack_frame json ∷ ready_frame ∷ []))).1
      ≡ hello_frame json token ∷ sent json sender receiver token snapshot_id a b b' t
  unfolding push_snapshot sender_handshake recv_frame
  push_sends =
      rw (json.from_slice-to_vec (Frame.hello_ack (codes "ok") none))
        (ap (λ l. hello_frame json token ∷ l) send_snapshot-ready)

  -- The run of a push: what the listener has sent after one, two and three turns, and how both sides then end.
  pub record PushEnds : Type 0 where
    pub greeted :
        turns link (λ i. (pushing i).1) (λ i. payloads (listening i)) 1 ≡ hello_ack_frame json ∷ []
    pub ready :
        turns link (λ i. (pushing i).1) (λ i. payloads (listening i)) 2
        ≡ hello_ack_frame json ∷ ready_frame ∷ []
    pub confirmed :
        turns link (λ i. (pushing i).1) (λ i. payloads (listening i)) 3
        ≡ hello_ack_frame json ∷ confirmations json
    pub out : List Bytes
    pub dialler :
        pushing (transmit link 1 (hello_ack_frame json ∷ confirmations json)) ≡ (ok tt, out)
    pub listener :
        listening (transmit link 0 out) ≡ (ok tt, hello_ack_frame json ∷ confirmations json, b')

  -- A push of a snapshot that the dialler can read and the listener can store ends at both sides without an error, by
  -- turns in which each side goes on until it waits for the other: the listener greets, is ready, and confirms after
  -- three of them, and its engine is in the state of a direct copy. The encryption of every payload is within the
  -- ceiling of a frame.
  pub push_snapshot-handle_incoming :
      All
        (Fits link)
        (hello_frame json token ∷ sent json sender receiver token snapshot_id a b b' t)
      → All (Fits link) (hello_ack_frame json ∷ confirmations json)
      → PushEnds
  unfolding turns
  push_snapshot-handle_incoming (hello, (begin, rest)) (ack, (ready, confirm)) =
      let out = hello_frame json token ∷ sent json sender receiver token snapshot_id a b b' t in
      let stored = handle_incoming-stored json sender receiver token snapshot_id a b b' t in
      let one =
        turns-suc link (λ i. (pushing i).1) (λ i. payloads (listening i)) 0 refl tt push_greets
          (hello, tt) listen_greets in
      let two =
        turns-suc link (λ i. (pushing i).1) (λ i. payloads (listening i)) 1 one (ack, tt)
          push_begins (hello, (begin, tt)) listen_ready in
      let three =
        turns-suc link (λ i. (pushing i).1) (λ i. payloads (listening i)) 2 two (ack, (ready, tt))
          push_sends (hello, (begin, rest)) (ap payloads stored) in
      record {
        greeted = one;
        ready = two;
        confirmed = three;
        out = out;
        dialler =
            ap pushing (transmit-arrive link 1 _ (ack, (ready, confirm)))
            ∙ push_snapshot-sent json sender receiver token snapshot_id a b b' t;
        listener = ap listening (transmit-arrive link 0 out (hello, (begin, rest))) ∙ stored;
      }
