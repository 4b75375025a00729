-- ===== src/RemoteSync/Copy/PullTurns.antt =====
-- A whole pull of remote_sync.rs, in turns over a stream.
use obsidian_backup_server.Prelude.{
  ◌≡◌, ◌∙◌, refl, ap, none, List, [], ◌∷◌, Bytes, All, length, if_true, ok,
}
use obsidian_backup_server.Prelude.Text.{codes, bytes_eq_refl}
use obsidian_backup_server.RemoteSync.{
  Frame, FrameJson, SyncEngine, Incoming, protocol_version, recv_frame,
}
use obsidian_backup_server.RemoteSync.Sender.{send_snapshot}
use obsidian_backup_server.RemoteSync.Receiver.{
  Receiving, receive_frames, receive_snapshot, handle_incoming, pull_snapshot,
}
use obsidian_backup_server.RemoteSync.Copy.Objects.{arrive}
use obsidian_backup_server.RemoteSync.Copy.Sessions.{hello_frame, hello_ack_frame, confirmations}
use obsidian_backup_server.RemoteSync.Copy.Lockstep.{
  Transferable, sent, pull_request_frame, handle_incoming-sent, pull_snapshot-stored,
}
use obsidian_backup_server.RemoteSync.Copy.Link.{
  payloads, Link, transmit, turns, turns-suc, Fits, transmit-arrive,
}
use obsidian_backup_server.RemoteSync.Copy.Turns.{begin_frame, ready_frame, send_snapshot-ready}

module _ {M : Type 0} (json : FrameJson M) (link : Link) (sender receiver : SyncEngine M)
    (token snapshot_id : Bytes) (a : sender.S) (b b' : receiver.S)
    (t : Transferable json sender receiver token snapshot_id a b b') where
  abbrev pub pulling : Incoming → Receiving json receiver
  pulling incoming = pull_snapshot json receiver token snapshot_id incoming b

  abbrev pub serving : Incoming → Receiving json sender
  serving incoming = handle_incoming json sender token incoming a

  abbrev request : Bytes
  request = pull_request_frame json sender receiver token snapshot_id a b b' t

  abbrev begins : Bytes
  begins = begin_frame json link sender receiver token snapshot_id a b b' t

  abbrev ready : Bytes
  ready = ready_frame json link sender receiver token snapshot_id a b b' t

  abbrev all_sent : List Bytes
  all_sent = sent json sender receiver token snapshot_id a b b' t

  abbrev pulled : Incoming → List Bytes
  pulled incoming = payloads (pulling incoming)

  abbrev served : Incoming → List Bytes
  served incoming = payloads (serving incoming)

  pull_greets : pulled [] ≡ hello_frame json token ∷ []
  unfolding pull_snapshot recv_frame
  pull_greets = refl

  serve_greets : served (arrive (hello_frame json token ∷ [])) ≡ hello_ack_frame json ∷ []
  unfolding handle_incoming recv_frame
  serve_greets =
      rw (json.from_slice-to_vec (Frame.hello protocol_version token))
        (ap payloads (if_true _ _ (bytes_eq_refl token)))

  pull_requests :
      pulled (arrive (hello_ack_frame json ∷ [])) ≡ hello_frame json token ∷ request ∷ []
  unfolding pull_snapshot recv_frame
  pull_requests = rw (json.from_slice-to_vec (Frame.hello_ack (codes "ok") none)) refl

  serve_begins :
      served (arrive (hello_frame json token ∷ request ∷ [])) ≡ hello_ack_frame json ∷ begins ∷ []
  unfolding handle_incoming send_snapshot recv_frame
  serve_begins =
      rw
        (
          json.from_slice-to_vec (Frame.hello protocol_version token),
          json.from_slice-to_vec (Frame.pull_request snapshot_id),
          send_snapshot,
          t.has_manifest,
          t.has_files,
        )
        (ap payloads (if_true _ _ (bytes_eq_refl token)))

  pull_ready :
      pulled (arrive (hello_ack_frame json ∷ begins ∷ []))
      ≡ hello_frame json token ∷ request ∷ ready ∷ []
  unfolding pull_snapshot receive_snapshot receive_frames recv_frame
  pull_ready =
      rw
        (
          json.from_slice-to_vec (Frame.hello_ack (codes "ok") none),
          json.from_slice-to_vec (Frame.push_begin snapshot_id t.manifest (length t.files)),
        )
        refl

  serve_sends :
      served (arrive (hello_frame json token ∷ request ∷ ready ∷ []))
      ≡ hello_ack_frame json ∷ all_sent
  unfolding handle_incoming recv_frame
  serve_sends =
      rw
        (
          json.from_slice-to_vec (Frame.hello protocol_version token),
          json.from_slice-to_vec (Frame.pull_request snapshot_id),
        )
        (ap payloads (if_true _ _ (bytes_eq_refl token))
          ∙ ap (λ l. hello_ack_frame json ∷ l)
              (send_snapshot-ready json link sender receiver token snapshot_id a b b' t))

  -- The run of a pull: what the listener has sent after one, two and three turns, and how both sides then end.
  pub record PullEnds : Type 0 where
    pub greeted : turns link pulled served 1 ≡ hello_ack_frame json ∷ []
    pub announced : turns link pulled served 2 ≡ hello_ack_frame json ∷ begins ∷ []
    pub back : List Bytes
    pub complete : turns link pulled served 3 ≡ back
    pub out : List Bytes
    pub dialler : pulling (transmit link 1 back) ≡ (ok tt, out, b')
    pub listener : serving (transmit link 0 out) ≡ (ok tt, back, a)

  -- A pull of a snapshot that the listener can read and the dialler can store ends at both sides without an error, by
  -- turns in which each side goes on until it waits for the other: the listener greets, announces the snapshot, and
  -- has sent all of it after three of them. The listener's engine is as it was, and the dialler's in the state of a
  -- direct copy. The encryption of every payload is within the ceiling of a frame.
  pub pull_snapshot-handle_incoming :
      All (Fits link) (hello_ack_frame json ∷ all_sent)
      → All (Fits link) (hello_frame json token ∷ request ∷ confirmations json)
      → PullEnds
  unfolding turns
  pull_snapshot-handle_incoming (ack, (begin, rest)) (hello, (asks, (is_ready, confirm))) =
      let stored = pull_snapshot-stored json sender receiver token snapshot_id a b b' t in
      let done = handle_incoming-sent json sender receiver token snapshot_id a b b' t in
      let one = turns-suc link pulled served 0 refl tt pull_greets (hello, tt) serve_greets in
      let two =
        turns-suc link pulled served 1 one (ack, tt) pull_requests (hello, (asks, tt))
          serve_begins in
      let three =
        turns-suc link pulled served 2 two (ack, (begin, tt)) pull_ready
          (hello, (asks, (is_ready, tt))) serve_sends in
      record {
        greeted = one;
        announced = two;
        back = hello_ack_frame json ∷ all_sent;
        complete = three;
        out = hello_frame json token ∷ request ∷ confirmations json;
        dialler = ap pulling (transmit-arrive link 1 _ (ack, (begin, rest))) ∙ stored;
        listener =
            ap serving (transmit-arrive link 0 _ (hello, (asks, (is_ready, confirm)))) ∙ done;
      }
