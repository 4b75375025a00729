-- ===== src/RemoteSync/Copy/Lockstep.antt =====
-- Both ends of a push, and of a pull, of remote_sync.rs, on all that the other has sent.
use obsidian_backup_server.Prelude.{
  ◌≡◌, ◌∙◌, refl, ap, none, List, [], ◌∷◌, ◌++◌, Bytes, length, if_true, ok, err,
}
use obsidian_backup_server.Prelude.Text.{codes, bytes_eq_refl}
use obsidian_backup_server.RemoteSync.{Frame, FrameJson, SyncEngine, protocol_version, recv_frame}
use obsidian_backup_server.RemoteSync.Sender.{
  Sending, and_send, send_first, send_objects, send_snapshot, send_files, sender_handshake,
  push_snapshot,
}
use obsidian_backup_server.RemoteSync.Receiver.{
  welcome, receive_after, handle_incoming, pull_snapshot,
}
use obsidian_backup_server.RemoteSync.Copy.{copy_snapshot}
use obsidian_backup_server.RemoteSync.Copy.Objects.{arrive}
use obsidian_backup_server.RemoteSync.Copy.Sessions.{
  snapshot_frames, hello_frame, hello_ack_frame, confirmations, stored, receive_snapshot-stored,
  handle_incoming-copy_snapshot,
}

and_send-ok :
    (x : Sending) (ys : List Bytes) → x.0 ≡ ok tt → and_send x (ok tt, ys) ≡ (ok tt, x.1 ++ ys)
and_send-ok (ok _, xs) ys h = refl
and_send-ok (err e, xs) ys h = cc

module _ {M : Type 0} (json : FrameJson M) (sender receiver : SyncEngine M)
    (token snapshot_id : Bytes) where
  -- The sender has the snapshot and can read all of it, and the receiver can store it.
  pub record Transferable (a : sender.S) (b b' : receiver.S) : Type 0 where
    pub manifest : M
    pub files : List Bytes
    pub has_manifest : sender.snapshot_manifest_json snapshot_id a ≡ ok manifest
    pub has_files : sender.snapshot_files snapshot_id a ≡ ok files
    pub readable : (send_objects json sender files a).0 ≡ ok tt
    pub storable : copy_snapshot sender receiver snapshot_id manifest files a b ≡ (ok tt, b')

  module _ (a : sender.S) (b b' : receiver.S) (t : Transferable a b b') where
    -- what the side with the snapshot sends after the handshake
    abbrev pub sent : List Bytes
    sent =
        snapshot_frames json snapshot_id t.manifest t.files (send_objects json sender t.files a).1

    send_snapshot-sent :
        send_snapshot json sender snapshot_id (arrive (confirmations json)) a ≡ (ok tt, sent)
    unfolding send_snapshot recv_frame
    send_snapshot-sent =
        rw
          (
            t.has_manifest,
            t.has_files,
            send_snapshot,
            send_files,
            json.from_slice-to_vec (Frame.push_ready (codes "ok")),
            json.from_slice-to_vec (Frame.push_ack (codes "ok")),
          )
          (ap
            (send_first
              (json.to_vec (Frame.push_begin snapshot_id t.manifest (length t.files)) ∷ []))
            (and_send-ok (send_objects json sender t.files a) _ t.readable))

    pub push_snapshot-sent :
        push_snapshot json sender token snapshot_id
          (arrive (hello_ack_frame json ∷ confirmations json))
          a
        ≡ (ok tt, hello_frame json token ∷ sent)
    unfolding push_snapshot sender_handshake recv_frame
    push_snapshot-sent =
        rw (json.from_slice-to_vec (Frame.hello_ack (codes "ok") none))
          (ap (send_first (hello_frame json token ∷ [])) send_snapshot-sent)

    pub handle_incoming-stored :
        handle_incoming json receiver token (arrive (hello_frame json token ∷ sent)) b
        ≡ (ok tt, hello_ack_frame json ∷ confirmations json, b')
    handle_incoming-stored =
        handle_incoming-copy_snapshot json sender receiver token snapshot_id t.manifest t.files a b
          t.readable
        ∙ ap
            (λ c.
              welcome json receiver
                (stored json sender receiver token snapshot_id t.manifest t.files c))
            t.storable

    abbrev pub pull_request_frame : Bytes
    pull_request_frame = json.to_vec (Frame.pull_request snapshot_id)

    pub handle_incoming-sent :
        handle_incoming json sender token
          (arrive (hello_frame json token ∷ pull_request_frame ∷ confirmations json))
          a
        ≡ (ok tt, hello_ack_frame json ∷ sent, a)
    unfolding handle_incoming recv_frame
    handle_incoming-sent =
        rw
          (
            json.from_slice-to_vec (Frame.hello protocol_version token),
            json.from_slice-to_vec (Frame.pull_request snapshot_id),
          )
          (if_true _ _ (bytes_eq_refl token)
            ∙ ap (λ (x : Sending). (x.0, hello_ack_frame json ∷ x.1, a)) send_snapshot-sent)

    pub pull_snapshot-stored :
        pull_snapshot json receiver token snapshot_id (arrive (hello_ack_frame json ∷ sent)) b
        ≡ (ok tt, hello_frame json token ∷ pull_request_frame ∷ confirmations json, b')
    unfolding pull_snapshot recv_frame
    pull_snapshot-stored =
        rw
          (
            json.from_slice-to_vec (Frame.hello_ack (codes "ok") none),
            json.from_slice-to_vec (Frame.push_begin snapshot_id t.manifest (length t.files)),
          )
          (ap
            (λ x.
              receive_after json receiver (hello_frame json token ∷ [])
                (receive_after json receiver (pull_request_frame ∷ []) x))
            (receive_snapshot-stored json sender receiver token snapshot_id t.manifest t.files a b
                t.readable
              ∙ ap (stored json sender receiver token snapshot_id t.manifest t.files) t.storable))
