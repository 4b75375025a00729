-- ===== src/RemoteSync/Copy/Sessions.antt =====
-- A whole push and a whole pull of remote_sync.rs, both ends together.
use obsidian_backup_server.Prelude.{
  ◌≡◌, ◌∙◌, refl, ap, none, List, [], ◌∷◌, ◌++◌, Bytes, length, if_true, Result, ok, err,
}
use obsidian_backup_server.Prelude.Text.{codes, bytes_eq_refl}
use obsidian_backup_server.RemoteSync.{
  Frame, FrameJson, SyncEngine, Incoming, protocol_version, recv_frame,
}
use obsidian_backup_server.RemoteSync.Sender.{send_objects}
use obsidian_backup_server.RemoteSync.Receiver.{
  and_receive, receive_frames, receive_snapshot, register, acknowledge, welcome, Receiving,
  handle_incoming,
}
use obsidian_backup_server.RemoteSync.Copy.{and_copy, copy_files, copy_snapshot}
use obsidian_backup_server.RemoteSync.Copy.Objects.{
  arrive, arrive-append, receive_push_end, send_objects-Copies,
}

-- `[]` after the payloads
arrive-nil : (xs : List Bytes) → arrive xs ++ [] ≡ arrive xs
arrive-nil [] = refl
arrive-nil (x ∷ xs) = ap (λ (l : Incoming). ok x ∷ l) (arrive-nil xs)

module _ {M : Type 0} (json : FrameJson M) where
  -- what a sender of the snapshot sends after the handshake
  abbrev pub snapshot_frames : Bytes → M → List Bytes → List Bytes → List Bytes
  snapshot_frames snapshot_id manifest files objects =
      json.to_vec (Frame.push_begin snapshot_id manifest (length files))
      ∷ (objects ++ json.to_vec Frame.push_end ∷ [])

  abbrev pub hello_frame : Bytes → Bytes
  hello_frame token = json.to_vec (Frame.hello protocol_version token)

  abbrev pub hello_ack_frame : Bytes
  hello_ack_frame = json.to_vec (Frame.hello_ack (codes "ok") none)

  -- what a receiver sends after the handshake, if all is stored
  abbrev pub confirmations : List Bytes
  confirmations =
      json.to_vec (Frame.push_ready (codes "ok")) ∷ json.to_vec (Frame.push_ack (codes "ok")) ∷ []

  module _ (sender receiver : SyncEngine M) (token snapshot_id : Bytes) (manifest : M)
      (files : List Bytes) where
    -- the replies of the receiver, where a copy gives this result
    abbrev pub stored : Result (Unit {0}) × receiver.S → Receiving json receiver
    stored (ok _, b) = (ok tt, confirmations, b)
    stored (err e, b) = (err e, json.to_vec (Frame.push_ready (codes "ok")) ∷ [], b)

    acknowledge-stored :
        (r : Result (Unit {0}) × receiver.S) → acknowledge json receiver r ≡ stored r
    acknowledge-stored (ok _, b) = refl
    acknowledge-stored (err e, b) = refl

    register-stored :
        (c : Result (Unit {0}) × receiver.S)
        → register json receiver snapshot_id manifest (
            and_receive json receiver c
              (receive_frames json receiver (ok (json.to_vec Frame.push_end) ∷ [])))
          ≡ stored (and_copy c (receiver.register_remote_snapshot snapshot_id manifest))
    register-stored (ok _, b) =
        ap (register json receiver snapshot_id manifest)
          (receive_push_end json sender receiver [] b)
        ∙ acknowledge-stored _
    register-stored (err e, b) = refl

    pub receive_snapshot-stored :
        (a : sender.S) (b : receiver.S)
        → (send_objects json sender files a).0 ≡ ok tt
        → receive_snapshot json receiver
            (arrive ((send_objects json sender files a).1 ++ json.to_vec Frame.push_end ∷ []))
            snapshot_id
            manifest
            b
          ≡ stored (copy_snapshot sender receiver snapshot_id manifest files a b)
    unfolding receive_snapshot copy_snapshot
    receive_snapshot-stored a b h =
        ap (λ l. register json receiver snapshot_id manifest (receive_frames json receiver l b))
          (arrive-append (send_objects json sender files a).1 _)
        ∙ ap (register json receiver snapshot_id manifest)
            (send_objects-Copies json sender receiver files a h _ b)
        ∙ register-stored (copy_files sender receiver files a b)

    -- The listener that is pushed a snapshot ends in the state, and with the result, of a direct copy of the
    -- snapshot, whatever the copy does, if the peer can read all of it and shows the listener's token. It
    -- confirms the end exactly if the copy succeeds.
    pub handle_incoming-copy_snapshot :
        (a : sender.S) (b : receiver.S)
        → (send_objects json sender files a).0 ≡ ok tt
        → handle_incoming json receiver token
            (arrive (
              hello_frame token
              ∷ snapshot_frames snapshot_id manifest files (send_objects json sender files a).1))
            b
          ≡ welcome json receiver
              (stored (copy_snapshot sender receiver snapshot_id manifest files a b))
    unfolding handle_incoming recv_frame
    handle_incoming-copy_snapshot a b h =
        rw
          (
            json.from_slice-to_vec (Frame.hello protocol_version token),
            json.from_slice-to_vec (Frame.push_begin snapshot_id manifest (length files)),
          )
          (if_true _ _ (bytes_eq_refl token)
            ∙ ap (welcome json receiver) (receive_snapshot-stored a b h))
