-- ===== src/RemoteSync/Sender.antt =====
-- The sending side of remote_sync.rs. A run is its result and the payloads that it has given to `send_payload`, in
-- their order; writing to the stream succeeds.
use obsidian_backup_server.Prelude.{
  List, [], ◌∷◌, ◌++◌, Bytes, length, if◌then◌else◌, Result, ok, err, peer_error, unexpected_frame,
  auth_failed,
}
use obsidian_backup_server.Prelude.Text.{codes, bytes_eq}
use obsidian_backup_server.RemoteSync.{
  Frame, FrameJson, SyncEngine, Incoming, protocol_version, recv_frame,
}

-- a run of the sender
abbrev pub Sending : Type 0
Sending = Result (Unit {0}) × List Bytes

abbrev pub send_first : List Bytes → Sending → Sending
send_first before (r, sent) = (r, before ++ sent)

-- `first?; second`
abbrev pub and_send : Sending → Sending → Sending
and_send (err e, sent) second = (err e, sent)
and_send (ok _, sent) second = send_first sent second

-- the arms of `expect_ready`
abbrev pub is_ready : {M : Type 0} → Result (Frame M) → Result (Unit {0})
is_ready (ok (Frame.push_ready status)) =
    if bytes_eq status (codes "ok") then ok tt else err unexpected_frame
is_ready (ok (Frame.error message)) = err peer_error
is_ready (ok _) = err unexpected_frame
is_ready (err e) = err e

-- the arms of `expect_ack`
abbrev pub is_ack : {M : Type 0} → Result (Frame M) → Result (Unit {0})
is_ack (ok (Frame.push_ack status)) =
    if bytes_eq status (codes "ok") then ok tt else err unexpected_frame
is_ack (ok (Frame.error message)) = err peer_error
is_ack (ok _) = err unexpected_frame
is_ack (err e) = err e

-- the arms of `sender_handshake`
abbrev pub is_hello_ack : {M : Type 0} → Result (Frame M) → Result (Unit {0})
is_hello_ack (ok (Frame.hello_ack status message)) =
    if bytes_eq status (codes "ok") then ok tt else err auth_failed
is_hello_ack (ok _) = err unexpected_frame
is_hello_ack (err e) = err e

module _ {M : Type 0} (json : FrameJson M) (engine : SyncEngine M) where
  -- an object, once it has been read
  abbrev pub send_read : Bytes → Result Bytes → Sending → Sending
  send_read hash (err e) rest = (err e, [])
  send_read hash (ok content) rest =
      send_first (json.to_vec (Frame.object hash (length content)) ∷ content ∷ []) rest

  -- the objects of one file
  unfoldable pub send_chunk_objects : List Bytes → engine.S → Sending
  send_chunk_objects [] s = (ok tt, [])
  send_chunk_objects (hash ∷ hashes) s =
      send_read hash (engine.read_object_data hash s) (send_chunk_objects hashes s)

  -- a file, once its chunks are known
  abbrev pub send_listed : Bytes → Result (List Bytes) → (List Bytes → Sending) → Sending → Sending
  send_listed path (err e) objects rest = (err e, [])
  send_listed path (ok chunks) objects rest =
      send_first (json.to_vec (Frame.file_chunks path chunks) ∷ []) (and_send (objects chunks) rest)

  unfoldable pub send_objects : List Bytes → engine.S → Sending
  send_objects [] s = (ok tt, [])
  send_objects (path ∷ files) s =
      send_listed path (engine.file_chunks_of path s) (λ chunks. send_chunk_objects chunks s)
        (send_objects files s)

  -- `send_snapshot` from `expect_ready` on
  abbrev pub send_files : List Bytes → Incoming → engine.S → Sending
  send_files files incoming s =
      let (first, rest) = recv_frame json incoming in
      elim (is_ready first) [
        | err e ↦ (err e, [])
        | ok _ ↦
            and_send (send_objects files s)
              (is_ack (recv_frame json rest).0, json.to_vec Frame.push_end ∷ [])
      ]

  -- `send_snapshot`, which `handle_incoming` repeats for a pull
  unfoldable pub send_snapshot : Bytes → Incoming → engine.S → Sending
  send_snapshot snapshot_id incoming s = elim (engine.snapshot_manifest_json snapshot_id s) [
    | err e ↦ (err e, [])
    | ok manifest ↦ elim (engine.snapshot_files snapshot_id s) [
      | err e ↦ (err e, [])
      | ok files ↦
          send_first (json.to_vec (Frame.push_begin snapshot_id manifest (length files)) ∷ [])
            (send_files files incoming s)
    ]
  ]

  -- `sender_handshake`, and what follows it
  unfoldable pub sender_handshake : Bytes → Incoming → (Incoming → Sending) → Sending
  sender_handshake token incoming go =
      let (first, rest) = recv_frame json incoming in
      send_first (json.to_vec (Frame.hello protocol_version token) ∷ [])
        (elim (is_hello_ack first) [ err e ↦ (err e, []) | ok _ ↦ go rest ])

  -- `push_snapshot`, once the peer has been reached
  unfoldable pub push_snapshot : Bytes → Bytes → Incoming → engine.S → Sending
  push_snapshot token snapshot_id incoming s =
      sender_handshake token incoming (λ (rest : Incoming). send_snapshot snapshot_id rest s)
