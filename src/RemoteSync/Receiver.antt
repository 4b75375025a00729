-- ===== src/RemoteSync/Receiver.antt =====
-- The receiving side of remote_sync.rs. A run is its result, the payloads that it has given to `send_payload`, and the
-- state of the engine.
use obsidian_backup_server.Prelude.{
  ℕ, ◌&&◌, none, some, List, [], ◌∷◌, ◌++◌, Bytes, length, ◌==◌, if◌then◌else◌, Result, ok, err, io,
  peer_error, unexpected_frame, size_mismatch, auth_failed,
}
use obsidian_backup_server.Prelude.Text.{codes, bytes_eq}
use obsidian_backup_server.RemoteSync.{
  Frame, FrameJson, SyncEngine, Incoming, protocol_version, frame_of, recv_frame,
}
use obsidian_backup_server.RemoteSync.Sender.{Sending, send_snapshot, is_hello_ack}

module _ {M : Type 0} (json : FrameJson M) (engine : SyncEngine M) where
  -- the loop: what is left of the stream, if it ends well
  abbrev pub Received : Type 0
  Received = Result Incoming × engine.S

  -- `call?`, and what follows it
  abbrev pub and_receive : Result (Unit {0}) × engine.S → (engine.S → Received) → Received
  and_receive (err e, s) next = (err e, s)
  and_receive (ok _, s) next = next s

  -- an object, once its payload has been read
  abbrev pub store_payload : Bytes → ℕ → Result Bytes → (engine.S → Received) → engine.S → Received
  store_payload hash size (err e) after s = (err e, s)
  store_payload hash size (ok content) after s =
      if length content == size
      then and_receive (engine.store_object hash content s) after
      else (err size_mismatch, s)

  -- The arms of the loop. `payload` is what the next `recv_payload` returns, `next` the loop after the frame, `after`
  -- the loop after the frame and a payload, and `rest` what comes after the frame.
  abbrev pub on_frame :
      Result (Frame M)
      → Result Bytes
      → (engine.S → Received)
      → (engine.S → Received)
      → Incoming
      → engine.S
      → Received
  on_frame (ok (Frame.file_chunks path chunks)) payload next after rest s =
      and_receive (engine.store_file_chunks path chunks s) next
  on_frame (ok (Frame.object hash size)) payload next after rest s =
      store_payload hash size payload after s
  on_frame (ok Frame.push_end) payload next after rest s = (ok rest, s)
  on_frame (ok (Frame.error message)) payload next after rest s = (err peer_error, s)
  on_frame (ok _) payload next after rest s = (err unexpected_frame, s)
  on_frame (err e) payload next after rest s = (err e, s)

  -- the stream has ended
  abbrev pub ended : engine.S → Received
  ended s = (err io, s)

  -- the loop of `receive_snapshot`
  unfoldable pub receive_frames : Incoming → engine.S → Received
  receive_frames [] s = ended s
  receive_frames (r ∷ []) s = on_frame (frame_of json r) (err io) ended ended [] s
  receive_frames (r ∷ p ∷ rest) s =
      on_frame (frame_of json r) p (receive_frames (p ∷ rest)) (receive_frames rest) (p ∷ rest) s

  abbrev pub Receiving : Type 0
  Receiving = Result (Unit {0}) × List Bytes × engine.S

  abbrev pub ready : List Bytes
  ready = json.to_vec (Frame.push_ready (codes "ok")) ∷ []

  abbrev pub acknowledge : Result (Unit {0}) × engine.S → Receiving
  acknowledge (err e, s) = (err e, ready, s)
  acknowledge (ok _, s) = (ok tt, ready ++ json.to_vec (Frame.push_ack (codes "ok")) ∷ [], s)

  -- after the loop
  abbrev pub register : Bytes → M → Received → Receiving
  register snapshot_id manifest (err e, s) = (err e, ready, s)
  register snapshot_id manifest (ok rest, s) =
      acknowledge (engine.register_remote_snapshot snapshot_id manifest s)

  unfoldable pub receive_snapshot : Incoming → Bytes → M → engine.S → Receiving
  receive_snapshot incoming snapshot_id manifest s =
      register snapshot_id manifest (receive_frames incoming s)

  abbrev pub from_sending : Sending → engine.S → Receiving
  from_sending (r, sent) s = (r, sent, s)

  -- the second `match` of `handle_incoming`
  abbrev pub on_command : Result (Frame M) → Incoming → engine.S → Receiving
  on_command (ok (Frame.push_begin snapshot_id manifest file_count)) rest s =
      receive_snapshot rest snapshot_id manifest s
  on_command (ok (Frame.pull_request snapshot_id)) rest s =
      from_sending (send_snapshot json engine snapshot_id rest s) s
  on_command (ok (Frame.error message)) rest s = (err peer_error, [], s)
  on_command (ok _) rest s = (err unexpected_frame, [], s)
  on_command (err e) rest s = (err e, [], s)

  abbrev pub receive_command : Incoming → engine.S → Receiving
  receive_command incoming s =
      let (command, rest) = recv_frame json incoming in on_command command rest s

  abbrev pub welcome : Receiving → Receiving
  welcome (r, sent, s) = (r, json.to_vec (Frame.hello_ack (codes "ok") none) ∷ sent, s)

  abbrev pub rejected : engine.S → Receiving
  rejected s = (
    err auth_failed,
    json.to_vec (Frame.hello_ack (codes "error") (some (codes "authentication failed"))) ∷ [],
    s,
  )

  -- the first `match` of `handle_incoming`
  abbrev pub on_hello : Result (Frame M) → Bytes → Incoming → engine.S → Receiving
  on_hello (ok (Frame.hello version t)) token rest s =
      if version == protocol_version && bytes_eq t token
      then welcome (receive_command rest s)
      else rejected s
  on_hello (ok _) token rest s = rejected s
  on_hello (err e) token rest s = (err e, [], s)

  unfoldable pub handle_incoming : Bytes → Incoming → engine.S → Receiving
  handle_incoming token incoming s =
      let (first, rest) = recv_frame json incoming in on_hello first token rest s

  -- the second `match` of `pull_snapshot`
  abbrev pub on_pull_reply : Result (Frame M) → Incoming → engine.S → Receiving
  on_pull_reply (ok (Frame.push_begin snapshot_id manifest file_count)) rest s =
      receive_snapshot rest snapshot_id manifest s
  on_pull_reply (ok (Frame.error message)) rest s = (err peer_error, [], s)
  on_pull_reply (ok _) rest s = (err unexpected_frame, [], s)
  on_pull_reply (err e) rest s = (err e, [], s)

  abbrev pub receive_after : List Bytes → Receiving → Receiving
  receive_after before (r, sent, s) = (r, before ++ sent, s)

  abbrev pub request_pull : Bytes → Incoming → engine.S → Receiving
  request_pull snapshot_id incoming s =
      let (reply, rest) = recv_frame json incoming in
      receive_after (json.to_vec (Frame.pull_request snapshot_id) ∷ []) (on_pull_reply reply rest s)

  -- `pull_snapshot`, once the peer has been reached
  unfoldable pub pull_snapshot : Bytes → Bytes → Incoming → engine.S → Receiving
  pull_snapshot token snapshot_id incoming s =
      let (first, rest) = recv_frame json incoming in
      receive_after (json.to_vec (Frame.hello protocol_version token) ∷ [])
        (elim (is_hello_ack first) [
          | err e ↦ (err e, [], s)
          | ok _ ↦ request_pull snapshot_id rest s
        ])
