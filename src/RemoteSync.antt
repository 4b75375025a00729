-- ===== src/RemoteSync.antt =====
-- sidecar/src/remote_sync.rs: the frames, and what the protocol needs of serde_json and of the engine.
pub mod Wire
pub mod Frames
pub mod Sender
pub mod Receiver
pub mod Gate
pub mod Copy
use obsidian_backup_server.Prelude.{
  ℕ, ◌≡◌, Option, none, some, List, [], ◌∷◌, Bytes, Result, ok, err, Error, io,
}
use obsidian_backup_server.Ipc.{Value}

-- `M` is `serde_json::Value`, the type of a manifest.
pub data Frame (M : Type 0) : Type 0 where
  hello : (version : ℕ) → (token : Bytes) → Frame M
  hello_ack : (status : Bytes) → (message : Option Bytes) → Frame M
  push_begin : (snapshot_id : Bytes) → (manifest : M) → (file_count : ℕ) → Frame M
  push_ready : (status : Bytes) → Frame M
  file_chunks : (path : Bytes) → (chunks : List Bytes) → Frame M
  object : (hash : Bytes) → (size : ℕ) → Frame M
  push_end : Frame M
  push_ack : (status : Bytes) → Frame M
  pull_request : (snapshot_id : Bytes) → Frame M
  error : (message : Bytes) → Frame M

-- `serde_json::to_vec` and `from_slice` at `Frame`: what is written is read back.
pub record FrameJson (M : Type 0) : Type 0 where
  pub to_vec : Frame M → Bytes
  pub from_slice : Bytes → Result (Frame M)
  pub from_slice-to_vec : (frame : Frame M) → from_slice (to_vec frame) ≡ ok frame

-- What the protocol calls of the engine of one side; the reads leave its state as it is.
pub record SyncEngine (M : Type 0) : Type 1 where
  pub S : Type 0
  pub snapshot_manifest_json : Bytes → S → Result M
  pub snapshot_files : Bytes → S → Result (List Bytes)
  pub file_chunks_of : Bytes → S → Result (List Bytes)
  pub read_object_data : Bytes → S → Result Bytes
  pub store_object : Bytes → Bytes → S → Result (Unit {0}) × S
  pub store_file_chunks : Bytes → List Bytes → S → Result (Unit {0}) × S
  pub register_remote_snapshot : Bytes → M → S → Result (Unit {0}) × S

-- What the calls of `recv_payload` return, one after another. After the end of the stream `read_exact` fails.
abbrev pub Incoming : Type 0
Incoming = List (Result Bytes)

abbrev pub protocol_version : ℕ
protocol_version = 1

module _ {M : Type 0} (json : FrameJson M) where
  -- a frame, from what `recv_payload` has returned
  abbrev pub frame_of : Result Bytes → Result (Frame M)
  frame_of (err e) = err e
  frame_of (ok bytes) = json.from_slice bytes

  -- the next frame, and what comes after it
  unfoldable pub recv_frame : Incoming → Result (Frame M) × Incoming
  recv_frame [] = (err io, [])
  recv_frame (r ∷ rest) = (frame_of r, rest)
