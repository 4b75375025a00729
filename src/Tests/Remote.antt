-- ===== src/Tests/Remote.antt =====
-- The theorems on the remote synchronisation at concrete values.
use obsidian_backup_server.Prelude.{
  ℕ, zero, suc, ◌*◌, ltb, ◌≡◌, ◌∙◌, ◌⊎◌, refl, sym, ap, Option, none, some, List, [], ◌∷◌, ◌++◌,
  Bytes, length, replicate, if◌then◌else◌, Result, ok, err, io, oversized_frame, arith,
}
use obsidian_backup_server.Prelude.Text.{codes}
use obsidian_backup_server.Tests.Database.{show_texts, read_texts, read_texts-show_texts}
use obsidian_backup_server.RemoteSync.{Frame, FrameJson, SyncEngine, protocol_version, recv_frame}
use obsidian_backup_server.RemoteSync.Wire.{Cipher, read_exact, send_payload, recv_payload}
use obsidian_backup_server.RemoteSync.Frames.{
  FrameAt, recv_payload-FrameAt, recv_payload-send_payload,
}
use obsidian_backup_server.RemoteSync.Sender.{send_objects, send_chunk_objects}
use obsidian_backup_server.RemoteSync.Receiver.{welcome, handle_incoming}
use obsidian_backup_server.RemoteSync.Gate.{TurnedAway, handle_incoming-TurnedAway}
use obsidian_backup_server.RemoteSync.Copy.{copy_snapshot, copy_files, copy_objects}
use obsidian_backup_server.RemoteSync.Copy.Objects.{arrive}
use obsidian_backup_server.RemoteSync.Copy.Sessions.{
  hello_frame, snapshot_frames, stored, handle_incoming-copy_snapshot,
}
use obsidian_backup_server.RemoteSync.Copy.Lockstep.{Transferable}

abbrev optional : Option Bytes → List Bytes
optional none = []
optional (some m) = m ∷ []

-- a frame as texts: its kind and its number, then its fields; a manifest is a text
abbrev to_texts : Frame Bytes → List Bytes
to_texts (Frame.hello version token) = (0 ∷ version ∷ []) ∷ token ∷ []
to_texts (Frame.hello_ack status message) = (1 ∷ []) ∷ status ∷ optional message
to_texts (Frame.push_begin snapshot_id manifest file_count) =
    (2 ∷ file_count ∷ []) ∷ snapshot_id ∷ manifest ∷ []
to_texts (Frame.push_ready status) = (3 ∷ []) ∷ status ∷ []
to_texts (Frame.file_chunks path chunks) = (4 ∷ []) ∷ path ∷ chunks
to_texts (Frame.object hash size) = (5 ∷ size ∷ []) ∷ hash ∷ []
to_texts Frame.push_end = (6 ∷ []) ∷ []
to_texts (Frame.push_ack status) = (7 ∷ []) ∷ status ∷ []
to_texts (Frame.pull_request snapshot_id) = (8 ∷ []) ∷ snapshot_id ∷ []
to_texts (Frame.error message) = (9 ∷ []) ∷ message ∷ []

-- the arguments: the kind, the number of the head, and the fields
abbrev of_kind : ℕ → Bytes → List Bytes → Result (Frame Bytes)
of_kind zero (version ∷ []) (token ∷ []) = ok (Frame.hello version token)
of_kind (suc zero) [] (status ∷ []) = ok (Frame.hello_ack status none)
of_kind (suc zero) [] (status ∷ message ∷ []) = ok (Frame.hello_ack status (some message))
of_kind (suc (suc zero)) (file_count ∷ []) (snapshot_id ∷ manifest ∷ []) =
    ok (Frame.push_begin snapshot_id manifest file_count)
of_kind (suc (suc (suc zero))) [] (status ∷ []) = ok (Frame.push_ready status)
of_kind (suc (suc (suc (suc zero)))) [] (path ∷ chunks) = ok (Frame.file_chunks path chunks)
of_kind (suc (suc (suc (suc (suc zero))))) (size ∷ []) (hash ∷ []) = ok (Frame.object hash size)
of_kind (suc (suc (suc (suc (suc (suc zero)))))) [] [] = ok Frame.push_end
of_kind (suc (suc (suc (suc (suc (suc (suc zero))))))) [] (status ∷ []) = ok (Frame.push_ack status)
of_kind (suc (suc (suc (suc (suc (suc (suc (suc zero)))))))) [] (snapshot_id ∷ []) =
    ok (Frame.pull_request snapshot_id)
of_kind (suc (suc (suc (suc (suc (suc (suc (suc (suc zero))))))))) [] (message ∷ []) =
    ok (Frame.error message)
of_kind _ _ _ = err io

abbrev of_texts : List Bytes → Result (Frame Bytes)
of_texts ((kind ∷ more) ∷ fields) = of_kind kind more fields
of_texts _ = err io

pub of_texts-to_texts : (frame : Frame Bytes) → of_texts (to_texts frame) ≡ ok frame
of_texts-to_texts (Frame.hello version token) = refl
of_texts-to_texts (Frame.hello_ack status none) = refl
of_texts-to_texts (Frame.hello_ack status (some message)) = refl
of_texts-to_texts (Frame.push_begin snapshot_id manifest file_count) = refl
of_texts-to_texts (Frame.push_ready status) = refl
of_texts-to_texts (Frame.file_chunks path chunks) = refl
of_texts-to_texts (Frame.object hash size) = refl
of_texts-to_texts Frame.push_end = refl
of_texts-to_texts (Frame.push_ack status) = refl
of_texts-to_texts (Frame.pull_request snapshot_id) = refl
of_texts-to_texts (Frame.error message) = refl

abbrev pub frame_json : FrameJson Bytes
frame_json = record {
  to_vec = λ frame. show_texts (to_texts frame);
  from_slice = λ bytes. of_texts (read_texts bytes);
  from_slice-to_vec =
      λ frame. ap of_texts (read_texts-show_texts (to_texts frame)) ∙ of_texts-to_texts frame;
}

-- an engine that keeps what it is told to store
abbrev pub keeping : SyncEngine Bytes
keeping = record {
  S = List Bytes;
  snapshot_manifest_json = λ id s. ok (codes "manifest");
  snapshot_files = λ id s. ok (codes "level.dat" ∷ codes "r.mca" ∷ []);
  file_chunks_of = λ path s. ok (path ∷ codes "abc" ∷ []);
  read_object_data = λ hash s. ok (hash ++ hash);
  store_object = λ hash content s. (ok tt, content ∷ s);
  store_file_chunks = λ path chunks s. (ok tt, path ∷ s);
  register_remote_snapshot = λ id manifest s. (ok tt, id ∷ s);
}

abbrev two_files : List Bytes
two_files = codes "level.dat" ∷ codes "r.mca" ∷ []

pub two_files-readable : (send_objects frame_json keeping two_files []).0 ≡ ok tt
unfolding send_objects send_chunk_objects
two_files-readable = refl

abbrev sent_payloads : List Bytes
sent_payloads =
    hello_frame frame_json (codes "secret")
    ∷ snapshot_frames frame_json (codes "snap_1") (codes "manifest") two_files
        (send_objects frame_json keeping two_files []).1

handle_incoming-copy_snapshot_example :
    handle_incoming frame_json keeping (codes "secret") (arrive sent_payloads) []
    ≡ welcome frame_json keeping (
        stored frame_json keeping keeping
          (codes "secret")
          (codes "snap_1")
          (codes "manifest")
          two_files
          (copy_snapshot keeping keeping (codes "snap_1") (codes "manifest") two_files [] []))
handle_incoming-copy_snapshot_example =
    handle_incoming-copy_snapshot frame_json keeping keeping (codes "secret") (codes "snap_1")
      (codes "manifest") two_files [] [] two_files-readable

abbrev pub copied : List Bytes
copied = (copy_snapshot keeping keeping (codes "snap_1") (codes "manifest") two_files [] []).1

unfoldable pub two_files-Transferable :
    Transferable frame_json keeping keeping (codes "secret") (codes "snap_1") [] [] copied
unfolding copy_snapshot copy_files copy_objects
two_files-Transferable = record {
  manifest = codes "manifest";
  files = two_files;
  has_manifest = refl;
  has_files = refl;
  readable = two_files-readable;
  storable = refl;
}

handle_incoming-TurnedAway_example :
    ((recv_frame frame_json (ok (hello_frame frame_json (codes "guess")) ∷ [])).0
      ≡ ok (Frame.hello protocol_version (codes "secret")))
    ⊎ TurnedAway frame_json keeping
        (codes "secret")
        (handle_incoming frame_json keeping
          (codes "secret")
          (ok (hello_frame frame_json (codes "guess")) ∷ [])
          [])
        []
handle_incoming-TurnedAway_example =
    handle_incoming-TurnedAway frame_json keeping (codes "secret")
      (ok (hello_frame frame_json (codes "guess")) ∷ []) []

-- a cipher that puts a tag before the text
abbrev untag : Bytes → Option Bytes
untag [] = none
untag (zero ∷ content) = none
untag (suc tag ∷ content) = some content

pub some_bytes_inj : {a b : Bytes} → some a ≡ some b → a ≡ b
some_bytes_inj h = cc

abbrev pub tagging : Cipher
tagging = record {
  encrypt = λ nonce content. some (7 ∷ content);
  decrypt = λ nonce ct. untag ct;
  decrypt-encrypt = λ nonce content ct h. ap untag (sym (some_bytes_inj h));
}

abbrev pub a_nonce : Bytes
a_nonce = replicate 24 1

recv_payload-send_payload_example :
    (frame : Bytes) × (send_payload tagging a_nonce (codes "chunk") (9 ∷ [])
      ≡ ok ((9 ∷ []) ++ frame))
    × (recv_payload tagging (frame ++ (5 ∷ [])) ≡ (
        if ltb (256 * 1024 * 1024) (length (7 ∷ codes "chunk"))
        then err oversized_frame
        else ok (codes "chunk", 5 ∷ [])))
recv_payload-send_payload_example =
    recv_payload-send_payload tagging a_nonce (codes "chunk") (7 ∷ codes "chunk") (9 ∷ []) (5 ∷ [])
      refl refl (omega arith)

abbrev a_stream : Bytes
a_stream = (2 ∷ 0 ∷ 0 ∷ 0 ∷ []) ++ (a_nonce ++ (7 ∷ 65 ∷ []))

a_stream-received : recv_payload tagging a_stream ≡ ok (65 ∷ [], [])
unfolding recv_payload read_exact
a_stream-received = refl

recv_payload-FrameAt_example : FrameAt tagging a_stream (65 ∷ []) []
recv_payload-FrameAt_example = recv_payload-FrameAt tagging a_stream (65 ∷ []) [] a_stream-received
