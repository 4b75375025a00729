-- ===== src/Tests/Turns.antt =====
-- The theorems on a whole push and a whole pull at concrete values.
use obsidian_backup_server.Prelude.{
  ltb, ltb→lt, ◌≡◌, ◌&&◌, refl, Bool, true, List, [], ◌∷◌, Bytes, All, length, both_true, arith,
}
use obsidian_backup_server.Prelude.Text.{codes}
use obsidian_backup_server.RemoteSync.Wire.{max_frame_bytes}
use obsidian_backup_server.RemoteSync.Sender.{send_objects, send_chunk_objects}
use obsidian_backup_server.RemoteSync.Copy.Sessions.{hello_frame, hello_ack_frame, confirmations}
use obsidian_backup_server.RemoteSync.Copy.Lockstep.{sent, pull_request_frame}
use obsidian_backup_server.RemoteSync.Copy.Link.{Link, Fits}
use obsidian_backup_server.RemoteSync.Copy.Turns.{PushEnds, push_snapshot-handle_incoming}
use obsidian_backup_server.RemoteSync.Copy.PullTurns.{PullEnds, pull_snapshot-handle_incoming}
use obsidian_backup_server.Tests.Database.{show_texts, show_text}
use obsidian_backup_server.Tests.Remote.{
  two_files-Transferable, frame_json, keeping, copied, tagging, a_nonce,
}

abbrev a_link : Link
a_link = record { cipher = tagging; nonce = λ n. a_nonce; length-nonce = λ n. refl }

abbrev all_short : List Bytes → Bool
all_short [] = true
all_short (x ∷ xs) = ltb (length x) max_frame_bytes && all_short xs

-- A tag of one byte keeps a short payload within the ceiling.
short-Fits : (xs : List Bytes) → all_short xs ≡ true → All (Fits a_link) xs
short-Fits [] h = tt
short-Fits (x ∷ xs) h =
    let (small, more) = both_true (ltb (length x) max_frame_bytes) (all_short xs) h in
    (λ n. (7 ∷ x, refl, omega (arith, ltb→lt _ _ small)), short-Fits xs more)

abbrev a_token : Bytes
a_token = codes "secret"

abbrev an_id : Bytes
an_id = codes "snap_1"

push_snapshot-handle_incoming_example :
    PushEnds frame_json a_link keeping keeping a_token an_id [] [] copied two_files-Transferable
unfolding send_objects send_chunk_objects show_texts show_text two_files-Transferable
push_snapshot-handle_incoming_example =
    push_snapshot-handle_incoming frame_json a_link keeping keeping a_token an_id [] [] copied
      two_files-Transferable
      (short-Fits
        (hello_frame frame_json a_token
          ∷ sent frame_json keeping keeping a_token an_id [] [] copied two_files-Transferable)
        refl)
      (short-Fits (hello_ack_frame frame_json ∷ confirmations frame_json) refl)

pull_snapshot-handle_incoming_example :
    PullEnds frame_json a_link keeping keeping a_token an_id [] [] copied two_files-Transferable
unfolding send_objects send_chunk_objects show_texts show_text two_files-Transferable
pull_snapshot-handle_incoming_example =
    pull_snapshot-handle_incoming frame_json a_link keeping keeping a_token an_id [] [] copied
      two_files-Transferable
      (short-Fits
        (hello_ack_frame frame_json
          ∷ sent frame_json keeping keeping a_token an_id [] [] copied two_files-Transferable)
        refl)
      (short-Fits
        (hello_frame frame_json a_token
          ∷ pull_request_frame frame_json keeping keeping a_token an_id [] [] copied
              two_files-Transferable
          ∷ confirmations frame_json)
        refl)
