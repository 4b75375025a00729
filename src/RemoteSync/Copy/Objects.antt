-- ===== src/RemoteSync/Copy/Objects.antt =====
-- What the loop of `receive_snapshot` of remote_sync.rs does with what `send_objects` has sent.
use obsidian_backup_server.Prelude.{
  ◌≡◌, ◌∙◌, refl, sym, ap, List, [], ◌∷◌, ◌++◌, append_assoc, Bytes, length, ==_iff, if_true,
  Result, ok, err,
}
use obsidian_backup_server.RemoteSync.{Frame, FrameJson, SyncEngine, Incoming}
use obsidian_backup_server.RemoteSync.Sender.{
  Sending, and_send, send_read, send_listed, send_chunk_objects, send_objects,
}
use obsidian_backup_server.RemoteSync.Receiver.{and_receive, on_frame, receive_frames, Received}
use obsidian_backup_server.RemoteSync.Copy.{
  and_copy, copy_read, copy_listed, copy_objects, copy_files,
}

-- payloads that arrive
abbrev pub arrive : List Bytes → Incoming
arrive [] = []
arrive (x ∷ xs) = ok x ∷ arrive xs

pub arrive-append : (xs ys : List Bytes) → arrive (xs ++ ys) ≡ arrive xs ++ arrive ys
arrive-append [] ys = refl
arrive-append (x ∷ xs) ys = ap (λ (l : Incoming). ok x ∷ l) (arrive-append xs ys)

module _ {M : Type 0} (json : FrameJson M) (sender receiver : SyncEngine M) where
  and_receive-and_copy :
      (r : Result (Unit {0}) × receiver.S) (f : receiver.S → Result (Unit {0}) × receiver.S)
      (k : receiver.S → Received json receiver)
      → and_receive json receiver (and_copy r f) k
        ≡ and_receive json receiver r (λ b. and_receive json receiver (f b) k)
  and_receive-and_copy (ok _, b) f k = refl
  and_receive-and_copy (err e, b) f k = refl

  receive_file_chunks :
      (path : Bytes) (chunks : List Bytes) (rest : Incoming) (b : receiver.S)
      → receive_frames json receiver (ok (json.to_vec (Frame.file_chunks path chunks)) ∷ rest) b
        ≡ and_receive json receiver
            (receiver.store_file_chunks path chunks b)
            (receive_frames json receiver rest)
  unfolding receive_frames
  receive_file_chunks path chunks [] b =
      rw (json.from_slice-to_vec (Frame.file_chunks path chunks)) refl
  receive_file_chunks path chunks (r ∷ rest) b =
      rw (json.from_slice-to_vec (Frame.file_chunks path chunks)) refl

  receive_object :
      (hash content : Bytes) (rest : Incoming) (b : receiver.S)
      → receive_frames json receiver
          (ok (json.to_vec (Frame.object hash (length content))) ∷ ok content ∷ rest)
          b
        ≡ and_receive json receiver
            (receiver.store_object hash content b)
            (receive_frames json receiver rest)
  unfolding receive_frames
  receive_object hash content rest b =
      ap
        (λ f.
          on_frame json receiver f (ok content) (receive_frames json receiver (ok content ∷ rest))
            (receive_frames json receiver rest) (ok content ∷ rest) b)
        (json.from_slice-to_vec (Frame.object hash (length content)))
      ∙ if_true _ _ ((==_iff (length content) (length content)).1 refl)

  pub receive_push_end :
      (rest : Incoming) (b : receiver.S)
      → receive_frames json receiver (ok (json.to_vec Frame.push_end) ∷ rest) b ≡ (ok rest, b)
  unfolding receive_frames
  receive_push_end [] b = rw (json.from_slice-to_vec Frame.push_end) refl
  receive_push_end (r ∷ rest) b = rw (json.from_slice-to_vec Frame.push_end) refl

  -- A run of the sender that succeeds is a copy, whatever arrives after it.
  abbrev pub Copies : Sending → (receiver.S → Result (Unit {0}) × receiver.S) → Type 0
  Copies (r, sent) copy =
      r ≡ ok tt
      → (rest : Incoming) (b : receiver.S)
      → receive_frames json receiver (arrive sent ++ rest) b
        ≡ and_receive json receiver (copy b) (receive_frames json receiver rest)

  and_send-Copies :
      (first second : Sending) (f g : receiver.S → Result (Unit {0}) × receiver.S)
      → Copies first f
      → Copies second g
      → Copies (and_send first second) (λ b. and_copy (f b) g)
  and_send-Copies (err e, xs) (r, ys) f g p q h rest b = cc
  and_send-Copies (ok _, xs) (r, ys) f g p q h rest b =
      ap (λ l. receive_frames json receiver l b)
        (ap (λ l. l ++ rest) (arrive-append xs ys) ∙ append_assoc (arrive xs) (arrive ys) rest)
      ∙ p refl (arrive ys ++ rest) b
      ∙ ap (and_receive json receiver (f b)) (λ i b1. q h rest b1 i)
      ∙ sym (and_receive-and_copy (f b) g _)

  send_read-Copies :
      (hash : Bytes) (r : Result Bytes) (more : Sending)
      (next : receiver.S → Result (Unit {0}) × receiver.S)
      → Copies more next
      → Copies (send_read json sender hash r more) (copy_read sender receiver hash r next)
  send_read-Copies hash (err e) more next p h rest b = cc
  send_read-Copies hash (ok content) (r, ys) next p h rest b =
      receive_object hash content (arrive ys ++ rest) b
      ∙ ap (and_receive json receiver (receiver.store_object hash content b))
          (λ i b1. p h rest b1 i)
      ∙ sym (and_receive-and_copy (receiver.store_object hash content b) next _)

  send_chunk_objects-Copies :
      (hashes : List Bytes) (a : sender.S)
      → Copies (send_chunk_objects json sender hashes a) (copy_objects sender receiver hashes a)
  unfolding send_chunk_objects copy_objects
  send_chunk_objects-Copies [] a = λ h rest b. refl
  send_chunk_objects-Copies (hash ∷ hashes) a =
      send_read-Copies hash (sender.read_object_data hash a) _
        (copy_objects sender receiver hashes a) (send_chunk_objects-Copies hashes a)

  send_listed-Copies :
      (path : Bytes) (r : Result (List Bytes)) (a : sender.S) (more : Sending)
      (next : receiver.S → Result (Unit {0}) × receiver.S)
      → Copies more next
      → Copies
          (send_listed json sender path r (λ chunks. send_chunk_objects json sender chunks a) more)
          (copy_listed sender receiver path r
            (λ chunks. copy_objects sender receiver chunks a)
            next)
  send_listed-Copies path (err e) a more next p h rest b = cc
  send_listed-Copies path (ok chunks) a more next p h rest b =
      let both =
        and_send-Copies (send_chunk_objects json sender chunks a) more _ next
          (send_chunk_objects-Copies chunks a) p in
      receive_file_chunks path chunks _ b
      ∙ ap (and_receive json receiver (receiver.store_file_chunks path chunks b))
          (λ i b1. both h rest b1 i)
      ∙ sym (and_receive-and_copy (receiver.store_file_chunks path chunks b) _ _)

  pub send_objects-Copies :
      (files : List Bytes) (a : sender.S)
      → Copies (send_objects json sender files a) (copy_files sender receiver files a)
  unfolding send_objects copy_files
  send_objects-Copies [] a = λ h rest b. refl
  send_objects-Copies (path ∷ files) a =
      send_listed-Copies path (sender.file_chunks_of path a) a _
        (copy_files sender receiver files a) (send_objects-Copies files a)
