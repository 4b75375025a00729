-- ===== src/Tests/Database.antt =====
-- A database and a serialisation of index.rs to run examples on.
use obsidian_backup_server.Prelude.{
  ℕ, zero, suc, ◌≡◌, ◌∙◌, refl, ap, Option, none, some, List, [], ◌∷◌, Bytes, if◌then◌else◌,
  Bool-cases, inl, inr, ok, err,
}
use obsidian_backup_server.Index.{ColumnFamily, same_key, RocksDb, Json}

abbrev Table : Type 0
Table = ColumnFamily → Bytes → Option Bytes

abbrev pub put : Table → ColumnFamily → Bytes → Option Bytes → Table
put db cf k v cf' k' = if same_key cf k cf' k' then v else db cf' k'

pub get-put :
    (db : Table) (cf : ColumnFamily) (k : Bytes) (v : Option Bytes) (cf' : ColumnFamily)
    (k' : Bytes)
    → ok (put db cf k v cf' k') ≡ (if same_key cf k cf' k' then ok v else ok (db cf' k'))
get-put db cf k v cf' k' = elim (Bool-cases (same_key cf k cf' k')) [
  | inl same ↦ rw same refl
  | inr other ↦ rw other refl
]

pub ok_inj : {a b : Table} → ok a ≡ ok b → a ≡ b
ok_inj {a} {b} h = ap (λ r. elim r [ ok x ↦ x | err e ↦ a ]) h

abbrev pub rocks : RocksDb
rocks = record {
  Db = Table;
  Healthy = λ db. Unit;
  get_cf = λ db cf k. ok (db cf k);
  put_cf = λ db cf k v. ok (put db cf k (some v));
  delete_cf = λ db cf k. ok (put db cf k none);
  flush_wal = λ db. ok db;
  get_total = λ db cf k healthy. (db cf k, refl);
  put_total = λ db cf k v healthy. (put db cf k (some v), refl, tt);
  delete_total = λ db cf k healthy. (put db cf k none, refl, tt);
  get-put = λ db db' cf k v cf' k' e. rw⁻¹ (ok_inj e) (get-put db cf k (some v) cf' k');
  get-delete = λ db db' cf k cf' k' e. rw⁻¹ (ok_inj e) (get-put db cf k none cf' k');
}

abbrev pub empty_table : Table
empty_table cf k = none

-- A text is its bytes, each one greater, and a 0.
unfoldable pub show_text : Bytes → Bytes → Bytes
show_text [] rest = 0 ∷ rest
show_text (b ∷ t) rest = suc b ∷ show_text t rest

unfoldable pub show_texts : List Bytes → Bytes
show_texts [] = []
show_texts (t ∷ ts) = show_text t (show_texts ts)

unfoldable pub before_first : ℕ → List Bytes → List Bytes
before_first b [] = []
before_first b (t ∷ ts) = (b ∷ t) ∷ ts

unfoldable pub read_texts : Bytes → List Bytes
read_texts [] = []
read_texts (zero ∷ s) = [] ∷ read_texts s
read_texts (suc b ∷ s) = before_first b (read_texts s)

read_texts-show_text : (t rest : Bytes) → read_texts (show_text t rest) ≡ t ∷ read_texts rest
unfolding read_texts show_text before_first
read_texts-show_text [] rest = refl
read_texts-show_text (b ∷ t) rest = ap (before_first b) (read_texts-show_text t rest)

pub read_texts-show_texts : (ts : List Bytes) → read_texts (show_texts ts) ≡ ts
unfolding read_texts show_texts
read_texts-show_texts [] = refl
read_texts-show_texts (t ∷ ts) =
    read_texts-show_text t (show_texts ts) ∙ ap (λ l. t ∷ l) (read_texts-show_texts ts)

pub first : Bytes → ℕ
first [] = 0
first (b ∷ bs) = b

bytes_inj : {a b : Bytes} → ok a ≡ ok b → a ≡ b
bytes_inj {a} {b} h = ap (λ r. elim r [ ok x ↦ x | err e ↦ a ]) h

pub read_back :
    (ts : List Bytes) (v : Bytes) → ok (show_texts ts) ≡ ok v → ok (read_texts v) ≡ ok ts
read_back ts v h = rw⁻¹ (bytes_inj h) (ap ok (read_texts-show_texts ts))

pub size_back :
    (size mtime count : ℕ) (v : Bytes)
    → ok (size ∷ mtime ∷ count ∷ []) ≡ ok v
    → ok (first v) ≡ ok size
unfolding first
size_back size mtime count v h = rw⁻¹ (bytes_inj h) refl

abbrev pub json : Json
json = record {
  texts_to_string = λ ts. ok (show_texts ts);
  texts_from_slice = λ v. ok (read_texts v);
  file_meta_to_string = λ size mtime count. ok (size ∷ mtime ∷ count ∷ []);
  chunk_meta_to_string = λ path offset size. ok (offset ∷ size ∷ path);
  size_of = λ v. ok (first v);
  texts_total = λ ts. (show_texts ts, refl);
  file_meta_total = λ size mtime count. (size ∷ mtime ∷ count ∷ [], refl);
  chunk_meta_total = λ path offset size. (offset ∷ size ∷ path, refl);
  texts_from_slice-texts_to_string = read_back;
  size_of-file_meta = size_back;
}
