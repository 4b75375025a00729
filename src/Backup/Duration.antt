-- ===== src/Backup/Duration.antt =====
-- `parse_duration` and `rollback` of backup/mod.rs. The calls of chrono are parameters; an instant is its number of
-- seconds. A text is a list of characters.
use obsidian_backup_server.Prelude.{
  ℕ, ◌*◌, ◌%◌, ◌<◌, ◌≤◌, ◌≡◌, ◌∙◌, refl, sym, ap, Bool, true, false, ◌⊎◌, inl, inr, Option, none,
  some, List, [], ◌∷◌, ◌++◌, Bytes, All, ltb, ltb→lt, ltb-eq-false, if◌then◌else◌, Bool-cases,
  Result, ok, err, bad_duration, bad_number, no_snapshot_before, ◌>>=◌, >>=-ok, arith,
}
use obsidian_backup_server.Prelude.Decimal.{show, show_starts, parse_u64, parse_u64-show, is_digit}
use obsidian_backup_server.Prelude.Text.{strip_suffix}
use obsidian_backup_server.Prelude.Trim.{
  is_white, trim, White, trim-append, strip_suffix-append, strip_suffix-other,
}
use obsidian_backup_server.Prelude.Words.{u64_mod}
use obsidian_backup_server.Backup.Newest.{SnapshotInfo}

-- `s.parse::<u64>()? * factor`, which wraps in a release build
abbrev seconds_of : ℕ → Option ℕ → Result ℕ
seconds_of factor none = err bad_number
seconds_of factor (some n) = ok ((n * factor) % u64_mod)

-- a branch of `parse_duration`: the suffix is there, or what follows
abbrev or_suffix : ℕ → Option Bytes → Result ℕ → Result ℕ
or_suffix factor none rest = rest
or_suffix factor (some digits) rest = seconds_of factor (parse_u64 digits)

abbrev parse_trimmed : Bytes → Result ℕ
parse_trimmed s = or_suffix 1 (strip_suffix b's' s) (
    or_suffix 60 (strip_suffix b'm' s) (
      or_suffix 3600 (strip_suffix b'h' s)
        (or_suffix 86400 (strip_suffix b'd' s) (err bad_duration))))

unfoldable pub parse_duration : Bytes → Result ℕ
parse_duration text = parse_trimmed (trim text)

-- The units that `parse_duration` knows.
pub data TimeUnit : Type 0 where
  seconds minutes hours days : TimeUnit

abbrev pub letter : TimeUnit → ℕ
letter TimeUnit.seconds = b's'
letter TimeUnit.minutes = b'm'
letter TimeUnit.hours = b'h'
letter TimeUnit.days = b'd'

abbrev pub unit_seconds : TimeUnit → ℕ
unit_seconds TimeUnit.seconds = 1
unit_seconds TimeUnit.minutes = 60
unit_seconds TimeUnit.hours = 60 * 60
unit_seconds TimeUnit.days = 24 * (60 * 60)

digit_not_white : (c : ℕ) → is_digit c ≡ true → is_white c ≡ false
digit_not_white c h = ground arith

letter_not_white : (u : TimeUnit) → is_white (letter u) ≡ false
letter_not_white TimeUnit.seconds = refl
letter_not_white TimeUnit.minutes = refl
letter_not_white TimeUnit.hours = refl
letter_not_white TimeUnit.days = refl

parse_unit :
    (u : TimeUnit) (digits : Bytes)
    → parse_trimmed (digits ++ letter u ∷ []) ≡ seconds_of (unit_seconds u) (parse_u64 digits)
parse_unit TimeUnit.seconds digits = rw (strip_suffix-append b's' digits) refl
parse_unit TimeUnit.minutes digits =
    rw (strip_suffix-other b's' b'm' digits refl, strip_suffix-append b'm' digits) refl
parse_unit TimeUnit.hours digits =
    rw
      (
        strip_suffix-other b's' b'h' digits refl,
        strip_suffix-other b'm' b'h' digits refl,
        strip_suffix-append b'h' digits,
      )
      refl
parse_unit TimeUnit.days digits =
    rw
      (
        strip_suffix-other b's' b'd' digits refl,
        strip_suffix-other b'm' b'd' digits refl,
        strip_suffix-other b'h' b'd' digits refl,
        strip_suffix-append b'd' digits,
      )
      refl

-- A number that is printed before the letter of a unit, with white space around, is parsed to its seconds; the
-- product wraps at 64 bits.
pub parse_duration-show :
    (before after : Bytes) (n : ℕ) (u : TimeUnit)
    → White before
    → White after
    → n < u64_mod
    → parse_duration (before ++ (show n ++ letter u ∷ after)) ≡ ok ((n * unit_seconds u) % u64_mod)
unfolding parse_duration
parse_duration-show before after n u hb ha small =
    let (c, cs, starts, digit) = show_starts n in
    let trimmed : trim (before ++ (show n ++ letter u ∷ after)) ≡ show n ++ letter u ∷ [] =
      ap (λ l. trim (before ++ (l ++ letter u ∷ after))) starts
      ∙ trim-append before c cs (letter u) after hb ha (digit_not_white c digit)
          (letter_not_white u)
      ∙ ap (λ l. l ++ letter u ∷ []) (sym starts) in
    ap parse_trimmed trimmed
    ∙ parse_unit u (show n)
    ∙ ap (seconds_of (unit_seconds u)) (parse_u64-show n small)

-- `snaps.iter().rfind(p)`
abbrev last_of : Bool → SnapshotInfo → Option SnapshotInfo → Option SnapshotInfo
last_of here snap none = if here then some snap else none
last_of here snap (some later) = some later

abbrev rfind : (SnapshotInfo → Bool) → List SnapshotInfo → Option SnapshotInfo
rfind p [] = none
rfind p (snap ∷ snaps) = last_of (p snap) snap (rfind p snaps)

-- `?`, and the result is dropped
abbrev pub done {ℓ} : {A S : Type ℓ} → Result A × S → Result (Unit {0}) × S
done (ok a, s) = (ok tt, s)
done (err e, s) = (err e, s)

-- `parse_from_rfc3339`; `before_now` is `Utc::now() - Duration::seconds(seconds as i64)`
module _ {A S : Type 0} (parse_from_rfc3339 : Bytes → Option ℕ) (before_now : ℕ → Result ℕ)
    (restore : Bytes → S → Result A × S) where
  abbrev earlier : ℕ → Option ℕ → Bool
  earlier target none = false
  earlier target (some ts) = ltb ts target

  abbrev pub is_before : ℕ → SnapshotInfo → Bool
  is_before target snap = earlier target (parse_from_rfc3339 snap.timestamp)

  abbrev restore_found : Option SnapshotInfo → S → Result (Unit {0}) × S
  restore_found none s = (err no_snapshot_before, s)
  restore_found (some snap) s = done (restore snap.snapshot_id s)

  abbrev rollback_to : List SnapshotInfo → Result ℕ → S → Result (Unit {0}) × S
  rollback_to snaps (err e) s = (err e, s)
  rollback_to snaps (ok target) s = restore_found (rfind (is_before target) snaps) s

  -- `rollback` of the engine
  unfoldable pub rollback_by : Bytes → List SnapshotInfo → S → Result (Unit {0}) × S
  rollback_by duration snaps s = rollback_to snaps (parse_duration duration >>= before_now) s

  -- A timestamp that lies before the target, and one that does not or cannot be read.
  abbrev pub Before : ℕ → Option ℕ → Type 0
  Before target none = ⊥
  Before target (some ts) = ts < target

  abbrev pub NotBefore : ℕ → Option ℕ → Type 0
  NotBefore target none = Unit
  NotBefore target (some ts) = target ≤ ts

  -- no snapshot of the list has a timestamp before the target
  abbrev pub AllNotBefore : ℕ → List SnapshotInfo → Type 0
  AllNotBefore target snaps =
      All (λ (s : SnapshotInfo). NotBefore target (parse_from_rfc3339 s.timestamp)) snaps

  -- The last of the snapshots whose timestamp lies before the target.
  pub record IsLastBefore (target : ℕ) (snaps : List SnapshotInfo) (snap : SnapshotInfo)
      : Type 0 where
    pub older : List SnapshotInfo
    pub newer : List SnapshotInfo
    pub parts : snaps ≡ older ++ snap ∷ newer
    pub before : Before target (parse_from_rfc3339 snap.timestamp)
    pub not_before : AllNotBefore target newer

  earlier-Before : (target : ℕ) (o : Option ℕ) → earlier target o ≡ true → Before target o
  earlier-Before target none h = cc
  earlier-Before target (some ts) h = ltb→lt ts target h

  earlier-NotBefore : (target : ℕ) (o : Option ℕ) → earlier target o ≡ false → NotBefore target o
  earlier-NotBefore target none h = tt
  earlier-NotBefore target (some ts) h = ltb-eq-false ts target h

  abbrev Found : ℕ → List SnapshotInfo → Option SnapshotInfo → Type 0
  Found target snaps none = AllNotBefore target snaps
  Found target snaps (some snap) = IsLastBefore target snaps snap

  last_of-Found :
      (target : ℕ) (snap : SnapshotInfo) (snaps : List SnapshotInfo) (o : Option SnapshotInfo)
      → Found target snaps o
      → Found target (snap ∷ snaps) (last_of (is_before target snap) snap o)
  last_of-Found target snap snaps (some later) f = record {
    older = snap ∷ f.older;
    newer = f.newer;
    parts = ap (λ l. snap ∷ l) f.parts;
    before = f.before;
    not_before = f.not_before;
  }
  last_of-Found target snap snaps none f = elim (Bool-cases (is_before target snap)) [
    | inl t ↦ rw t (record {
      older = [];
      newer = snaps;
      parts = refl;
      before = earlier-Before target (parse_from_rfc3339 snap.timestamp) t;
      not_before = f;
    })
    | inr n ↦ rw n (earlier-NotBefore target (parse_from_rfc3339 snap.timestamp) n, f)
  ]

  rfind-Found :
      (target : ℕ) (snaps : List SnapshotInfo) → Found target snaps (rfind (is_before target) snaps)
  rfind-Found target [] = tt
  rfind-Found target (snap ∷ snaps) = last_of-Found target snap snaps _ (rfind-Found target snaps)

  chosen :
      (snaps : List SnapshotInfo) (s : S) (target : ℕ) (o : Option SnapshotInfo)
      → Found target snaps o
      → (r : Result (Unit {0}) × S) → r ≡ restore_found o s
      → ((snap : SnapshotInfo) × IsLastBefore target snaps snap
          × (r ≡ done (restore snap.snapshot_id s)))
        ⊎ (AllNotBefore target snaps × (r ≡ (err no_snapshot_before, s)))
  chosen snaps s target (some snap) f r e = inl (snap, f, e)
  chosen snaps s target none f r e = inr (f, e)

  -- A rollback by a duration that is parsed and that chrono can subtract calls `restore` once, with the id of the last
  -- snapshot of the list whose timestamp is read as an instant before the target, and returns its error if it has
  -- one. Where no snapshot has such a timestamp, it fails without a call and leaves the state as it was.
  pub rollback_by-IsLastBefore :
      (duration : Bytes) (snaps : List SnapshotInfo) (s : S) (ago target : ℕ)
      → parse_duration duration ≡ ok ago
      → before_now ago ≡ ok target
      → ((snap : SnapshotInfo) × IsLastBefore target snaps snap
          × (rollback_by duration snaps s ≡ done (restore snap.snapshot_id s)))
        ⊎ (AllNotBefore target snaps × (rollback_by duration snaps s ≡ (err no_snapshot_before, s)))
  unfolding rollback_by
  rollback_by-IsLastBefore duration snaps s ago target e f =
      let run : rollback_by duration snaps s ≡ restore_found (rfind (is_before target) snaps) s =
        ap (λ r. rollback_to snaps r s) (>>=-ok _ _ e f) in
      chosen snaps s target (rfind (is_before target) snaps) (rfind-Found target snaps)
        (rollback_by duration snaps s) run
