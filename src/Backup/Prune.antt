-- ===== src/Backup/Prune.antt =====
-- `prune_snapshots` of backup/mod.rs. Deleting one snapshot is the parameter `delete`, which changes
-- the state also when it fails; whether a snapshot has a `.pin` file is the parameter `pinned`.
use mathlib.Core.List.{Perm}
use obsidian_backup_server.Prelude.{
  ℕ, zero, suc, ◌+◌, ◌-◌, ◌≡◌, ◌∙◌, refl, sym, ap, Bool, false, inl, inr, List, [], ◌∷◌, Bytes,
  drop, ltb, ltb→lt, ltb-eq-false, if◌then◌else◌, if_true, if_false, Bool-cases, Result, ok, err,
  arith,
}
use obsidian_backup_server.Backup.Newest.{
  SnapshotInfo, newest_first, NewestFirst, newest_first-NewestFirst, newest_first-Perm,
}

drop-nil : (n : ℕ) → drop {A = Bytes} n [] ≡ []
drop-nil zero = refl
drop-nil (suc n) = refl

module _ {S : Type 0} (pinned : S → Bytes → Bool) (delete : Bytes → S → Result (Unit {0}) × S) where
  abbrev pub count_removed : ℕ → Result (Unit {0}) × S → ℕ × S
  count_removed removed (ok _, s) = (removed + 1, s)
  count_removed removed (err e, s) = (removed, s)

  -- the loop, with the numbers of removed and of kept snapshots
  unfoldable pub prune_loop : ℕ → List SnapshotInfo → ℕ → ℕ × S → ℕ × S
  prune_loop keep [] kept (removed, s) = (removed, s)
  prune_loop keep (snap ∷ snaps) kept (removed, s) =
      let skip = prune_loop keep snaps kept (removed, s) in
      let keep_it = prune_loop keep snaps (kept + 1) (removed, s) in
      let remove_it =
        prune_loop keep snaps kept (count_removed removed (delete snap.snapshot_id s)) in
      if pinned s snap.snapshot_id then skip else if ltb kept keep then keep_it else remove_it

  -- the removals of `prune_snapshots`
  unfoldable pub prune_snapshots : ℕ → List SnapshotInfo → S → ℕ × S
  prune_snapshots keep snaps s = prune_loop keep (newest_first snaps) 0 (0, s)

  -- the ids of the snapshots without a pin
  abbrev pub unpinned : S → List SnapshotInfo → List Bytes
  unpinned s [] = []
  unpinned s (snap ∷ snaps) =
      let rest = unpinned s snaps in
      if pinned s snap.snapshot_id then rest else snap.snapshot_id ∷ rest

  -- deletions one after the other, of which those that succeed are counted
  abbrev pub delete_all : List Bytes → ℕ × S → ℕ × S
  delete_all [] x = x
  delete_all (id ∷ ids) x = delete_all ids (count_removed x.0 (delete id x.1))

  count_removed_state : (n : ℕ) (d : Result (Unit {0}) × S) → (count_removed n d).1 ≡ d.1
  count_removed_state n (ok _, s) = refl
  count_removed_state n (err e, s) = refl

  unpinned_same :
      (s s' : S) (snaps : List SnapshotInfo)
      → ((id : Bytes) → pinned s' id ≡ pinned s id)
      → unpinned s' snaps ≡ unpinned s snaps
  unpinned_same s s' [] same = refl
  unpinned_same s s' (snap ∷ snaps) same =
      rw (same snap.snapshot_id, unpinned_same s s' snaps same) refl

  module _
      (stays : (s : S) (id j : Bytes)
        → pinned s id ≡ false
        → pinned (delete id s).1 j ≡ pinned s j) where
    prune_loop-delete_all :
        (keep : ℕ) (snaps : List SnapshotInfo) (kept : ℕ) (x : ℕ × S)
        → prune_loop keep snaps kept x ≡ delete_all (drop (keep - kept) (unpinned x.1 snaps)) x
    unfolding prune_loop
    prune_loop-delete_all keep [] kept (removed, s) =
        ap (λ l. delete_all l (removed, s)) (sym (drop-nil (keep - kept)))
    prune_loop-delete_all keep (snap ∷ snaps) kept (removed, s) =
        let id = snap.snapshot_id in
        elim (Bool-cases (pinned s id)) [
          | inl p ↦
              if_true _ _ p
              ∙ (prune_loop-delete_all keep snaps kept (removed, s)
                  ∙ ap (λ l. delete_all (drop (keep - kept) l) (removed, s)) (sym (if_true _ _ p)))
          | inr n ↦ elim (Bool-cases (ltb kept keep)) [
            | inl low ↦
                let room : keep - kept ≡ suc (keep - (kept + 1)) =
                  omega (arith, ltb→lt kept keep low) in
                if_false _ _ n
                ∙ (if_true _ _ low
                    ∙ (prune_loop-delete_all keep snaps (kept + 1) (removed, s)
                        ∙ sym (
                            ap (λ l. delete_all (drop (keep - kept) l) (removed, s))
                              (if_false _ _ n)
                            ∙ ap (λ k. delete_all (drop k (id ∷ unpinned s snaps)) (removed, s))
                                room)))
            | inr full ↦
                let none_left : keep - kept ≡ 0 = omega (arith, ltb-eq-false kept keep full) in
                let next : ℕ × S = count_removed removed (delete id s) in
                let same : unpinned next.1 snaps ≡ unpinned s snaps =
                  ap (λ t. unpinned t snaps) (count_removed_state removed (delete id s))
                  ∙ unpinned_same s (delete id s).1 snaps (λ j. stays s id j n) in
                if_false _ _ n
                ∙ (if_false _ _ full
                    ∙ (prune_loop-delete_all keep snaps kept next
                        ∙ (ap (λ k. delete_all (drop k (unpinned next.1 snaps)) next) none_left
                            ∙ (ap (λ l. delete_all l next) same
                                ∙ sym (
                                    ap (λ l. delete_all (drop (keep - kept) l) (removed, s))
                                      (if_false _ _ n)
                                    ∙ ap
                                        (λ k.
                                          delete_all (drop k (id ∷ unpinned s snaps)) (removed, s))
                                        none_left)))))
          ]
        ]

    -- Pruning orders the snapshots so that none is older than one behind it. In this order it deletes
    -- exactly the snapshots without a pin that come after the first `keep` of these: no pinned one, and
    -- none of those to keep. It goes on after a deletion that fails, and counts those that succeed.
    -- Deleting a snapshot without a pin changes no pin.
    pub prune_snapshots-delete_all :
        (keep : ℕ) (snaps : List SnapshotInfo) (s : S)
        → (sorted : List SnapshotInfo) × Perm sorted snaps
          × NewestFirst sorted
          × (prune_snapshots keep snaps s ≡ delete_all (drop keep (unpinned s sorted)) (0, s))
    unfolding prune_snapshots
    prune_snapshots-delete_all keep snaps s =
        let all : keep - 0 ≡ keep = omega arith in
        (
          newest_first snaps,
          newest_first-Perm snaps,
          newest_first-NewestFirst snaps,
          prune_loop-delete_all keep (newest_first snaps) 0 (0, s)
              ∙ ap (λ k. delete_all (drop k (unpinned s (newest_first snaps))) (0, s)) all,
        )
