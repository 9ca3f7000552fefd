-- ===== src/Backends/Btrfs/Store/Changes.antt =====
-- What one run of the btrfs program does to the file systems and snapshots of a pool.
use targetd.Prelude.{
  ◌≡◌, refl, ap, ◌∙◌, arith, ◌⊎◌, inl, inr, ℕ, true, false, not, ◌&&◌, ◌||◌, Bool-cases, Text,
  codes, text_eq, List, [], ◌∷◌,
}
use targetd.Utils.Errors.{ok, err, targetd_error, unexpected_exit_code}
use targetd.Utils.Invoke.{invoke, succeeded}
use targetd.Backends.Btrfs.Paths.{fs_of, snapshot_path}
use targetd.Backends.Btrfs.Commands.{Host, fs_subvolume_delete}
use targetd.Backends.Btrfs.FileSystems.{subvolume}
use targetd.Backends.Btrfs.Store.{
  Same, after, creates, takes_snapshot, deletes_snapshot, store, runs,
}
use targetd.Backends.Btrfs.Store.Names.{
  IsPlain, IsNormal, is_below, fs_of-IsNormal, snapshot_path-IsNormal,
}
use targetd.Backends.Btrfs.Store.Apart.{
  fs_eq_fs, fs_below_fs, fs_eq_snapshot, fs_below_snapshot, snapshot_eq_fs, snapshot_below_fs,
  snapshot_eq_snapshot, snapshot_below_snapshot,
}

module _ {W : Type 0} (h : Host W) where
  abbrev pub Keeps : W → W → Type 0
  Keeps w w' = (q : Text) → h.path_exists q w' ≡ h.path_exists q w

  abbrev pub Adds : Text → W → W → Type 0
  Adds p w w' =
      (q : Text)
      → IsNormal q
      → is_below p q ≡ false
      → h.path_exists q w' ≡ (text_eq p q || h.path_exists q w)

  abbrev pub Drops : Text → W → W → Type 0
  Drops p w w' =
      (q : Text)
      → IsNormal q
      → is_below p q ≡ false
      → h.path_exists q w' ≡ (not (text_eq p q) && h.path_exists q w)

  -- A run ends well, or raises.
  pub subvolume-cases :
      (args : List Text) (w : W)
      → ((succeeded (runs h args w).0 ≡ true) × (subvolume h args w ≡ (ok tt, (runs h args w).1)))
        ⊎ ((succeeded (runs h args w).0 ≡ false)
            × (subvolume h args w ≡ (err (targetd_error unexpected_exit_code), (runs h args w).1)))
  unfolding subvolume invoke
  subvolume-cases args w = elim (Bool-cases (succeeded (runs h args w).0)) [
    | inl good ↦ inl (good, ground (arith, good))
    | inr bad ↦ inr (bad, ground (arith, bad))
  ]

  pub delete_runs :
      (p : Text) (w : W) → fs_subvolume_delete h p w ≡ subvolume h (codes "delete" ∷ p ∷ []) w
  unfolding fs_subvolume_delete subvolume
  delete_runs p w = refl

  module _ (pool : Text) (normal : IsNormal pool) (w w' : W) where
    pub Keeps-Same : Keeps w w' → Same (store h pool w') (store h pool w)
    Keeps-Same k = (λ n _. k (fs_of pool n), λ n m _ _. k (snapshot_path pool n m))

    pub Adds-system :
        (name : Text) (size : ℕ)
        → IsPlain name
        → Adds (fs_of pool name) w w'
        → Same (store h pool w') (after (creates name size) (store h pool w))
    Adds-system name size plain adds = (
      λ n k.
          adds (fs_of pool n) (fs_of-IsNormal pool normal n k)
            (fs_below_fs pool normal name plain n k)
          ∙ ap (λ b. b || h.path_exists (fs_of pool n) w) (fs_eq_fs pool normal name plain n k),
      λ n m k l.
          adds (snapshot_path pool n m) (snapshot_path-IsNormal pool normal n m k l)
            (fs_below_snapshot pool normal name plain n m k l)
          ∙ ap (λ b. b || h.path_exists (snapshot_path pool n m) w)
              (fs_eq_snapshot pool normal name plain n m k l),
    )

    pub Adds-snapshot :
        (name ss : Text)
        → IsPlain name
        → IsPlain ss
        → Adds (snapshot_path pool name ss) w w'
        → Same (store h pool w') (after (takes_snapshot name ss) (store h pool w))
    Adds-snapshot name ss plain plain' adds = (
      λ n k.
          adds (fs_of pool n) (fs_of-IsNormal pool normal n k)
            (snapshot_below_fs pool normal name plain ss plain' n k)
          ∙ ap (λ b. b || h.path_exists (fs_of pool n) w)
              (snapshot_eq_fs pool normal name plain ss plain' n k),
      λ n m k l.
          adds (snapshot_path pool n m) (snapshot_path-IsNormal pool normal n m k l)
            (snapshot_below_snapshot pool normal name plain ss plain' n m k l)
          ∙ ap (λ b. b || h.path_exists (snapshot_path pool n m) w)
              (snapshot_eq_snapshot pool normal name plain ss plain' n m k l),
    )

    pub Drops-snapshot :
        (name ss : Text)
        → IsPlain name
        → IsPlain ss
        → Drops (snapshot_path pool name ss) w w'
        → Same (store h pool w') (after (deletes_snapshot name ss) (store h pool w))
    Drops-snapshot name ss plain plain' drops = (
      λ n k.
          drops (fs_of pool n) (fs_of-IsNormal pool normal n k)
            (snapshot_below_fs pool normal name plain ss plain' n k)
          ∙ ap (λ b. not b && h.path_exists (fs_of pool n) w)
              (snapshot_eq_fs pool normal name plain ss plain' n k),
      λ n m k l.
          drops (snapshot_path pool n m) (snapshot_path-IsNormal pool normal n m k l)
            (snapshot_below_snapshot pool normal name plain ss plain' n m k l)
          ∙ ap (λ b. not b && h.path_exists (snapshot_path pool n m) w)
              (snapshot_eq_snapshot pool normal name plain ss plain' n m k l),
    )
