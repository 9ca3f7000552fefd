-- ===== src/Backends/Btrfs/Store/Snapshots.antt =====
-- `fs_snapshot` of targetd/backends/btrfs.py on the store.
use targetd.Prelude.{
  ◌≡◌, refl, ap, sym, subst, ◌∙◌, arith, ◌⊎◌, inl, inr, true, false, ◌&&◌, ◌||◌, Bool-cases, Text,
  codes, text_eq, [], ◌∷◌,
}
use targetd.Utils.Errors.{Result, ok, err, targetd_error, unexpected_exit_code, exists_fs_name}
use targetd.Utils.Exec.{Exec, gets, raise_if, ◌>>◌, ◌>>=◌, >>=-ok, >>=-err}
use targetd.Utils.Invoke.{succeeded}
use targetd.Backends.Btrfs.Paths.{fs_of, snapshots_dir, snapshot_path}
use targetd.Backends.Btrfs.Commands.{Host, create_sub_volume}
use targetd.Backends.Btrfs.FileSystems.{subvolume, fs_snapshot}
use targetd.Backends.Btrfs.Store.{
  Store, Same, takes_snapshot, store, runs, IsBtrfs, Outcome, snapshot_args,
}
use targetd.Backends.Btrfs.Store.Names.{
  IsPlain, IsNormal, fs_of-IsNormal, snapshots_dir-IsNormal, snapshot_path-IsNormal,
  snapshot_path-entry,
}
use targetd.Backends.Btrfs.Store.Apart.{dir_eq_snapshot, dir_eq_fs}
use targetd.Backends.Btrfs.Store.Changes.{subvolume-cases, Keeps-Same, Adds-snapshot}

module _ {W : Type 0} (h : Host W) (laws : IsBtrfs h) (pool : Text) (normal : IsNormal pool) where
  -- Without the directory of a file system's snapshots there are none.
  pub no_dir :
      (name ss : Text) (w : W)
      → IsPlain name
      → IsPlain ss
      → h.path_exists (snapshots_dir pool name) w ≡ false
      → h.path_exists (snapshot_path pool name ss) w ≡ false
  no_dir name ss w plain plain' none =
      elim (Bool-cases (h.path_exists (snapshot_path pool name ss) w)) [
        | inr gone ↦ gone
        | inl there ↦ absurd (
            ground (
              arith,
              none,
              laws.parents (snapshots_dir pool name) ss w
                  (snapshots_dir-IsNormal pool normal name plain) plain'
                  (subst (λ p. h.path_exists p w ≡ true)
                    (snapshot_path-entry pool normal name ss plain plain') there),
            ))
      ]

  -- The part behind the directory.
  abbrev take : Text → Text → Exec W (Unit {0})
  take name ss = gets (h.path_exists (snapshot_path pool name ss)) >>= λ found.
      raise_if found (targetd_error exists_fs_name)
      >> subvolume h (snapshot_args true (fs_of pool name) (snapshot_path pool name ss))

  take_refused :
      (name ss : Text) (w : W)
      → h.path_exists (snapshot_path pool name ss) w ≡ true
      → take name ss w ≡ (err (targetd_error exists_fs_name), w)
  take_refused name ss w found = ground (arith, found)

  take_runs :
      (name ss : Text) (w : W)
      → h.path_exists (snapshot_path pool name ss) w ≡ false
      → take name ss w
        ≡ subvolume h (snapshot_args true (fs_of pool name) (snapshot_path pool name ss)) w
  take_runs name ss w free =
      ap
        (λ b.
          (raise_if b (targetd_error exists_fs_name)
              >> subvolume h (snapshot_args true (fs_of pool name) (snapshot_path pool name ss)))
            w)
        free

  take-Outcome :
      (name ss : Text) (w : W)
      → IsPlain name
      → IsPlain ss
      → Outcome
          (takes_snapshot name ss)
          (store h pool w)
          (take name ss w).0
          (store h pool (take name ss w).1)
  take-Outcome name ss w plain plain' =
      elim (Bool-cases (h.path_exists (snapshot_path pool name ss) w)) [
        | inl found ↦
            rw (take_refused name ss w found)
              ((Keeps-Same h pool normal w w (λ _. refl), ground (arith, found)))
        | inr free ↦
            rw (take_runs name ss w free)
              (elim (subvolume-cases h
                (snapshot_args true (fs_of pool name) (snapshot_path pool name ss)) w) [
                  | inl (good, e) ↦ rw e (
                      (
                        ground (arith, free),
                        Adds-snapshot h pool normal w _ name ss plain plain' (λ q n b.
                            laws.snapshotted true (fs_of pool name) (snapshot_path pool name ss) q w
                              (snapshot_path-IsNormal pool normal name ss plain plain') n free b
                              good),
                      ))
                  | inr (bad, e) ↦ rw e (
                      (
                        Keeps-Same h pool normal w _ (λ q.
                            laws.snapshot_failed true (fs_of pool name) (snapshot_path pool name ss)
                              q w bad),
                        ground (arith, free),
                      ))
                ])
      ]

  -- The directory is not seen in the store.
  dir_cases :
      (name : Text) (w : W)
      → IsPlain name
      → (w1 : W) × Same (store h pool w1) (store h pool w)
        × ((create_sub_volume h (snapshots_dir pool name) w ≡ (ok tt, w1))
            ⊎ ((create_sub_volume h (snapshots_dir pool name) w
                  ≡ (err (targetd_error unexpected_exit_code), w1))
                × (h.path_exists (snapshots_dir pool name) w ≡ false)))
  unfolding create_sub_volume subvolume
  dir_cases name w plain = elim (Bool-cases (h.path_exists (snapshots_dir pool name) w)) [
    | inl there ↦ (w, Keeps-Same h pool normal w w (λ _. refl), inl (ground (arith, there)))
    | inr free ↦ elim (subvolume-cases h (codes "create" ∷ snapshots_dir pool name ∷ []) w) [
      | inl (good, e) ↦ (_, new_dir free good, inl (rw free e))
      | inr (bad, e) ↦ (
        _,
        Keeps-Same h pool normal w _ (λ q. laws.create_failed (snapshots_dir pool name) q w bad),
        inr (rw free e, free),
      )
    ]
  ]
    where
      new_dir :
          h.path_exists (snapshots_dir pool name) w ≡ false
          → succeeded (runs h (codes "create" ∷ snapshots_dir pool name ∷ []) w).0 ≡ true
          → Same
              (store h pool (runs h (codes "create" ∷ snapshots_dir pool name ∷ []) w).1)
              (store h pool w)
      new_dir free good = (
        λ n k.
            laws.created (snapshots_dir pool name) (fs_of pool n) w
              (snapshots_dir-IsNormal pool normal name plain) (fs_of-IsNormal pool normal n k) free
              good
            ∙ ap (λ b. b || h.path_exists (fs_of pool n) w) (dir_eq_fs pool normal name plain n k),
        λ n m k l.
            laws.created (snapshots_dir pool name) (snapshot_path pool n m) w
              (snapshots_dir-IsNormal pool normal name plain)
              (snapshot_path-IsNormal pool normal n m k l) free good
            ∙ ap (λ b. b || h.path_exists (snapshot_path pool n m) w)
                (dir_eq_snapshot pool normal name plain n m k l),
      )

  -- The outcome for a store is that for one which looks the same.
  transport-Outcome :
      (name ss : Text) (s s' t : Store) (r : Result (Unit {0}))
      → IsPlain name
      → IsPlain ss
      → Same s' s
      → Outcome (takes_snapshot name ss) s' r t
      → Outcome (takes_snapshot name ss) s r t
  transport-Outcome name ss s s' t (ok _) plain plain' same (may, done) = (
    rw (sym (same.1 name ss plain plain')) may,
    (
      λ n k. done.0 n k ∙ same.0 n k,
      λ n m k l. done.1 n m k l ∙ ap (λ b. text_eq name n && text_eq ss m || b) (same.1 n m k l),
    ),
  )
  transport-Outcome name ss s s' t (err e) plain plain' same (done, why) = (
    (λ n k. done.0 n k ∙ same.0 n k, λ n m k l. done.1 n m k l ∙ same.1 n m k l),
    rw (sym (same.1 name ss plain plain')) why,
  )

  snapshot_takes :
      (name ss : Text) (w w1 : W)
      → create_sub_volume h (snapshots_dir pool name) w ≡ (ok tt, w1)
      → fs_snapshot h pool name ss w ≡ take name ss w1
  unfolding fs_snapshot
  snapshot_takes name ss w w1 e =
      >>=-ok (create_sub_volume h (snapshots_dir pool name)) (λ _. take name ss) e

  snapshot_stops :
      (name ss : Text) (w w1 : W)
      → create_sub_volume h (snapshots_dir pool name) w
        ≡ (err (targetd_error unexpected_exit_code), w1)
      → fs_snapshot h pool name ss w ≡ (err (targetd_error unexpected_exit_code), w1)
  unfolding fs_snapshot
  snapshot_stops name ss w w1 e =
      >>=-err (create_sub_volume h (snapshots_dir pool name)) (λ _. take name ss) e

  pub snapshot-Outcome :
      (name ss : Text) (w : W)
      → IsPlain name
      → IsPlain ss
      → Outcome
          (takes_snapshot name ss)
          (store h pool w)
          (fs_snapshot h pool name ss w).0
          (store h pool (fs_snapshot h pool name ss w).1)
  snapshot-Outcome name ss w plain plain' =
      let (w1, same, ending) = dir_cases name w plain in
      elim ending [
        | inl e ↦ rw (snapshot_takes name ss w w1 e) (
            transport-Outcome name ss _ _ _ (take name ss w1).0 plain plain' same
              (take-Outcome name ss w1 plain plain'))
        | inr (e, free) ↦
            rw (snapshot_stops name ss w w1 e)
              ((same, rw (no_dir name ss w plain plain' free) refl))
      ]
