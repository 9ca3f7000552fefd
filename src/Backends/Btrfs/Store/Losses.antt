-- ===== src/Backends/Btrfs/Store/Losses.antt =====
-- What the deletions of targetd/backends/btrfs.py lose.
use targetd.Prelude.{
  ◌≡◌, refl, ap, sym, subst, ◌∙◌, arith, ◌⊎◌, inl, inr, true, false, not, ◌&&◌, Bool-cases, Text,
  codes, text_eq, text_eq_refl, eq_of_text_eq, List, [], ◌∷◌, All,
}
use targetd.Utils.Errors.{ok, err, targetd_error, unexpected_exit_code}
use targetd.Utils.Exec.{Exec, >>=-ok, >>=-err}
use targetd.Backends.Interface.{Snapshot}
use targetd.Backends.Btrfs.Paths.{fs_of, snapshots_dir, snapshot_path}
use targetd.Backends.Btrfs.Commands.{Host, fs_subvolume_delete}
use targetd.Backends.Btrfs.FileSystems.{delete_all}
use targetd.Backends.Btrfs.Store.{LosesSnapshots, store, IsBtrfs}
use targetd.Backends.Btrfs.Store.Names.{
  IsPlain, IsNormal, fs_of-IsNormal, snapshots_dir-IsNormal, snapshot_path-IsNormal,
}
use targetd.Backends.Btrfs.Store.Apart.{
  below_self, dir_eq_snapshot, dir_eq_fs, dir_below_fs, dir_below_snapshot,
}
use targetd.Backends.Btrfs.Store.Changes.{
  Keeps, Drops, subvolume-cases, delete_runs, Drops-snapshot,
}
use targetd.Backends.Btrfs.Store.Snapshots.{no_dir}

module _ {W : Type 0} (h : Host W) (laws : IsBtrfs h) (pool : Text) (normal : IsNormal pool)
    (name : Text) (plain : IsPlain name) where
  abbrev pub Loses : W → W → Type 0
  Loses w w' = LosesSnapshots name (store h pool w) (store h pool w')

  pub Loses-Keeps : (w w' : W) → Keeps h w w' → Loses w w'
  Loses-Keeps w w' k = (
    λ n _. k (fs_of pool n),
    λ n m _ _. (λ _. k (snapshot_path pool n m), λ e. sym (k (snapshot_path pool n m)) ∙ e),
  )

  pub Loses-trans : (w w1 w2 : W) → Loses w w1 → Loses w1 w2 → Loses w w2
  Loses-trans w w1 w2 (a, b) (c, d) = (
    λ n k. c n k ∙ a n k,
    λ n m k l. (λ o. (d n m k l).0 o ∙ (b n m k l).0 o, λ e. (b n m k l).1 ((d n m k l).1 e)),
  )

  -- One snapshot of the name is deleted.
  Loses-Drops :
      (ss_name : Text) (w w' : W)
      → IsPlain ss_name
      → Drops h (snapshot_path pool name ss_name) w w'
      → Loses w w'
  Loses-Drops ss_name w w' p drops =
      let same = Drops-snapshot h pool normal w w' name ss_name plain p drops in
      (
        same.0,
        λ n m k l. (
          λ o.
              same.1 n m k l
              ∙ ap (λ b. not (b && text_eq ss_name m) && h.path_exists (snapshot_path pool n m) w)
                  o,
          λ e. ground (arith, same.1 n m k l, e),
        ),
      )

  -- A deletion ends well and drops the path, or raises and changes nothing.
  pub delete_cases :
      (p : Text) (w : W)
      → IsNormal p
      → (w1 : W) × ((Drops h p w w1 × (fs_subvolume_delete h p w ≡ (ok tt, w1)))
          ⊎ (Keeps h w w1
              × (fs_subvolume_delete h p w ≡ (err (targetd_error unexpected_exit_code), w1))))
  delete_cases p w k = elim (subvolume-cases h (codes "delete" ∷ p ∷ []) w) [
    | inl (good, e) ↦ (_, inl ((λ q n b. laws.deleted p q w k n b good), delete_runs h p w ∙ e))
    | inr (bad, e) ↦ (_, inr ((λ q. laws.delete_failed p q w bad), delete_runs h p w ∙ e))
  ]

  pub delete_all-Loses :
      (found : List Snapshot) (w : W)
      → All (λ s. IsPlain s.name) found
      → Loses w (delete_all h (snapshots_dir pool name) found w).1
  unfolding delete_all snapshot_path
  delete_all-Loses [] w p = Loses-Keeps w w (λ _. refl)
  delete_all-Loses (s ∷ found) w p =
      let path = snapshot_path pool name s.name in
      let rest : Exec W (Unit {0}) = delete_all h (snapshots_dir pool name) found in
      let (w1, ending) =
        delete_cases path w (snapshot_path-IsNormal pool normal name s.name plain p.0) in
      elim ending [
        | inl (drops, e) ↦
            subst (λ r. Loses w r.1) (sym (>>=-ok (fs_subvolume_delete h path) (λ _. rest) e))
              (Loses-trans w w1 _ (Loses-Drops s.name w w1 p.0 drops)
                (delete_all-Loses found w1 p.1))
        | inr (keeps, e) ↦
            subst (λ r. Loses w r.1) (sym (>>=-err (fs_subvolume_delete h path) (λ _. rest) e))
              (Loses-Keeps w w1 keeps)
      ]

  -- With the directory all snapshots of the name are gone.
  abbrev pub HasNone : W → Type 0
  HasNone w = (m : Text) → IsPlain m → h.path_exists (snapshot_path pool name m) w ≡ false

  pub dropped_dir : (w w' : W) → Drops h (snapshots_dir pool name) w w' → HasNone w'
  dropped_dir w w' drops m l = no_dir h laws pool normal name m w' plain l (
      drops (snapshots_dir pool name) (snapshots_dir-IsNormal pool normal name plain)
        (below_self (snapshots_dir pool name))
      ∙ ap (λ b. not b && h.path_exists (snapshots_dir pool name) w)
          (text_eq_refl (snapshots_dir pool name)))

  pub none_of_same :
      (w : W) (n m : Text)
      → HasNone w
      → IsPlain m
      → text_eq name n ≡ true
      → h.path_exists (snapshot_path pool n m) w ≡ false
  none_of_same w n m none l same =
      subst (λ x. h.path_exists (snapshot_path pool x m) w ≡ false) (eq_of_text_eq name n same)
        (none m l)

  pub dropped_dir-Loses : (w w' : W) → Drops h (snapshots_dir pool name) w w' → Loses w w'
  dropped_dir-Loses w w' drops = (
    λ n k.
        drops (fs_of pool n) (fs_of-IsNormal pool normal n k)
          (dir_below_fs pool normal name plain n k)
        ∙ ap (λ b. not b && h.path_exists (fs_of pool n) w) (dir_eq_fs pool normal name plain n k),
    λ n m k l. (
      keeps_others n m k l,
      λ e. elim (Bool-cases (text_eq name n)) [
        | inl same ↦ absurd (ground (arith, none_of_same w' n m (dropped_dir w w' drops) l same, e))
        | inr other ↦ sym (keeps_others n m k l other) ∙ e
      ],
    ),
  )
    where
      keeps_others :
          (n m : Text)
          → IsPlain n
          → IsPlain m
          → text_eq name n ≡ false
          → h.path_exists (snapshot_path pool n m) w' ≡ h.path_exists (snapshot_path pool n m) w
      keeps_others n m k l o =
          drops (snapshot_path pool n m) (snapshot_path-IsNormal pool normal n m k l)
            (dir_below_snapshot pool normal name plain n m k l ∙ o)
          ∙ ap (λ b. not b && h.path_exists (snapshot_path pool n m) w)
              (dir_eq_snapshot pool normal name plain n m k l)
