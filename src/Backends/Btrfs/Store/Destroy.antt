-- ===== src/Backends/Btrfs/Store/Destroy.antt =====
-- `fs_destroy` of targetd/backends/btrfs.py on the store.
use targetd.Prelude.{
  ◌≡◌, refl, ap, sym, subst, ◌∙◌, inl, inr, true, false, not, ◌&&◌, Bool-cases, Text, text_eq,
  if◌then◌else◌, List, All,
}
use targetd.Utils.Errors.{Result, ok, err}
use targetd.Utils.Exec.{Exec, gets, ◌>>◌, ◌>>=◌, >>=-ok, >>=-err, skip}
use targetd.Backends.Interface.{Snapshot}
use targetd.Backends.Btrfs.Paths.{fs_of, snapshots_dir, snapshot_path}
use targetd.Backends.Btrfs.Commands.{Host, fs_subvolume_delete}
use targetd.Backends.Btrfs.FileSystems.{ss, delete_all, fs_destroy}
use targetd.Backends.Btrfs.Store.{Same, after, destroys, store, IsBtrfs, HasPlainListing, Outcome}
use targetd.Backends.Btrfs.Store.Names.{
  IsPlain, IsNormal, fs_of-IsNormal, snapshots_dir-IsNormal, snapshot_path-IsNormal,
}
use targetd.Backends.Btrfs.Store.Apart.{fs_eq_fs, fs_below_fs, fs_eq_snapshot, fs_below_snapshot}
use targetd.Backends.Btrfs.Store.Changes.{Keeps, Drops}
use targetd.Backends.Btrfs.Store.Snapshots.{no_dir}
use targetd.Backends.Btrfs.Store.Listing.{ss-Keeps}
use targetd.Backends.Btrfs.Store.Losses.{
  Loses, HasNone, Loses-Keeps, Loses-trans, delete_cases, delete_all-Loses, dropped_dir,
  none_of_same, dropped_dir-Loses,
}

module _ {W : Type 0} (h : Host W) (laws : IsBtrfs h) (pool : Text) (normal : IsNormal pool)
    (name : Text) (plain : IsPlain name) where
  -- The outcome for a run with a known result.
  abbrev Ends : W → Result (Unit {0}) × W → Type 0
  Ends w r = Outcome (destroys name) (store h pool w) r.0 (store h pool r.1)

  dropped_system :
      (w w1 w2 : W)
      → Loses h laws pool normal name plain w w1
      → HasNone h laws pool normal name plain w1
      → Drops h (fs_of pool name) w1 w2
      → Same (store h pool w2) (after (destroys name) (store h pool w))
  dropped_system w w1 w2 loses none drops = (
    λ n k.
        drops (fs_of pool n) (fs_of-IsNormal pool normal n k)
          (fs_below_fs pool normal name plain n k)
        ∙ rw (fs_eq_fs pool normal name plain n k, loses.0 n k) refl,
    λ n m k l.
        drops (snapshot_path pool n m) (snapshot_path-IsNormal pool normal n m k l)
          (fs_below_snapshot pool normal name plain n m k l)
        ∙ ap (λ b. not b && h.path_exists (snapshot_path pool n m) w1)
            (fs_eq_snapshot pool normal name plain n m k l)
        ∙ elim (Bool-cases (text_eq name n)) [
          | inl same ↦ rw same (none_of_same h laws pool normal name plain w1 n m none l same)
          | inr other ↦ rw other ((loses.1 n m k l).0 other)
        ],
  )

  last-Ends :
      (w w1 : W)
      → Loses h laws pool normal name plain w w1
      → HasNone h laws pool normal name plain w1
      → Ends w (fs_subvolume_delete h (fs_of pool name) w1)
  last-Ends w w1 loses none =
      let (w2, ending) =
        delete_cases h laws pool normal name plain (fs_of pool name) w1
          (fs_of-IsNormal pool normal name plain) in
      elim ending [
        | inl (drops, e) ↦ subst (Ends w) (sym e) ((refl, dropped_system w w1 w2 loses none drops))
        | inr (keeps, e) ↦ subst (Ends w) (sym e) (
            Loses-trans h laws pool normal name plain w w1 w2 loses
              (Loses-Keeps h laws pool normal name plain w1 w2 keeps))
      ]

  -- The part of `fs_destroy` behind the snapshots.
  abbrev remove : Exec W (Unit {0})
  remove = gets (h.path_exists (snapshots_dir pool name)) >>= λ found.
      (if found then fs_subvolume_delete h (snapshots_dir pool name) else skip)
      >> fs_subvolume_delete h (fs_of pool name)

  remove-Ends : (w w1 : W) → Loses h laws pool normal name plain w w1 → Ends w (remove w1)
  remove-Ends w w1 loses = elim (Bool-cases (h.path_exists (snapshots_dir pool name) w1)) [
    | inl there ↦
        let (w2, ending) =
          delete_cases h laws pool normal name plain (snapshots_dir pool name) w1
            (snapshots_dir-IsNormal pool normal name plain) in
        subst (Ends w) (sym (dir_first w1 there)) (elim ending [
          | inl (drops, e) ↦
              subst (Ends w)
                (sym (
                  >>=-ok (fs_subvolume_delete h (snapshots_dir pool name))
                    (λ _. fs_subvolume_delete h (fs_of pool name)) e))
                (last-Ends w w2
                  (Loses-trans h laws pool normal name plain w w1 w2 loses
                    (dropped_dir-Loses h laws pool normal name plain w1 w2 drops))
                  (dropped_dir h laws pool normal name plain w1 w2 drops))
          | inr (keeps, e) ↦
              subst (Ends w)
                (sym (
                  >>=-err (fs_subvolume_delete h (snapshots_dir pool name))
                    (λ _. fs_subvolume_delete h (fs_of pool name)) e))
                (Loses-trans h laws pool normal name plain w w1 w2 loses
                  (Loses-Keeps h laws pool normal name plain w1 w2 keeps))
        ])
    | inr gone ↦
        subst (Ends w) (sym (no_dir_first w1 gone))
          (last-Ends w w1 loses (λ m l. no_dir h laws pool normal name m w1 plain l gone))
  ]
    where
      dir_first :
          (w1 : W)
          → h.path_exists (snapshots_dir pool name) w1 ≡ true
          → remove w1
            ≡ (fs_subvolume_delete h (snapshots_dir pool name)
                  >> fs_subvolume_delete h (fs_of pool name))
                w1
      dir_first w1 e =
          ap
            (λ b.
              ((if b then fs_subvolume_delete h (snapshots_dir pool name) else skip)
                  >> fs_subvolume_delete h (fs_of pool name))
                w1)
            e

      no_dir_first :
          (w1 : W)
          → h.path_exists (snapshots_dir pool name) w1 ≡ false
          → remove w1 ≡ fs_subvolume_delete h (fs_of pool name) w1
      no_dir_first w1 e =
          ap
            (λ b.
              ((if b then fs_subvolume_delete h (snapshots_dir pool name) else skip)
                  >> fs_subvolume_delete h (fs_of pool name))
                w1)
            e

  snapshots_end :
      (w w1 : W) (found : List Snapshot)
      → Keeps h w w1
      → All (λ s. IsPlain s.name) found
      → Ends w ((delete_all h (snapshots_dir pool name) found >> remove) w1)
  snapshots_end w w1 found keeps names =
      let r = delete_all h (snapshots_dir pool name) found w1 in
      let loses : Loses h laws pool normal name plain w r.1 =
        Loses-trans h laws pool normal name plain w w1 r.1
          (Loses-Keeps h laws pool normal name plain w w1 keeps)
          (delete_all-Loses h laws pool normal name plain found w1 names) in
      ends r.0 r.1 refl loses
    where
      ends :
          (a : Result (Unit {0})) (w2 : W)
          → delete_all h (snapshots_dir pool name) found w1 ≡ (a, w2)
          → Loses h laws pool normal name plain w w2
          → Ends w ((delete_all h (snapshots_dir pool name) found >> remove) w1)
      ends (ok _) w2 e loses =
          subst (Ends w)
            (sym (>>=-ok (delete_all h (snapshots_dir pool name) found) (λ _. remove) e))
            (remove-Ends w w2 loses)
      ends (err x) w2 e loses =
          subst (Ends w)
            (sym (>>=-err (delete_all h (snapshots_dir pool name) found) (λ _. remove) e)) loses

  pub destroy-Outcome :
      (w : W)
      → HasPlainListing h pool (destroys name) w
      → Outcome
          (destroys name)
          (store h pool w)
          (fs_destroy h pool name w).0
          (store h pool (fs_destroy h pool name w).1)
  unfolding fs_destroy
  destroy-Outcome w names =
      let r = ss h pool name w in ends r.0 r.1 refl (ss-Keeps h laws pool name w) names
    where
      ends :
          (a : Result (List Snapshot)) (w1 : W)
          → ss h pool name w ≡ (a, w1)
          → Keeps h w w1
          → ((found : List Snapshot) → a ≡ ok found → All (λ s. IsPlain s.name) found)
          → Ends w (
              (ss h pool name >>= λ found. delete_all h (snapshots_dir pool name) found >> remove)
                w)
      ends (ok found) w1 e keeps names =
          subst (Ends w)
            (sym (
              >>=-ok (ss h pool name)
                (λ found. delete_all h (snapshots_dir pool name) found >> remove) e))
            (snapshots_end w w1 found keeps (names found refl))
      ends (err x) w1 e keeps names =
          subst (Ends w)
            (sym (
              >>=-err (ss h pool name)
                (λ found. delete_all h (snapshots_dir pool name) found >> remove) e))
            (Loses-Keeps h laws pool normal name plain w w1 keeps)
