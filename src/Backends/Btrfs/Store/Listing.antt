-- ===== src/Backends/Btrfs/Store/Listing.antt =====
-- The listing of snapshots in targetd/backends/btrfs.py changes nothing.
use targetd.Prelude.{
  refl, ◌∙◌, inl, inr, ℕ, zero, suc, Bool, true, false, Bool-cases, Text, List, if◌then◌else◌,
}
use targetd.Utils.Errors.{Result, ok, err, targetd_error, unexpected_exit_code}
use targetd.Utils.Exec.{Exec, pure, raise, modify, ◌>>◌}
use targetd.Utils.Invoke.{Process, invoke}
use targetd.Backends.Interface.{Snapshot}
use targetd.Backends.Btrfs.Paths.{snapshots_dir, split_stdout}
use targetd.Backends.Btrfs.Snapshots.{snapshots_of}
use targetd.Backends.Btrfs.Commands.{Host, is_code, attempts, invoke_retries}
use targetd.Backends.Btrfs.FileSystems.{list_snapshots, ss}
use targetd.Backends.Btrfs.Store.{IsBtrfs}
use targetd.Backends.Btrfs.Store.Changes.{Keeps}

module _ {W : Type 0} (h : Host W) (laws : IsBtrfs h) where
  one_of :
      (b c : Bool) (m m' m'' : Exec W Process) (w w1 : W)
      → Keeps h w (m w1).1
      → Keeps h w (m' w1).1
      → Keeps h w (m'' w1).1
      → Keeps h w ((if b then m else if c then m' else m'') w1).1
  one_of true c m m' m'' w w1 l l' l'' = l
  one_of false true m m' m'' w w1 l l' l'' = l'
  one_of false false m m' m'' w w1 l l' l'' = l''

  attempts-Keeps : (n : ℕ) (dir : Text) (w : W) → Keeps h w (attempts h n (list_snapshots dir) w).1
  unfolding attempts invoke
  attempts-Keeps zero dir w = λ q. refl
  attempts-Keeps (suc n) dir w =
      let w1 = (h.run (list_snapshots dir) w).1 in
      let keeps : Keeps h w w1 = λ q. laws.listing_keeps dir q w in
      let p = (h.run (list_snapshots dir) w).0 in
      one_of (is_code 0 p.code) (is_code 19 p.code) (pure p)
        (modify (h.sleep 1) >> attempts h n (list_snapshots dir))
        (raise (targetd_error unexpected_exit_code)) w w1 keeps
        (λ q. attempts-Keeps n dir (h.sleep 1 w1) q ∙ (laws.sleep_keeps 1 q w1 ∙ keeps q)) keeps

  invoke_retries-Keeps :
      (dir : Text) (w : W) → Keeps h w (invoke_retries h (list_snapshots dir) w).1
  unfolding invoke_retries
  invoke_retries-Keeps dir w = attempts-Keeps 5 dir w

  read_listing :
      (w : W) (r : Result Process × W)
      → Keeps h w r.1
      → Keeps h w
          (elim r.0 as (λ _. Result (List Snapshot) × W) [
            | ok p ↦ (snapshots_of h.epoch (split_stdout p.out), r.1)
            | err e ↦ (err e, r.1)
          ]).1
  read_listing w (ok p, w1) keeps = keeps
  read_listing w (err e, w1) keeps = keeps

  pub ss-Keeps : (pool name : Text) (w : W) → Keeps h w (ss h pool name w).1
  unfolding ss
  ss-Keeps pool name w = elim (Bool-cases (h.path_exists (snapshots_dir pool name) w)) [
    | inl there ↦ rw there (read_listing w _ (invoke_retries-Keeps (snapshots_dir pool name) w))
    | inr gone ↦ rw gone (λ q. refl)
  ]
