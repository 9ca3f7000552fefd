-- ===== src/Tests/Fs.antt =====
-- The theorems on targetd/fs.py at a concrete machine.
use targetd.Prelude.{List, ◌⊎◌, All, arith, ℕ, suc, ◌≡◌, refl, codes, text_eq, none, [], ◌∷◌}
use targetd.Prelude.Dict.{insert, update}
use targetd.Prelude.Search.{First, here}
use targetd.Backends.Interface.{Snapshot}
use targetd.Utils.Errors.{not_found_ss, ok, err, targetd_error, not_found_fs}
use targetd.Backends.Interface.{FileSystem, FsBackend}
use targetd.Fs.Systems.{
  pool_module, find_fs, find_ss, fs, ss, fs_destroy, fs_snapshot, fs_snapshot_delete, fs_clone,
}
use targetd.Fs.Systems.Laws.{unknown_fs_refused, fs_snapshot_delete_outcome}

abbrev home : FileSystem
home = record {
  name = codes "home";
  uuid = codes "1";
  total_space = 9;
  free_space = 4;
  pool = codes "/tank";
  full_path = codes "/tank/home";
}

-- A back end with one file system and one snapshot; a deleted snapshot is counted.
abbrev backend : FsBackend ℕ
backend = record {
  has_fs_pool = λ pool. text_eq pool (codes "/tank");
  fs_create = λ pool name size n. (ok tt, n);
  fs_snapshot = λ pool name ss n. (ok tt, n);
  fs_snapshot_delete = λ pool name ss n. (ok tt, suc n);
  fs_destroy = λ pool name n. (ok tt, n);
  fs_pools = λ n. (ok [], n);
  fs_hash = λ n. (ok ((codes "1", home) ∷ []), n);
  ss = λ pool name n. (ok (record { name = codes "s"; uuid = codes "2"; timestamp = 0 } ∷ []), n);
  fs_clone = λ pool name new snap n. (ok tt, n);
}

fs_listed : fs (backend ∷ []) 0 ≡ (ok (home ∷ []), 0)
unfolding fs update insert
fs_listed = refl

fs_unknown :
    (ss (backend ∷ []) (codes "7") 0 ≡ (err (targetd_error not_found_fs), 0))
    × (fs_destroy (backend ∷ []) (codes "7") 0 ≡ (err (targetd_error not_found_fs), 0))
    × (fs_snapshot (backend ∷ []) (codes "7") (codes "n") 0 ≡ (err (targetd_error not_found_fs), 0))
    × (fs_snapshot_delete (backend ∷ []) (codes "7") (codes "2") 0
        ≡ (err (targetd_error not_found_fs), 0))
    × (fs_clone (backend ∷ []) (codes "7") (codes "n") none 0
        ≡ (err (targetd_error not_found_fs), 0))
unfolding find_fs text_eq
fs_unknown =
    unknown_fs_refused (backend ∷ []) (codes "7") (home ∷ []) 0 0 fs_listed (codes "n") (codes "2")
      none ((λ e. ground (arith, e)), tt)

abbrev snapshots : List Snapshot
snapshots = record { name = codes "s"; uuid = codes "2"; timestamp = 0 } ∷ []

abbrev home_found : First (λ f. f.uuid ≡ codes "1") (home ∷ [])
home_found = here home [] refl

snapshot_deleted :
    (All (λ s. s.uuid ≡ codes "2" → ⊥) snapshots
      × (fs_snapshot_delete (backend ∷ []) (codes "1") (codes "2") 0
          ≡ (err (targetd_error not_found_ss), 0)))
    ⊎ ((s : First (λ s. s.uuid ≡ codes "2") snapshots) × (fs_snapshot_delete
            (backend ∷ [])
            (codes "1")
            (codes "2")
            0
          ≡ backend.fs_snapshot_delete (codes "/tank") (codes "home") s.found.name 0))
unfolding pool_module text_eq
snapshot_deleted =
    fs_snapshot_delete_outcome (backend ∷ []) (codes "1") (home ∷ []) 0 0 fs_listed (codes "2")
      home_found backend snapshots 0 refl refl

snapshot_gone : fs_snapshot_delete (backend ∷ []) (codes "1") (codes "2") 0 ≡ (ok tt, 1)
unfolding fs_snapshot_delete find_fs find_ss pool_module text_eq update insert
snapshot_gone = refl
