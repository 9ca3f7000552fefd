-- ===== src/Fs/Systems/Laws.antt =====
-- How the operations of targetd/fs.py find the file system, the snapshot and the back end.
use targetd.Prelude.{
  ◌⊎◌, inl, inr, refl, Bool-cases, All, eq_of_text_eq, ◌≡◌, ap, ◌∙◌, Text, text_eq, text_eq_iff,
  Option, some, List, [], ◌∷◌, ◌++◌, arith,
}
use targetd.Prelude.Search.{First, here, there}
use targetd.Utils.Errors.{not_found_ss, ok, err, targetd_error, not_found_fs}
use targetd.Backends.Interface.{FileSystem, Snapshot, FsBackend}
use targetd.Fs.Systems.{
  pool_module, find_fs, find_ss, fs, get_fs_by_uuid, get_ss_by_uuid, ss, ss_of, fs_snapshot,
  fs_snapshot_delete, fs_destroy, fs_clone,
}

find_fs-none :
    (fs_uuid : Text) (all : List FileSystem)
    → All (λ f. f.uuid ≡ fs_uuid → ⊥) all
    → find_fs fs_uuid all ≡ err (targetd_error not_found_fs)
unfolding find_fs
find_fs-none fs_uuid [] h = refl
find_fs-none fs_uuid (f ∷ fs) (n, h) =
    ground (arith, find_fs-none fs_uuid fs h, text_eq_iff f.uuid fs_uuid, n)

-- The search by uuid gives the first file system with it, whatever file systems follow.
find_fs_first :
    (fs_uuid : Text) (before after : List FileSystem) (f : FileSystem)
    → All (λ g. g.uuid ≡ fs_uuid → ⊥) before
    → f.uuid ≡ fs_uuid
    → find_fs fs_uuid (before ++ f ∷ after) ≡ ok f
unfolding find_fs
find_fs_first fs_uuid [] after f h e = ground (arith, text_eq_iff f.uuid fs_uuid)
find_fs_first fs_uuid (g ∷ before) after f (n, h) e =
    ground (arith, find_fs_first fs_uuid before after f h e, text_eq_iff g.uuid fs_uuid, n)

-- The search for a snapshot gives the first with the uuid, or fails where none has it.
find_ss-cases :
    (ss_uuid : Text) (snapshots : List Snapshot)
    → (All (λ s. s.uuid ≡ ss_uuid → ⊥) snapshots
        × (find_ss ss_uuid snapshots ≡ err (targetd_error not_found_ss)))
      ⊎ ((s : First (λ s. s.uuid ≡ ss_uuid) snapshots) × (find_ss ss_uuid snapshots ≡ ok s.found))
unfolding find_ss
find_ss-cases ss_uuid [] = inl (tt, refl)
find_ss-cases ss_uuid (s ∷ rest) = elim (Bool-cases (text_eq s.uuid ss_uuid)) [
  | inl e ↦ inr (here s rest (eq_of_text_eq s.uuid ss_uuid e), rw e refl)
  | inr e ↦
      let n : s.uuid ≡ ss_uuid → ⊥ =
        λ h. absurd (ground (arith, e, (text_eq_iff s.uuid ss_uuid).1 h)) in
      elim (find_ss-cases ss_uuid rest) [
        | inl (none', h) ↦ inl ((n, none'), rw e h)
        | inr (x, h) ↦ inr (there s rest n x, rw e h)
      ]
]

module _ {W : Type 0} (pool_modules : List (FsBackend W)) (fs_uuid : Text) (all : List FileSystem)
    (w w' : W) (listed : fs pool_modules w ≡ (ok all, w')) where
  get_fs_by_uuid-listed : get_fs_by_uuid pool_modules fs_uuid w ≡ (find_fs fs_uuid all, w')
  unfolding get_fs_by_uuid
  get_fs_by_uuid-listed = ground (arith, listed)

  -- If the file systems can be listed and none of them has the uuid, every operation on one is
  -- refused, and has then only listed the file systems.
  pub unknown_fs_refused :
      (name ss_uuid : Text) (snapshot_id : Option Text)
      → All (λ f. f.uuid ≡ fs_uuid → ⊥) all
      → (ss pool_modules fs_uuid w ≡ (err (targetd_error not_found_fs), w'))
        × (fs_destroy pool_modules fs_uuid w ≡ (err (targetd_error not_found_fs), w'))
        × (fs_snapshot pool_modules fs_uuid name w ≡ (err (targetd_error not_found_fs), w'))
        × (fs_snapshot_delete pool_modules fs_uuid ss_uuid w
            ≡ (err (targetd_error not_found_fs), w'))
        × (fs_clone pool_modules fs_uuid name snapshot_id w
            ≡ (err (targetd_error not_found_fs), w'))
  unfolding ss fs_destroy fs_snapshot fs_snapshot_delete fs_clone
  unknown_fs_refused name ss_uuid snapshot_id unknown = (
    ground (arith, looked_up),
    ground (arith, looked_up),
    ground (arith, looked_up),
    ground (arith, looked_up),
    ground (arith, looked_up),
  )
    where
      looked_up : get_fs_by_uuid pool_modules fs_uuid w ≡ (err (targetd_error not_found_fs), w')
      looked_up = get_fs_by_uuid-listed ∙ ap (λ r. (r, w')) (find_fs-none fs_uuid all unknown)

  get_ss_by_uuid-listed :
      (ss_uuid : Text) (f : FileSystem) (mod' : FsBackend W) (snapshots : List Snapshot) (v v' : W)
      → pool_module pool_modules f.pool ≡ ok mod'
      → mod'.ss f.pool f.name v ≡ (ok snapshots, v')
      → get_ss_by_uuid pool_modules fs_uuid ss_uuid (some f) v ≡ (find_ss ss_uuid snapshots, v')
  unfolding get_ss_by_uuid ss_of
  get_ss_by_uuid-listed ss_uuid f mod' snapshots v v' responsible h = ground (arith, responsible, h)

  deleted_as :
      (ss_uuid : Text) (f : FileSystem) (mod' : FsBackend W) (snapshots : List Snapshot) (w'' : W)
      → find_fs fs_uuid all ≡ ok f
      → pool_module pool_modules f.pool ≡ ok mod'
      → mod'.ss f.pool f.name w' ≡ (ok snapshots, w'')
      → fs_snapshot_delete pool_modules fs_uuid ss_uuid w ≡ elim (find_ss ss_uuid snapshots) [
        | ok s ↦ mod'.fs_snapshot_delete f.pool f.name s.name w''
        | err e ↦ (err e, w'')
      ]
  unfolding fs_snapshot_delete
  deleted_as ss_uuid f mod' snapshots w'' found responsible snapshots_listed = ground (
    arith,
    get_fs_by_uuid-listed,
    found,
    responsible,
    get_ss_by_uuid-listed ss_uuid f mod' snapshots w' w'' responsible snapshots_listed,
  )

  -- If the file systems can be listed, with one of the uuid, and the back end of its pool lists the
  -- snapshots: if none of them has the uuid of the request, it is refused and nothing else is done;
  -- otherwise the back end deletes the first that has it, by the pool and the name of the first file
  -- system with the uuid and by the name of the snapshot.
  pub fs_snapshot_delete_outcome :
      (ss_uuid : Text) (f : First (λ f. f.uuid ≡ fs_uuid) all) (mod' : FsBackend W)
      (snapshots : List Snapshot) (w'' : W)
      → pool_module pool_modules f.found.pool ≡ ok mod'
      → mod'.ss f.found.pool f.found.name w' ≡ (ok snapshots, w'')
      → (All (λ s. s.uuid ≡ ss_uuid → ⊥) snapshots
          × (fs_snapshot_delete pool_modules fs_uuid ss_uuid w
              ≡ (err (targetd_error not_found_ss), w'')))
        ⊎ ((s : First (λ s. s.uuid ≡ ss_uuid) snapshots) × (fs_snapshot_delete pool_modules fs_uuid
                ss_uuid w
              ≡ mod'.fs_snapshot_delete f.found.pool f.found.name s.found.name w''))
  fs_snapshot_delete_outcome ss_uuid f mod' snapshots w'' responsible listed' =
      let found : find_fs fs_uuid all ≡ ok f.found =
        ap (find_fs fs_uuid) f.parts
        ∙ find_fs_first fs_uuid f.before f.after f.found f.earlier f.is_good in
      let by_name = deleted_as ss_uuid f.found mod' snapshots w'' found responsible listed' in
      elim (find_ss-cases ss_uuid snapshots) [
        | inl (none', e) ↦ inl (none', ground (arith, by_name, e))
        | inr (s, e) ↦ inr (s, ground (arith, by_name, e))
      ]
