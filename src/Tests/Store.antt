-- ===== src/Tests/Store.antt =====
-- The store of targetd/backends/btrfs.py on a machine that can make one subvolume.
use targetd.Prelude.{
  ◌≡◌, refl, ℕ, Bool, true, false, ◌&&◌, ◌||◌, Text, codes, text_eq, text_eq_refl, member, none,
  List, [], ◌∷◌, has_code, if◌then◌else◌,
}
use targetd.Utils.Errors.{pos, ok, err, targetd_error, exists_fs_name}
use targetd.Utils.Invoke.{Process}
use targetd.Backends.Btrfs.Commands.{Host}
use targetd.Backends.Btrfs.Paths.{fs_path, fs_of}
use targetd.Backends.Btrfs.Store.{perform, creates, destroys}

abbrev ends : ℕ → Process
ends n = record { code = pos n; out = []; stderr = [] }

-- The state is whether the one subvolume that the machine can make is there.
abbrev home : Text
home = codes "/p/targetd_fs/home"

abbrev roots : List Text
roots = codes "/p" ∷ codes "/p/targetd_fs" ∷ codes "/p/targetd_ss" ∷ []

abbrev is_there : Text → Bool → Bool
is_there q made = member q roots || text_eq home q && made

abbrev run_on : List Text → Bool → Process × Bool
run_on (_ ∷ _ ∷ op ∷ p ∷ []) made =
    if text_eq op (codes "create") && text_eq home p
    then (ends 0, true)
    else if text_eq op (codes "delete") && text_eq home p
    then (ends 0, false)
    else (ends 1, made)
run_on _ made = (ends 1, made)

abbrev one_system : Host Bool
one_system = record {
  run = run_on;
  path_exists = is_there;
  statvfs = λ _ made. (ok (record { f_bavail = 1; f_blocks = 2; f_frsize = 4096 }), made);
  sleep = λ _ made. made;
  epoch = λ _. ok 0;
}

-- A path up to its last slash.
abbrev parent : Text → Text
parent [] = []
parent (c ∷ s) = let rest = parent s in if has_code b'/' s then c ∷ rest else []

made_and_removed :
    (perform one_system (codes "/p") (creates (codes "home") 0) false ≡ (ok tt, true))
    × (perform one_system (codes "/p") (creates (codes "home") 0) true
        ≡ (err (targetd_error exists_fs_name), true))
    × (perform one_system (codes "/p") (destroys (codes "home")) true ≡ (ok tt, false))
unfolding targetd.Backends.Btrfs.FileSystems.fs_create text_eq fs_of targetd.Prelude.starts_with
    targetd.Backends.Btrfs.FileSystems.fs_destroy targetd.Backends.Btrfs.Paths.snapshots_dir
    targetd.Backends.Btrfs.Commands.fs_subvolume_delete
made_and_removed = (refl, refl, refl)
