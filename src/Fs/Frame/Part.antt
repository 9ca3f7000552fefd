-- ===== src/Fs/Frame/Part.antt =====
-- Back ends of targetd/fs.py, exportfs and `os.chown` over a part of the machine without the access
-- groups.
use targetd.Prelude.{◌≡◌, Text, List, [], ◌∷◌, map}
use targetd.Utils.Errors.{ℤ}
use targetd.Utils.Exec.{Exec}
use targetd.Utils.Part.{Part, on_part}
use targetd.Backends.Interface.{FsBackend}
use targetd.Nfs.Exportfs.{Machine}
use targetd.Block.AccessGroups.{Group}
use targetd.Block.Frame.Part.{on_part-Shrinks}
use targetd.Fs.Frame.{ran, FsModuleShrinks, AllFsModules, NfsShrinks}

module _ {V W : Type 0} (x : Part V W) where
  abbrev pub fs_on : FsBackend V → FsBackend W
  fs_on b = record {
    has_fs_pool = b.has_fs_pool;
    fs_create = λ pool name size. on_part x (b.fs_create pool name size);
    fs_snapshot = λ pool name ss. on_part x (b.fs_snapshot pool name ss);
    fs_snapshot_delete = λ pool name ss. on_part x (b.fs_snapshot_delete pool name ss);
    fs_destroy = λ pool name. on_part x (b.fs_destroy pool name);
    fs_pools = on_part x b.fs_pools;
    fs_hash = on_part x b.fs_hash;
    ss = λ pool name. on_part x (b.ss pool name);
    fs_clone = λ pool name dest source. on_part x (b.fs_clone pool name dest source);
  }

  abbrev pub nfs_on : Machine V → Machine W
  nfs_on m = record {
    run = λ cmd w. ((m.run cmd (x.get w)).0, x.put (m.run cmd (x.get w)).1 w);
    matches = m.matches;
    main_lines = on_part x m.main_lines;
    shlex = m.shlex;
    remove_config = on_part x m.remove_config;
    create_config = on_part x m.create_config;
    write_config = λ s. on_part x (m.write_config s);
  }

  module _ (groups : W → List Group) (apart : (v : V) (w : W) → groups (x.put v w) ≡ groups w) where
    fs_on-Shrinks : (b : FsBackend V) → FsModuleShrinks groups (fs_on b)
    fs_on-Shrinks b = record {
      fs_create = λ pool name size. on_part-Shrinks x groups apart (b.fs_create pool name size);
      fs_snapshot = λ pool name ss. on_part-Shrinks x groups apart (b.fs_snapshot pool name ss);
      fs_snapshot_delete =
          λ pool name ss. on_part-Shrinks x groups apart (b.fs_snapshot_delete pool name ss);
      fs_destroy = λ pool name. on_part-Shrinks x groups apart (b.fs_destroy pool name);
      fs_pools = on_part-Shrinks x groups apart b.fs_pools;
      fs_hash = on_part-Shrinks x groups apart b.fs_hash;
      ss = λ pool name. on_part-Shrinks x groups apart (b.ss pool name);
      fs_clone = λ pool name dest source.
          on_part-Shrinks x groups apart (b.fs_clone pool name dest source);
    }

    pub fs_on-AllFsModules : (mods : List (FsBackend V)) → AllFsModules groups (map fs_on mods)
    fs_on-AllFsModules [] = tt
    fs_on-AllFsModules (b ∷ mods) = (fs_on-Shrinks b, fs_on-AllFsModules mods)

    pub nfs_on-Shrinks :
        (m : Machine V) (chown_to : Text → ℤ → ℤ → Exec V (Unit {0}))
        → NfsShrinks groups (nfs_on m) (λ path uid gid. on_part x (chown_to path uid gid))
    nfs_on-Shrinks m chown_to = record {
      run = λ cmd. on_part-Shrinks x groups apart (ran m cmd);
      main_lines = on_part-Shrinks x groups apart m.main_lines;
      remove_config = on_part-Shrinks x groups apart m.remove_config;
      create_config = on_part-Shrinks x groups apart m.create_config;
      write_config = λ s. on_part-Shrinks x groups apart (m.write_config s);
      chown = λ path uid gid. on_part-Shrinks x groups apart (chown_to path uid gid);
    }
