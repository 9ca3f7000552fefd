-- ===== src/Fs/Frame.antt =====
-- What the modules of the file systems, exportfs and `os.chown` do to the access groups of the
-- target, when targetd/fs.py calls them.
pub mod Systems
pub mod Part
pub mod Exports
pub mod Methods
use targetd.Prelude.{ℕ, Text, Option, List, [], ◌∷◌}
use targetd.Utils.Errors.{ℤ, ok}
use targetd.Utils.Invoke.{Process}
use targetd.Utils.Exec.{Exec}
use targetd.Backends.Interface.{FsBackend}
use targetd.Nfs.Exportfs.{Machine}
use targetd.Block.AccessGroups.{Group}
use targetd.Block.Frame.{Shrinks}

-- A program of exportfs as it ends, whatever its return code.
abbrev pub ran : {W : Type 0} → Machine W → List Text → Exec W Process
ran m cmd w = (ok (m.run cmd w).0, (m.run cmd w).1)

module _ {W : Type 0} (groups : W → List Group) where
  pub record FsModuleShrinks (b : FsBackend W) : Type 0 where
    pub fs_create : (pool name : Text) (size : ℕ) → Shrinks groups (b.fs_create pool name size)
    pub fs_snapshot : (pool name ss : Text) → Shrinks groups (b.fs_snapshot pool name ss)
    pub fs_snapshot_delete :
        (pool name ss : Text) → Shrinks groups (b.fs_snapshot_delete pool name ss)
    pub fs_destroy : (pool name : Text) → Shrinks groups (b.fs_destroy pool name)
    pub fs_pools : Shrinks groups b.fs_pools
    pub fs_hash : Shrinks groups b.fs_hash
    pub ss : (pool name : Text) → Shrinks groups (b.ss pool name)
    pub fs_clone :
        (pool name dest : Text) (source : Option Text)
        → Shrinks groups (b.fs_clone pool name dest source)

  -- What holds of every module of a list.
  abbrev pub AllFsModules : List (FsBackend W) → Type 0
  AllFsModules [] = Unit {0}
  AllFsModules (b ∷ mods) = FsModuleShrinks b × AllFsModules mods

  pub record NfsShrinks (m : Machine W) (chown_to : Text → ℤ → ℤ → Exec W (Unit {0})) : Type 0 where
    pub run : (cmd : List Text) → Shrinks groups (ran m cmd)
    pub main_lines : Shrinks groups m.main_lines
    pub remove_config : Shrinks groups m.remove_config
    pub create_config : Shrinks groups m.create_config
    pub write_config : (s : Text) → Shrinks groups (m.write_config s)
    pub chown : (path : Text) (uid gid : ℤ) → Shrinks groups (chown_to path uid gid)
