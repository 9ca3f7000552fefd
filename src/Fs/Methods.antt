-- ===== src/Fs/Methods.antt =====
-- The functions of targetd/fs.py with their parameters, and the dict of them that `initialize`
-- returns.
use targetd.Prelude.{Bool, Text, codes, Option, none, some, List, [], ◌∷◌}
use targetd.Prelude.Dict.{Dict, lookup}
use targetd.Utils.Errors.{ℤ}
use targetd.Utils.Exec.{Exec}
use targetd.Backends.Interface.{FsBackend}
use targetd.Nfs.Exportfs.{Machine}
use targetd.Fs.Systems.{fs, fs_create, fs_snapshot, ss, fs_snapshot_delete, fs_destroy, fs_clone}
use targetd.Fs.Exports.{
  Options, missing, single, several, nfs_export_auth_list, nfs_export_list, nfs_export_add,
  nfs_export_remove,
}
use targetd.Main.Rpc.{Value, null, text, array}
use targetd.Main.Methods.{
  file_systems, snapshots, security_list, entry_list, exported, Method, answers, done, text_arg,
  nat_arg, text_or_none, ◌>>=?◌,
}

-- The modules of the pools, exportfs and its files, the configuration of `chown` with `os.chown`, and
-- the text that an element of an array is.
pub record FsParts (K W : Type 0) : Type 0 where
  pub pool_modules : List (FsBackend W)
  pub nfs : Machine W
  pub allow_chown : Bool
  pub chown_to : Text → ℤ → ℤ → Exec W (Unit {0})
  pub text_of : K → Option Text

module _ {K : Type 0} where
  unfoldable pub texts_of : (K → Option Text) → List K → Option (List Text)
  texts_of text_of [] = some []
  texts_of text_of (x ∷ xs) = text_of x >>=? λ s. texts_of text_of xs >>=? λ rest. some (s ∷ rest)

  -- A text, a list of texts, or `None`, which is also the default
  unfoldable pub options_arg : (K → Option Text) → Dict (Value K) → Text → Option Options
  unfolding texts_of
  options_arg text_of kwargs key = elim (lookup key kwargs) [
    | some v ↦ elim v [
      | text s ↦ some (single s)
      | array xs ↦ (texts_of text_of xs >>=? λ options. some (several options))
      | null ↦ some missing
      | _ ↦ none
    ]
    | none ↦ some missing
  ]

  -- `None`, which is also the default
  unfoldable pub none_arg : Dict (Value K) → Text → Option (Unit {0})
  none_arg kwargs key = elim (lookup key kwargs) [
    | some v ↦ elim v [ null ↦ some tt | _ ↦ none ]
    | none ↦ some tt
  ]

module _ {K W : Type 0} (p : FsParts K W) where
  abbrev pub fs_list : Method K W
  fs_list = record {
    required = [];
    optional = [];
    body = λ _. answers file_systems (fs p.pool_modules);
  }

  abbrev pub fs_destroy_method : Method K W
  fs_destroy_method = record {
    required = codes "uuid" ∷ [];
    optional = [];
    body = λ d. text_arg d (codes "uuid") >>=? λ uuid. done (fs_destroy p.pool_modules uuid);
  }

  abbrev pub fs_create_method : Method K W
  fs_create_method = record {
    required = codes "pool_name" ∷ codes "name" ∷ codes "size_bytes" ∷ [];
    optional = [];
    body = λ d. text_arg d (codes "pool_name") >>=? λ pool_name.
        text_arg d (codes "name") >>=? λ name. nat_arg d (codes "size_bytes") >>=? λ size_bytes.
        done (fs_create p.pool_modules pool_name name size_bytes);
  }

  abbrev pub fs_clone_method : Method K W
  fs_clone_method = record {
    required = codes "fs_uuid" ∷ codes "dest_fs_name" ∷ codes "snapshot_id" ∷ [];
    optional = [];
    body = λ d. text_arg d (codes "fs_uuid") >>=? λ fs_uuid.
        text_arg d (codes "dest_fs_name") >>=? λ dest_fs_name.
        text_or_none d (codes "snapshot_id") >>=? λ snapshot_id.
        done (fs_clone p.pool_modules fs_uuid dest_fs_name snapshot_id);
  }

  abbrev pub ss_list : Method K W
  ss_list = record {
    required = codes "fs_uuid" ∷ [];
    optional = codes "fs_cache" ∷ [];
    body = λ d. text_arg d (codes "fs_uuid") >>=? λ fs_uuid.
        none_arg d (codes "fs_cache") >>=? λ _. answers snapshots (ss p.pool_modules fs_uuid);
  }

  abbrev pub fs_snapshot_method : Method K W
  fs_snapshot_method = record {
    required = codes "fs_uuid" ∷ codes "dest_ss_name" ∷ [];
    optional = [];
    body = λ d. text_arg d (codes "fs_uuid") >>=? λ fs_uuid.
        text_arg d (codes "dest_ss_name") >>=? λ dest_ss_name.
        done (fs_snapshot p.pool_modules fs_uuid dest_ss_name);
  }

  abbrev pub fs_snapshot_delete_method : Method K W
  fs_snapshot_delete_method = record {
    required = codes "fs_uuid" ∷ codes "ss_uuid" ∷ [];
    optional = [];
    body = λ d. text_arg d (codes "fs_uuid") >>=? λ fs_uuid.
        text_arg d (codes "ss_uuid") >>=? λ ss_uuid.
        done (fs_snapshot_delete p.pool_modules fs_uuid ss_uuid);
  }

  abbrev pub nfs_export_auth_list_method : Method K W
  nfs_export_auth_list_method = record {
    required = [];
    optional = [];
    body = λ _. answers security_list (nfs_export_auth_list);
  }

  abbrev pub nfs_export_list_method : Method K W
  nfs_export_list_method = record {
    required = [];
    optional = [];
    body = λ _. answers entry_list (nfs_export_list p.nfs);
  }

  abbrev pub nfs_export_add_method : Method K W
  nfs_export_add_method = record {
    required = codes "host" ∷ codes "path" ∷ [];
    optional = codes "options" ∷ codes "chown" ∷ codes "export_path" ∷ [];
    body = λ d. text_arg d (codes "host") >>=? λ host. text_arg d (codes "path") >>=? λ path.
        options_arg p.text_of d (codes "options") >>=? λ options.
        text_or_none d (codes "chown") >>=? λ chown.
        text_or_none d (codes "export_path") >>=? λ export_path.
        answers exported
          (nfs_export_add p.nfs p.allow_chown p.chown_to host path options chown export_path);
  }

  abbrev pub nfs_export_remove_method : Method K W
  nfs_export_remove_method = record {
    required = codes "host" ∷ codes "path" ∷ [];
    optional = [];
    body = λ d. text_arg d (codes "host") >>=? λ host.
        text_arg d (codes "path") >>=? λ path. done (nfs_export_remove p.nfs host path);
  }

  abbrev pub mapping : Dict (Method K W)
  mapping =
      (codes "fs_list", fs_list)
      ∷ (codes "fs_destroy", fs_destroy_method)
      ∷ (codes "fs_create", fs_create_method)
      ∷ (codes "fs_clone", fs_clone_method)
      ∷ (codes "ss_list", ss_list)
      ∷ (codes "fs_snapshot", fs_snapshot_method)
      ∷ (codes "fs_snapshot_delete", fs_snapshot_delete_method)
      ∷ (codes "nfs_export_auth_list", nfs_export_auth_list_method)
      ∷ (codes "nfs_export_list", nfs_export_list_method)
      ∷ (codes "nfs_export_add", nfs_export_add_method)
      ∷ (codes "nfs_export_remove", nfs_export_remove_method)
      ∷ []
