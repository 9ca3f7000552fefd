-- ===== src/Fs/Exports.antt =====
-- The NFS operations of targetd/fs.py.
use targetd.Prelude.{
  Bool, true, false, not, ◌&&◌, Text, text_eq, Option, none, some, List, [], ◌∷◌, if◌then◌else◌,
}
use targetd.Prelude.Split.{split}
use targetd.Utils.Errors.{
  ℤ, neg, Exception, value_error, Result, ok, targetd_error, nfs_no_support, no_support,
  invalid_argument, not_found_nfs_export,
}
use targetd.Utils.Exec.{Exec, pure, raise, lift, catch, ◌>>=◌, ◌>>◌, raise_if, skip}
use targetd.Utils.Numbers.{int_of_text}
use targetd.Nfs.Export.{Export, parse_options, options_list}
use targetd.Nfs.Exportfs.{Machine, security_options, exports, export_add, export_remove}

unfoldable pub nfs_export_auth_list : {W : Type 0} → Exec W (List Text)
nfs_export_auth_list = pure security_options

-- The argument `options`: a list, or one text, or nothing.
pub data Options : Type 0 where
  missing : Options
  single : Text → Options
  several : List Text → Options

unfoldable pub as_list : Options → List Text
as_list missing = []
as_list (single []) = []
as_list (single (c ∷ s)) = (c ∷ s) ∷ []
as_list (several options) = options

-- An entry of the list that `nfs_export_list` returns.
pub record Entry : Type 0 where
  pub host : Text
  pub path : Text
  pub options : List Text

abbrev pub entry : Export → Entry
entry e = record { host = e.host; path = e.path; options = options_list e }

-- `except ValueError: raise TargetdError(INVALID_ARGUMENT, …)`
abbrev pub as_invalid_argument : {W A : Type 0} → Exception → Exec W A
as_invalid_argument value_error = raise (targetd_error invalid_argument)
as_invalid_argument e = raise e

-- The loop of `nfs_export_list`.
unfoldable pub entries : List Export → List Entry
entries [] = []
entries (e ∷ es) = entry e ∷ entries es

-- The group of `chown`, which is left alone if the text names none.
unfoldable pub group_of : List Text → Result ℤ
group_of [] = ok (neg 1)
group_of (gid ∷ _) = int_of_text gid

module _ {W : Type 0} (m : Machine W) where
  unfoldable pub nfs_export_list : Exec W (List Entry)
  unfolding entries
  nfs_export_list = do es ← exports m; pure (entries es)

  -- `chown_to` is `os.chown`.
  module _ (allow_chown : Bool) (chown_to : Text → ℤ → ℤ → Exec W (Unit {0})) where
    unfoldable pub chown_items : Text → List Text → Exec W (Unit {0})
    unfolding group_of
    chown_items path [] = skip
    chown_items path (item ∷ items) =
        catch
          (lift (int_of_text item) >>= λ uid.
            lift (group_of items) >>= λ gid. chown_to path uid gid)
          as_invalid_argument

    unfoldable pub chown_path : Text → Option Text → Exec W (Unit {0})
    unfolding chown_items
    chown_path path none = skip
    chown_path path (some chown) = do
      raise_if (not allow_chown) (targetd_error no_support)
      chown_items path (split b':' chown)

    unfoldable pub nfs_export_add :
        Text → Text → Options → Option Text → Option Text → Exec W (Text × Text)
    unfolding as_list chown_path
    nfs_export_add host path options chown export_path = do
      elim export_path [ some _ ↦ raise (targetd_error nfs_no_support) | none ↦ skip ]
      (bit_opt, key_opt) ← lift (parse_options (as_list options) 0 [])
      chown_path path chown
      catch (export_add m host path bit_opt key_opt) as_invalid_argument
      pure (host, path)

  -- The loop of `nfs_export_remove`.
  unfoldable pub remove_matching : Text → Text → List Export → Bool → Exec W Bool
  remove_matching host path [] found = pure found
  remove_matching host path (e ∷ es) found =
      if text_eq e.host host && text_eq e.path path
      then (export_remove m e >>= λ _. remove_matching host path es true)
      else remove_matching host path es found

  unfoldable pub nfs_export_remove : Text → Text → Exec W (Unit {0})
  unfolding remove_matching
  nfs_export_remove host path = do
    es ← exports m
    found ← remove_matching host path es false
    raise_if (not found) (targetd_error not_found_nfs_export)
