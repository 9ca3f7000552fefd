-- ===== src/Nfs/Exportfs.antt =====
-- Class `Nfs` of targetd/nfs.py and the two readers of exports. The `exportfs` program, the files, the
-- regular expression that takes its output apart and `shlex` are parameters.
pub mod Laws
use targetd.Prelude.{
  ℕ, Bool, true, false, not, ◌==◌, Text, codes, any, filter, Option, none, some, List, [], ◌∷◌,
  ◌++◌, if◌then◌else◌,
}
use targetd.Prelude.Dict.{Dict}
use targetd.Utils.Errors.{ℤ, pos, negsuc, Result, ok, err, value_error, runtime_error}
use targetd.Utils.Exec.{Exec, pure, raise, lift, ◌>>=◌, ◌>>◌, skip}
use targetd.Utils.Invoke.{Process, invoke, succeeded}
use targetd.Nfs.Export.{Export, new_export, options_string, export_file_format, same_export}
use targetd.Nfs.Listing.{Match, parse_exports, tokens_of, parse_matches}

unfoldable pub security_options : List Text
security_options = codes "sys" ∷ codes "krb5" ∷ codes "krb5i" ∷ codes "krb5p" ∷ []

pub record Machine (W : Type 0) : Type 0 where
  -- `Popen` and `communicate`
  pub run : List Text → W → Process × W
  -- `re.finditer(export_regex, …)`
  pub matches : Text → List Match
  -- `open(f, "r")` and the lines of the main exports file
  pub main_lines : Exec W (List Text)
  -- `shlex.split(line, "#")`
  pub shlex : Text → Result (List Text)
  -- `os.remove(config_file)`, without its `OSError`
  pub remove_config : Exec W (Unit {0})
  -- `open(config_file, "w")` and `ef.write`
  pub create_config : Exec W (Unit {0})
  pub write_config : Text → Exec W (Unit {0})

-- `e in user_exports`
abbrev pub is_listed_in : List Export → Export → Bool
is_listed_in user_exports e = any (λ u. same_export e u) user_exports

abbrev pub cmd : Text
cmd = codes "exportfs"

module _ {W : Type 0} (m : Machine W) where
  unfoldable pub exports : Exec W (List Export)
  unfolding parse_matches invoke
  exports = do p ← invoke m.run (cmd ∷ codes "-v" ∷ []) true; lift (parse_matches (m.matches p.out))

  unfoldable pub parse_exports_file : Exec W (List Export)
  unfolding parse_exports tokens_of
  parse_exports_file = do
    lines ← m.main_lines
    tokens ← lift (tokens_of m.shlex lines)
    pure (parse_exports tokens)

  -- The loop of `_save_exports` over the exports.
  unfoldable pub write_exports : List Export → List Export → Exec W (Unit {0})
  write_exports user_exports [] = skip
  write_exports user_exports (e ∷ es) = do
    if is_listed_in user_exports e then skip else m.write_config (export_file_format e)
    write_exports user_exports es

  unfoldable pub save_exports : Exec W (Unit {0})
  unfolding parse_exports_file exports write_exports
  save_exports = do
    m.remove_config
    user_exports ← parse_exports_file
    m.create_config
    es ← exports
    write_exports user_exports es

  abbrev option_args : Text → List Text
  option_args [] = []
  option_args (c ∷ s) = codes "-o" ∷ (c ∷ s) ∷ []

  abbrev pub host_path : Text → Text → Text
  host_path host path = host ++ b':' ∷ path

  unfoldable pub export_add : Text → Text → ℕ → Dict Text → Exec W (Unit {0})
  unfolding save_exports
  export_add host path bit_wise_options key_value_options = do
    export ← lift (new_export host path bit_wise_options (some key_value_options))
    p ← invoke m.run (cmd ∷ option_args (options_string export) ++ host_path host path ∷ []) false
    elim p.code [
      | pos n ↦
          if n == 0
          then save_exports
          else if n == 22
          then raise value_error
          else raise runtime_error
      | negsuc n ↦ raise runtime_error
    ]

  unfoldable pub export_remove : Export → Exec W (Unit {0})
  unfolding save_exports
  export_remove export = do
    p ← invoke m.run (cmd ∷ codes "-u" ∷ host_path export.host export.path ∷ []) true
    if succeeded p then save_exports else skip
