-- ===== src/Fs/Frame/Exports.antt =====
-- The NFS functions of targetd/fs.py put no initiator into a second access group.
use targetd.Prelude.{
  ℕ, if◌then◌else◌, Bool, true, false, ◌&&◌, ◌==◌, not, Text, Option, none, some, List, [], ◌∷◌,
  Bool-cases, inl, inr,
}
use targetd.Prelude.Dict.{Dict}
use targetd.Utils.Errors.{
  ℤ, pos, negsuc, Exception, targetd_error, nfs_no_support, value_error, runtime_error,
}
use targetd.Utils.Numbers.{int_of_text}
use targetd.Utils.Exec.{Exec, ◌>>◌, raise, skip}
use targetd.Utils.Invoke.{invoke, succeeded}
use targetd.Utils.Keeps.{
  keeps_rules, pure-Keeps, raise-Keeps, lift-Keeps, if-Keeps, skip-Keeps, >>=-Keeps, catch-Keeps,
}
use targetd.Nfs.Export.{Export, parse_options, new_export, export_file_format}
use targetd.Nfs.Exportfs.{
  Machine, exports, parse_exports_file, write_exports, save_exports, export_add, export_remove,
  is_listed_in,
}
use targetd.Nfs.Listing.{parse_exports, tokens_of}
use targetd.Block.AccessGroups.{Group}
use targetd.Block.Frame.{KeepsGroups, of_shrinks}
use targetd.Fs.Frame.{NfsShrinks}
use targetd.Fs.Exports.{
  Options, as_invalid_argument, as_list, group_of, nfs_export_list, chown_items, chown_path,
  nfs_export_add, remove_matching, nfs_export_remove,
}

module _ {W : Type 0} (groups : W → List Group) (m : Machine W)
    (chown_to : Text → ℤ → ℤ → Exec W (Unit {0})) (laws : NfsShrinks groups m chown_to) where
  invoke-Keeps : (cmd : List Text) (b : Bool) → KeepsGroups groups (invoke m.run cmd b)
  unfolding invoke
  invoke-Keeps cmd b = record {
    keeps = λ w h. elim (Bool-cases (b && not (succeeded (m.run cmd w).0))) [
      | inl bad ↦ rw (bad, invoke) ((of_shrinks (laws.run cmd)).keeps w h)
      | inr good ↦ rw (good, invoke) ((of_shrinks (laws.run cmd)).keeps w h)
    ];
  }

  exports-Keeps : KeepsGroups groups (exports m)
  unfolding exports
  exports-Keeps = search (invoke-Keeps, keeps_rules)

  write_step :
      (user es : List Export) (e : Export)
      → KeepsGroups groups (write_exports m user es)
      → KeepsGroups groups (
          (if is_listed_in user e then skip else m.write_config (export_file_format e))
          >> write_exports m user es)
  write_step user es e rest =
      >>=-Keeps (if-Keeps _ skip-Keeps (of_shrinks (laws.write_config (export_file_format e))))
        (λ _. rest)

  write_exports-Keeps : (user es : List Export) → KeepsGroups groups (write_exports m user es)
  unfolding write_exports
  write_exports-Keeps user [] = skip-Keeps
  write_exports-Keeps user (e ∷ es) = write_step user es e (write_exports-Keeps user es)

  parse_exports_file-Keeps : KeepsGroups groups (parse_exports_file m)
  unfolding parse_exports_file
  parse_exports_file-Keeps = >>=-Keeps (of_shrinks laws.main_lines) λ lines.
      >>=-Keeps (lift-Keeps (tokens_of m.shlex lines)) λ tokens. pure-Keeps (parse_exports tokens)

  save_exports-Keeps : KeepsGroups groups (save_exports m)
  unfolding save_exports
  save_exports-Keeps = >>=-Keeps (of_shrinks laws.remove_config) λ _.
      >>=-Keeps parse_exports_file-Keeps λ user.
        >>=-Keeps (of_shrinks laws.create_config)
          λ _. >>=-Keeps exports-Keeps λ es. write_exports-Keeps user es

  -- What `export_add` does with the return code.
  code-Keeps :
      (code : ℤ)
      → KeepsGroups groups (elim code as (λ _. Exec W (Unit {0})) [
        | pos n ↦
            if n == 0
            then save_exports m
            else if n == 22
            then raise value_error
            else raise runtime_error
        | negsuc n ↦ raise runtime_error
      ])
  code-Keeps (pos n) =
      if-Keeps _ save_exports-Keeps
        (if-Keeps _ (raise-Keeps value_error) (raise-Keeps runtime_error))
  code-Keeps (negsuc n) = raise-Keeps runtime_error

  export_add-Keeps :
      (host path : Text) (bits : ℕ) (pairs : Dict Text)
      → KeepsGroups groups (export_add m host path bits pairs)
  unfolding export_add
  export_add-Keeps host path bits pairs =
      >>=-Keeps (lift-Keeps (new_export host path bits (some pairs)))
        λ export. >>=-Keeps (invoke-Keeps _ false) λ p. code-Keeps p.code

  export_remove-Keeps : (e : Export) → KeepsGroups groups (export_remove m e)
  unfolding export_remove
  export_remove-Keeps e =
      >>=-Keeps (invoke-Keeps _ true) λ p. if-Keeps _ save_exports-Keeps skip-Keeps

  pub nfs_export_list-Keeps : KeepsGroups groups (nfs_export_list m)
  unfolding nfs_export_list
  nfs_export_list-Keeps = search (exports-Keeps, keeps_rules)

  remove_matching-Keeps :
      (host path : Text) (es : List Export) (found : Bool)
      → KeepsGroups groups (remove_matching m host path es found)
  unfolding remove_matching
  remove_matching-Keeps host path [] found = pure-Keeps found
  remove_matching-Keeps host path (e ∷ es) found =
      if-Keeps _ (>>=-Keeps (export_remove-Keeps e) λ _. remove_matching-Keeps host path es true)
        (remove_matching-Keeps host path es found)

  pub nfs_export_remove-Keeps :
      (host path : Text) → KeepsGroups groups (nfs_export_remove m host path)
  unfolding nfs_export_remove
  nfs_export_remove-Keeps host path = search (exports-Keeps, remove_matching-Keeps, keeps_rules)

  invalid-Keeps :
      (A : Type 0) (e : Exception) → KeepsGroups groups (as_invalid_argument {W = W} {A = A} e)
  invalid-Keeps A value_error = record { keeps = λ w h. h }
  invalid-Keeps A _ = record { keeps = λ w h. h }

  module _ (allow_chown : Bool) where
    chown_items-Keeps :
        (path : Text) (items : List Text)
        → KeepsGroups groups (chown_items m allow_chown chown_to path items)
    unfolding chown_items
    chown_items-Keeps path [] = skip-Keeps
    chown_items-Keeps path (item ∷ items) =
        catch-Keeps
          (>>=-Keeps (lift-Keeps (int_of_text item)) λ uid.
            >>=-Keeps (lift-Keeps (group_of items)) λ gid. of_shrinks (laws.chown path uid gid))
          (invalid-Keeps (Unit {0}))

    chown_path-Keeps :
        (path : Text) (chown : Option Text)
        → KeepsGroups groups (chown_path m allow_chown chown_to path chown)
    unfolding chown_path
    chown_path-Keeps path none = skip-Keeps
    chown_path-Keeps path (some chown) = search (chown_items-Keeps, keeps_rules)

    refuse-Keeps :
        (export_path : Option Text)
        → KeepsGroups groups (elim export_path as (λ _. Exec W (Unit {0})) [
          | some _ ↦ raise (targetd_error nfs_no_support)
          | none ↦ skip
        ])
    refuse-Keeps none = skip-Keeps
    refuse-Keeps (some path) = raise-Keeps (targetd_error nfs_no_support)

    pub nfs_export_add-Keeps :
        (host path : Text) (options : Options) (chown export_path : Option Text)
        → KeepsGroups groups
            (nfs_export_add m allow_chown chown_to host path options chown export_path)
    unfolding nfs_export_add
    nfs_export_add-Keeps host path options chown export_path =
        >>=-Keeps (refuse-Keeps export_path) λ _.
          >>=-Keeps (lift-Keeps (parse_options (as_list options) 0 [])) λ bits.
            >>=-Keeps (chown_path-Keeps path chown) λ _.
              >>=-Keeps
                (catch-Keeps (export_add-Keeps host path bits.0 bits.1) (invalid-Keeps (Unit {0})))
                λ _. pure-Keeps (host, path)
