-- ===== src/Nfs/Exportfs/Laws.antt =====
-- What `_save_exports` of targetd/nfs.py leaves in the file of targetd.
use targetd.Prelude.{
  ◌≡◌, refl, sym, ◌∙◌, Bool-cases, inl, inr, Text, List, [], ◌∷◌, ◌++◌, append_assoc, append-nil,
  if◌then◌else◌, arith,
}
use targetd.Utils.Errors.{ok}
use targetd.Utils.Exec.{Exec, ◌>>=◌, ◌>>◌, >>=-ok}
use targetd.Nfs.Export.{Export, export_file_format}
use targetd.Nfs.Exportfs.{
  Machine, exports, parse_exports_file, write_exports, save_exports, is_listed_in,
}

-- The lines of the exports that the user has not listed in the main file.
abbrev pub lines_of : List Export → List Export → Text
lines_of user_exports [] = []
lines_of user_exports (e ∷ es) =
    (if is_listed_in user_exports e then [] else export_file_format e) ++ lines_of user_exports es

-- `file` is the content of the configuration file: writing appends to it and always succeeds.
module _ {W : Type 0} (m : Machine W) (file : W → Text)
    (appends : (t : Text) (w : W) → (m.write_config t w).0 ≡ ok tt)
    (appended : (t : Text) (w : W) → file (m.write_config t w).1 ≡ file w ++ t) where
  write_exports-file :
      (user_exports es : List Export) (w : W)
      → ((write_exports m user_exports es w).0 ≡ ok tt)
        × (file (write_exports m user_exports es w).1 ≡ file w ++ lines_of user_exports es)
  unfolding write_exports
  write_exports-file user_exports [] w = (refl, sym (append-nil (file w)))
  write_exports-file user_exports (e ∷ es) w = elim (Bool-cases (is_listed_in user_exports e)) [
    | inl h ↦ ground (arith, write_exports-file user_exports es w)
    | inr h ↦ ground (
      arith,
      appends (export_file_format e) w,
      appended (export_file_format e) w,
      append_assoc (file w) (export_file_format e) (lines_of user_exports es),
      write_exports-file user_exports es (m.write_config (export_file_format e) w).1,
    )
  ]

  save_exports-write :
      (user es : List Export) (w w1 w2 w3 w4 : W)
      → m.remove_config w ≡ (ok tt, w1)
      → parse_exports_file m w1 ≡ (ok user, w2)
      → m.create_config w2 ≡ (ok tt, w3)
      → exports m w3 ≡ (ok es, w4)
      → save_exports m w ≡ write_exports m user es w4
  unfolding save_exports
  save_exports-write user es w w1 w2 w3 w4 removed read created listed =
      >>=-ok m.remove_config (λ _. parse_exports_file m >>= λ user. m.create_config >> finish user)
        removed
      ∙ >>=-ok (parse_exports_file m) (λ user. m.create_config >> finish user) read
      ∙ >>=-ok m.create_config (λ _. finish user) created
      ∙ >>=-ok (exports m) (λ es. write_exports m user es) listed
    where
      finish : List Export → Exec W (Unit {0})
      finish user = exports m >>= λ es. write_exports m user es

  -- If writing appends to the file and does not fail, saving the exports ends well and leaves in the
  -- file the lines of those exports that exportfs lists and the main file does not, in their order,
  -- if the main file can be read and exportfs runs. Creating the file is taken to empty it, and
  -- listing to leave it alone.
  pub save_exports-file :
      (user es : List Export) (w w1 w2 w3 w4 : W)
      → m.remove_config w ≡ (ok tt, w1)
      → parse_exports_file m w1 ≡ (ok user, w2)
      → m.create_config w2 ≡ (ok tt, w3)
      → exports m w3 ≡ (ok es, w4)
      → file w4 ≡ []
      → ((save_exports m w).0 ≡ ok tt) × (file (save_exports m w).1 ≡ lines_of user es)
  save_exports-file user es w w1 w2 w3 w4 removed read created listed empty = ground (
    arith,
    write_exports-file user es w4,
    save_exports-write user es w w1 w2 w3 w4 removed read created listed,
  )
