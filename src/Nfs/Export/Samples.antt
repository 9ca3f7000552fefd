-- ===== src/Nfs/Export/Samples.antt =====
-- Runs of the parsers and printers of targetd/nfs.py.
use targetd.Prelude.{Text, codes, ◌≡◌, refl, List, [], ◌∷◌, map, Option, none, some, text_eq}
use targetd.Prelude.Split.{split, join}
use targetd.Prelude.Dict.{lookup, insert, update}
use targetd.Prelude.Bits.{and_not}
use targetd.Nfs.Export.{
  parse_export, export_file_format, init, parse_opt, parse_option_string, parse_host, new_export,
}
use targetd.Nfs.Export.{parse_export, export_file_format}

printed : List Text → Option (List Text)
unfolding parse_export export_file_format split join lookup insert update text_eq init parse_opt
    parse_option_string and_not parse_host new_export
printed tokens = elim (parse_export tokens) [
  | none ↦ none
  | some es ↦ some (map export_file_format es)
]

two_hosts :
    printed (map codes ("/srv" ∷ "-ro,sync" ∷ "a(rw,fsid=0)" ∷ "(async)" ∷ []))
    ≡ some (map codes ("/srv a(rw,sync,fsid=0)\n" ∷ "/srv *(ro,async)\n" ∷ []))
unfolding printed
two_hosts = refl

bad_option : printed (map codes ("/srv" ∷ "a(bogus)" ∷ [])) ≡ none
unfolding printed
bad_option = refl
