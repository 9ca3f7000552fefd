-- ===== src/Nfs/Listing.antt =====
-- The two readers of exports of targetd/nfs.py. The regular expression that takes the output of
-- exportfs apart and `shlex` are parameters: these are the loops over what they give.
use targetd.Prelude.{Text, none, some, List, [], ◌∷◌, ◌++◌}
use targetd.Utils.Errors.{Result, ok, ◌>>=◌}
use targetd.Nfs.Octal.{chr_encode}
use targetd.Nfs.Export.{Export, new_export, parse_opt, parse_export}

-- One match of `export_regex`: the groups 1, 2 and 3.
pub record Match : Type 0 where
  pub path : Text
  pub host : Text
  pub options : Text

-- The loop of `parse_exports_file`; a line that gives no export is skipped.
unfoldable pub parse_exports : List (List Text) → List Export
parse_exports [] = []
parse_exports (tokens ∷ lines) =
    let rest = parse_exports lines in
    elim (parse_export tokens) [ some exp ↦ exp ++ rest | none ↦ rest ]

-- The tokens of the lines of a file; `shlex` is `shlex.split(…, "#")`.
unfoldable pub tokens_of : (Text → Result (List Text)) → List Text → Result (List (List Text))
tokens_of shlex [] = ok []
tokens_of shlex (line ∷ lines) =
    shlex (chr_encode line) >>= λ tokens. tokens_of shlex lines >>= λ rest. ok (tokens ∷ rest)

-- The loop of `parse_exportfs_output`.
unfoldable pub parse_matches : List Match → Result (List Export)
parse_matches [] = ok []
parse_matches (m ∷ ms) = parse_opt m.options none >>= λ (bits, pairs).
    new_export m.host m.path bits (some pairs) >>= λ e. parse_matches ms >>= λ es. ok (e ∷ es)
