-- ===== src/Nfs/Export/RoundTrip.antt =====
-- A line of an export file: what `export_file_format` of targetd/nfs.py writes, `parse_export`
-- reads back from its words.
use targetd.Prelude.{
  ℕ, ◌≡◌, refl, sym, ◌∙◌, ap, true, false, not, ◌==◌, ◌<◌, arith, Text, codes, text_eq, has_code,
  has_code-append, some, [], ◌∷◌, ◌++◌, any, All, member, append_assoc,
}
use targetd.Prelude.Bits.{bit-zero, eq_of_bit}
use targetd.Prelude.Split.{split, Lacks, split_plain, split-append}
use targetd.Prelude.Dict.{NodupKeys, keys, update_new}
use targetd.Utils.Errors.{ok}
use targetd.Nfs.Flags.{has_conflict, key_pair}
use targetd.Nfs.Export.{
  Export, first_of_text, init, cull, parse_opt, parse_option_string, parse_host, parse_export,
  new_export, options_string,
}
use targetd.Nfs.Export.Overrides.{bit-cull}
use targetd.Nfs.Export.Printed.{parse_option_string-options_string, options_string-Lacks_paren}
use targetd.Nfs.Export.Options.{IsPlainPair, known_options}

-- The exports whose line can be read back: what the constructor checks, bits that have a name, a
-- host that is no option group and not the mark of the constructor, and pairs with none of the
-- characters of the syntax.
pub record IsPrintable (e : Export) : Type 0 where
  pub named : e.options < known_options
  pub consistent : has_conflict e.options ≡ false
  pub valid_keys : any (λ k. not (member k key_pair)) (keys e.key_value_options) ≡ false
  pub nodup : NodupKeys e.key_value_options
  pub plain : All IsPlainPair e.key_value_options
  pub host_plain : Lacks b'(' e.host
  pub host_starts : (c : ℕ) × (r : Text) × (e.host ≡ c ∷ r) × ((c == b'-') ≡ false)
  pub host_not_world : text_eq e.host (codes "<world>") ≡ false

-- The word that `export_file_format` writes behind the path and a space.
abbrev pub host_word : Export → Text
host_word e = e.host ++ (b'(' ∷ (options_string e ++ (b')' ∷ [])))

cull-zero : (s : ℕ) → has_conflict s ≡ false → cull 0 s ≡ s
cull-zero s h = eq_of_bit (cull 0 s) s (λ k. ground (arith, bit-cull k 0 s h, bit-zero k))

parse_opt-options_string :
    (e : Export)
    → IsPrintable e
    → parse_opt [] (some (options_string e)) ≡ ok (e.options, e.key_value_options)
unfolding parse_opt parse_option_string
parse_opt-options_string e p = rw (
  parse_option_string-options_string e p.named p.plain p.nodup,
  p.consistent,
  cull-zero e.options p.consistent,
  update_new [] e.key_value_options p.nodup,
)

pub init_last : (s : Text) (c : ℕ) → init (s ++ c ∷ []) ≡ s
unfolding init
init_last [] c = refl
init_last (d ∷ []) c = refl
init_last (d ∷ b ∷ s) c = ap (λ t. d ∷ t) (init_last (b ∷ s) c)

pub has_code_last : (s : Text) (c : ℕ) → has_code c (s ++ c ∷ []) ≡ true
has_code_last s c = ground (arith, has_code-append c s (c ∷ []))

-- The word is no option group, since its host is not empty.
body-split :
    (e : Export)
    → IsPrintable e
    → split b'(' (e.host ++ b'(' ∷ options_string e) ≡ e.host ∷ options_string e ∷ []
body-split e p =
    split-append b'(' e.host (options_string e) p.host_plain
    ∙ ap (λ l. e.host ∷ l)
        (split_plain b'(' (options_string e) (options_string-Lacks_paren e p.plain))

host_word-body : (e : Export) → host_word e ≡ (e.host ++ b'(' ∷ options_string e) ++ b')' ∷ []
host_word-body e = sym (append_assoc e.host (b'(' ∷ options_string e) (b')' ∷ []))

host_word-has_code : (e : Export) → has_code b')' (host_word e) ≡ true
host_word-has_code e = rw host_word-body (has_code_last (e.host ++ b'(' ∷ options_string e) b')')

init-host_word : (e : Export) → init (host_word e) ≡ e.host ++ b'(' ∷ options_string e
init-host_word e = rw host_word-body (init_last (e.host ++ b'(' ∷ options_string e) b')')

first-host_word :
    (e : Export) (c : ℕ) (r : Text) → e.host ≡ c ∷ r → first_of_text (host_word e) ≡ ok c
first-host_word e c r h = rw h

pub starts_not_paren : (c : ℕ) (r : Text) → Lacks b'(' (c ∷ r) → (c == b'(') ≡ false
starts_not_paren c r h = ground arith

parse_host-host_word :
    (e : Export) (o : Text)
    → IsPrintable e
    → parse_host (host_word e) o ≡ ok (e.host, options_string e)
unfolding parse_host
parse_host-host_word e o p =
    let (c, r, starts, _) = p.host_starts in
    rw (
      host_word-has_code e,
      first-host_word e c r starts,
      starts_not_paren c r (rw starts at p.host_plain),
      init-host_word e,
      body-split e p,
    )

new_export-same :
    (e : Export)
    → IsPrintable e
    → new_export e.host e.path e.options (some e.key_value_options) ≡ ok e
unfolding new_export
new_export-same e p = rw (p.consistent, p.valid_keys, p.host_not_world)

-- For an export that the syntax can carry, `parse_export` of the path and the host word that
-- `export_file_format` writes is exactly that export.
pub parse_export-host_word :
    (e : Export) → IsPrintable e → parse_export (e.path ∷ host_word e ∷ []) ≡ some (e ∷ [])
unfolding parse_export
parse_export-host_word e p =
    let (c, r, starts, not_dash) = p.host_starts in
    rw (
      first-host_word e c r starts,
      not_dash,
      parse_host-host_word e [] p,
      parse_opt-options_string e p,
      new_export-same e p,
    )
