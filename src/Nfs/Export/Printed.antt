-- ===== src/Nfs/Export/Printed.antt =====
-- The option string that targetd/nfs.py prints: its syntax, and that it is read back.
use targetd.Prelude.{
  ap, ℕ, ◌≡◌, refl, ◌∙◌, false, ◌==◌, ◌<◌, arith, Text, has_code-append, bit_and, All, List, [],
  ◌∷◌, ◌++◌, map, Bool-cases, inl, inr,
}
use targetd.Prelude.Split.{join, split-join, split, Lacks}
use targetd.Prelude.Dict.{Dict, update_new, NodupKeys}
use targetd.Utils.Errors.{ok}
use targetd.Nfs.Flags.{bool_option}
use targetd.Nfs.Export.{
  Export, is_empty, parse_option_string, options_string, parse_options, set_names, options_list,
}
use targetd.Nfs.Export.Options.{
  bool_option-IsName, parse_options-set_names, IsPlainPair, has_code-printed_pair,
  parse_options-pairs, known_options, add_set-bool_option,
}

-- A property of every printed option: of the names, and of the pairs.
module _ (P : Text → Type 0) where
  All-set_names :
      (table : Dict ℕ) (options : ℕ) → All (λ (k, v). P k) table → All P (set_names table options)
  unfolding set_names
  All-set_names [] options h = tt
  All-set_names ((k, v) ∷ table) options h = elim (Bool-cases (bit_and options v == 0)) [
    | inl unset ↦ rw unset (All-set_names table options h.1)
    | inr set ↦ rw set (h.0, All-set_names table options h.1)
  ]

  All-pairs :
      (d : Dict Text)
      → All IsPlainPair d
      → ((k v : Text) → IsPlainPair (k, v) → P (k ++ b'=' ∷ v))
      → All P (map (λ (k, v). k ++ b'=' ∷ v) d)
  All-pairs [] h each = tt
  All-pairs ((k, v) ∷ d) h each = (each k v h.0, All-pairs d h.1 each)

  All-append : (xs ys : List Text) → All P xs → All P ys → All P (xs ++ ys)
  All-append [] ys p q = q
  All-append (x ∷ xs) ys p q = (p.0, All-append xs ys p.1 q)

  pub All-options_list :
      (e : Export)
      → All IsPlainPair e.key_value_options
      → All (λ (k, v). P k) bool_option
      → ((k v : Text) → IsPlainPair (k, v) → P (k ++ b'=' ∷ v))
      → All P (options_list e)
  unfolding options_list
  All-options_list e plain names each =
      All-append (set_names bool_option e.options)
        (map (λ (k, v). k ++ b'=' ∷ v) e.key_value_options)
        (All-set_names bool_option e.options names) (All-pairs e.key_value_options plain each)

abbrev NonEmpty : Text → Type 0
NonEmpty t = is_empty t ≡ false

options_list-Lacks_comma :
    (e : Export) → All IsPlainPair e.key_value_options → All (Lacks b',') (options_list e)
options_list-Lacks_comma e h =
    All-options_list (Lacks b',') e h (ground arith)
      λ k v p. rw (has_code-printed_pair b',' k v, p.1.0) p.1.1

options_list-Lacks_paren :
    (e : Export) → All IsPlainPair e.key_value_options → All (Lacks b'(') (options_list e)
options_list-Lacks_paren e h =
    All-options_list (Lacks b'(') e h (ground arith)
      λ k v p. rw (has_code-printed_pair b'(' k v, p.2.0) p.2.1

pair-NonEmpty : (k v : Text) → NonEmpty (k ++ b'=' ∷ v)
pair-NonEmpty [] v = refl
pair-NonEmpty (c ∷ k) v = refl

options_list-NonEmpty :
    (e : Export) → All IsPlainPair e.key_value_options → All NonEmpty (options_list e)
options_list-NonEmpty e h = All-options_list NonEmpty e h (ground arith) λ k v p. pair-NonEmpty k v

-- Parsing the printed options one by one.
parse_options-options_list :
    (e : Export)
    → e.options < known_options
    → All IsPlainPair e.key_value_options
    → NodupKeys e.key_value_options
    → parse_options (options_list e) 0 [] ≡ ok (e.options, e.key_value_options)
unfolding options_list
parse_options-options_list e known plain nodup =
    parse_options-set_names bool_option e.options _ 0 [] bool_option-IsName
    ∙ parse_options-pairs e.key_value_options _ [] plain
    ∙ rw (add_set-bool_option e.options known, update_new [] e.key_value_options nodup)

-- Joining parts that lack the comma, and parsing the text.
parse_option_string-join :
    (parts : List Text)
    → All (Lacks b',') parts
    → All NonEmpty parts
    → parse_option_string (join b',' parts) ≡ parse_options parts 0 []
unfolding parse_option_string join split
parse_option_string-join [] lacks full = unfold join parse_options in refl
parse_option_string-join ([] ∷ ps) lacks full = cc
parse_option_string-join ((c ∷ p) ∷ []) lacks full =
    ap (λ l. parse_options l 0 []) (split-join b',' (c ∷ p) [] lacks)
parse_option_string-join ((c ∷ p) ∷ q ∷ ps) lacks full =
    ap (λ l. parse_options l 0 []) (split-join b',' (c ∷ p) (q ∷ ps) lacks)

-- `_parse_opt` reads back the options that `options_string` writes, for an export whose option bits
-- all have a name and whose pairs have no key twice and none of the characters `=`, `,` and `(`.
pub parse_option_string-options_string :
    (e : Export)
    → e.options < known_options
    → All IsPlainPair e.key_value_options
    → NodupKeys e.key_value_options
    → parse_option_string (options_string e) ≡ ok (e.options, e.key_value_options)
unfolding options_string
parse_option_string-options_string e known plain nodup =
    parse_option_string-join (options_list e) (options_list-Lacks_comma e plain)
      (options_list-NonEmpty e plain)
    ∙ parse_options-options_list e known plain nodup

Lacks-join :
    (c sep : ℕ) (parts : List Text)
    → (sep == c) ≡ false
    → All (Lacks c) parts
    → Lacks c (join sep parts)
unfolding join
Lacks-join c sep [] h l = refl
Lacks-join c sep (p ∷ []) h l = l.0
Lacks-join c sep (p ∷ q ∷ ps) h l =
    rw (has_code-append c p (sep ∷ join sep (q ∷ ps)), l.0, h) (Lacks-join c sep (q ∷ ps) h l.1)

pub options_string-Lacks_paren :
    (e : Export) → All IsPlainPair e.key_value_options → Lacks b'(' (options_string e)
unfolding options_string
options_string-Lacks_paren e h =
    Lacks-join b'(' b',' (options_list e) refl (options_list-Lacks_paren e h)
