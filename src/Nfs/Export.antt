-- ===== src/Nfs/Export.antt =====
-- Class `Export` of targetd/nfs.py: its constructor, the parsers and the printers.
mod Samples
mod Conflicts
pub mod Overrides
pub mod Merge
mod Options
pub mod Printed
pub mod RoundTrip
pub mod Valid
use targetd.Prelude.{
  ℕ, ◌-◌, List, [], ◌∷◌, ◌++◌, Text, codes, text_eq, has_code, member, starts_with, drop_text, any,
  Bool, true, false, not, ◌&&◌, ◌||◌, ◌==◌, if◌then◌else◌, Option, none, some, bit_or, bit_and, map,
}
use targetd.Prelude.Bits.{and_not}
use targetd.Prelude.Split.{split, join}
use targetd.Prelude.Dict.{Dict, lookup, insert, update, keys}
use targetd.Utils.Errors.{
  Exception, value_error, key_error, index_error, Result, ok, err, ◌>>=◌, ◌>>◌, raise_if,
}
use targetd.Nfs.Flags.{
  bool_option, key_pair, has_conflict, secure, read_write, read_only, sync, async, no_wdelay,
  nohide, root_squash, no_root_squash, wdelay, hide, insecure,
}

pub record Export : Type 0 where
  pub host : Text
  pub path : Text
  pub options : ℕ
  pub key_value_options : Dict Text

unfoldable pub validate_options : ℕ → Result ℕ
unfolding has_conflict
validate_options options = if has_conflict options then err value_error else ok options

-- `None` and an empty dict are both read as no options.
unfoldable pub validate_key_pairs : Option (Dict Text) → Result (Dict Text)
validate_key_pairs none = ok []
validate_key_pairs (some kp) =
    if any (λ k. not (member k key_pair)) (keys kp) then err value_error else ok kp

-- `Export.__init__`
unfoldable pub new_export : Text → Text → ℕ → Option (Dict Text) → Result Export
unfolding validate_options validate_key_pairs
new_export host path bit_wise_options key_value_options = do
  options ← validate_options bit_wise_options
  pairs ← validate_key_pairs key_value_options
  ok (record {
    host = if text_eq host (codes "<world>") then codes "*" else host;
    path = path;
    options = options;
    key_value_options = pairs;
  })

-- `key, value = o.split("=")`
abbrev pub two_parts : List Text → Result (Text × Text)
two_parts (key ∷ value ∷ []) = ok (key, value)
two_parts _ = err value_error

abbrev pub required : Option ℕ → Result ℕ
required none = err key_error
required (some v) = ok v

-- The loop of `_parse_opt` over the options, with `bits` and `pairs`.
unfoldable pub parse_options : List Text → ℕ → Dict Text → Result (ℕ × Dict Text)
parse_options [] bits pairs = ok (bits, pairs)
parse_options (o ∷ options) bits pairs =
    let next =
      (if has_code b'=' o
        then (two_parts (split b'=' o) >>= λ (key, value). ok (bits, insert key value pairs))
        else (required (lookup o bool_option) >>= λ v. ok (bit_or bits v, pairs))) in
    next >>= λ (bits', pairs'). parse_options options bits' pairs'

-- `_parse_opt`
unfoldable pub parse_option_string : Text → Result (ℕ × Dict Text)
unfolding parse_options
parse_option_string [] = ok (0, [])
parse_option_string (c ∷ s) = parse_options (split b',' (c ∷ s)) 0 []

-- `_override`: an option of `test` removes its opposite from `combined`.
unfoldable pub override : ℕ → ℕ → ℕ → ℕ → ℕ
override combined test opt_a opt_b =
    let combined' = (if bit_and test opt_a == 0 then combined else and_not combined opt_b) in
    if bit_and test opt_b == 0 then combined' else and_not combined' opt_a

-- The calls of `_override` that `parse_opt` makes on `gbit | sbit`.
unfoldable pub cull : ℕ → ℕ → ℕ
unfolding override
cull gbit sbit =
    let culled = bit_or gbit sbit in
    let culled = override culled sbit read_only read_write in
    let culled = override culled sbit insecure secure in
    let culled = override culled sbit sync async in
    let culled = override culled sbit hide nohide in
    let culled = override culled sbit wdelay no_wdelay in
    override culled sbit root_squash no_root_squash

unfoldable pub parse_opt : Text → Option Text → Result (ℕ × Dict Text)
unfolding validate_options cull
parse_opt global_options none = parse_option_string global_options
parse_opt global_options (some specific_options) = do
  (gbit, gpairs) ← parse_option_string global_options
  (sbit, spairs) ← parse_option_string specific_options
  _ ← validate_options gbit
  _ ← validate_options sbit
  ok (cull gbit sbit, update gpairs spairs)

-- `t[:-1]`
unfoldable pub init : Text → Text
init [] = []
init (c ∷ []) = []
init (c ∷ d ∷ s) = c ∷ init (d ∷ s)

-- `t[1:]`
abbrev pub rest_of : Text → Text
rest_of [] = []
rest_of (c ∷ s) = s

-- `t[0]`
abbrev pub first_of_text : Text → Result ℕ
first_of_text [] = err index_error
first_of_text (c ∷ s) = ok c

abbrev pub is_empty : Text → Bool
is_empty [] = true
is_empty (c ∷ s) = false

-- The host and the options of a token; one with no `)` keeps the options that were read last.
-- The test `"(" and ")" in t` of the source is a test for `)` alone.
unfoldable pub parse_host : Text → Text → Result (Text × Text)
parse_host t options =
    if has_code b')' t
    then first_of_text t >>= (λ c.
      if c == b'(' then ok (codes "*", rest_of (init t)) else two_parts (split b'(' (init t)))
    else ok (t, options)

-- The loop of `parse_export` over the tokens behind the path.
unfoldable pub parse_hosts : Text → List Text → Text → Text → Result (List Export)
parse_hosts path [] global_options options = ok []
parse_hosts path (t ∷ tokens) global_options options = first_of_text t >>= λ c.
    let skip = parse_hosts path tokens (rest_of t) options in
    let add =
      (parse_host t options >>= λ (host, options').
      parse_opt global_options (some options') >>= λ (bits, pairs).
      new_export host path bits (some pairs) >>= λ e.
      parse_hosts path tokens global_options options' >>= λ es. ok (e ∷ es)) in
    if c == b'-' && is_empty global_options then skip else add

-- `except Exception: return None`
abbrev pub to_option {ℓ} : {A : Type ℓ} → Result A → Option A
to_option (ok a) = some a
to_option (err e) = none

unfoldable pub parse_export : List Text → Option (List Export)
unfolding parse_hosts
parse_export [] = some []
parse_export (path ∷ []) = to_option (new_export (codes "*") path 0 none >>= λ e. ok (e ∷ []))
parse_export (path ∷ t ∷ tokens) = to_option (parse_hosts path (t ∷ tokens) [] [])

-- The names of the table whose bit is among the options.
unfoldable pub set_names : Dict ℕ → ℕ → List Text
set_names [] options = []
set_names ((k, v) ∷ table) options =
    let names = set_names table options in if bit_and options v == 0 then names else k ∷ names

unfoldable pub options_list : Export → List Text
unfolding set_names
options_list e =
    set_names bool_option e.options ++ map (λ (k, v). k ++ b'=' ∷ v) e.key_value_options

unfoldable pub options_string : Export → Text
unfolding options_list
options_string e = join b',' (options_list e)

unfoldable pub double_quote_space : Text → Text
double_quote_space s = if has_code b' ' s then b'"' ∷ (s ++ b'"' ∷ []) else s

unfoldable pub export_file_format : Export → Text
unfolding double_quote_space options_string
export_file_format e =
    double_quote_space e.path
    ++ (b' ' ∷ (e.host ++ (b'(' ∷ (options_string e ++ (b')' ∷ (codes "\n"))))))

-- `__eq__`
unfoldable pub same_export : Export → Export → Bool
same_export a b = text_eq a.path b.path && text_eq a.host b.host
