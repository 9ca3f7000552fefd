-- ===== src/Nfs/Export/Options.antt =====
-- What `_parse_opt` of targetd/nfs.py makes of the names and of the pairs that are printed.
use targetd.Prelude.{
  ℕ, zero, suc, ◌≡◌, refl, sym, ◌∙◌, not, ◌&&◌, ◌||◌, ◌==◌, if◌then◌else◌, ◌^◌, ◌<◌, arith, Text,
  text_eq, has_code, has_code-append, some, bit_and, bit_or, any, All, List, [], ◌∷◌, ◌++◌, map,
  Bool-cases, inl, inr,
}
use targetd.Prelude.Bits.{bit, bit-bit_or, bit-zero, bit_of_lt, bit_and-pow_iff, eq_of_bit}
use targetd.Prelude.Split.{split, Lacks, split_plain, split-append}
use targetd.Prelude.Dict.{Dict, lookup, insert, update}
use targetd.Utils.Errors.{ok}
use targetd.Nfs.Flags.{bool_option}
use targetd.Nfs.Export.{parse_options, set_names}

-- The options that `set_names` names, joined to `bits` one after the other.
abbrev add_set : Dict ℕ → ℕ → ℕ → ℕ
add_set [] options bits = bits
add_set ((k, v) ∷ table) options bits =
    add_set table options (if bit_and options v == 0 then bits else bit_or bits v)

-- A name stands for its option in `bool_option`, and has no character that the syntax uses.
abbrev IsName : Text × ℕ → Type 0
IsName (k, v) = (lookup k bool_option ≡ some v) × Lacks b'=' k × Lacks b',' k × Lacks b'(' k

pub bool_option-IsName : All IsName bool_option
unfolding lookup text_eq
bool_option-IsName = ground arith

parse_options_name :
    (k : Text) (v : ℕ) (rest : List Text) (bits : ℕ) (pairs : Dict Text)
    → IsName (k, v)
    → parse_options (k ∷ rest) bits pairs ≡ parse_options rest (bit_or bits v) pairs
unfolding parse_options
parse_options_name k v rest bits pairs h = rw (h.1, h.0)

pub parse_options-set_names :
    (table : Dict ℕ) (options : ℕ) (rest : List Text) (bits : ℕ) (pairs : Dict Text)
    → All IsName table
    → parse_options (set_names table options ++ rest) bits pairs
      ≡ parse_options rest (add_set table options bits) pairs
unfolding set_names
parse_options-set_names [] options rest bits pairs h = refl
parse_options-set_names ((k, v) ∷ table) options rest bits pairs h =
    elim (Bool-cases (bit_and options v == 0)) [
      | inl unset ↦ rw unset (parse_options-set_names table options rest bits pairs h.1)
      | inr set ↦ rw set (
          parse_options_name k v (set_names table options ++ rest) bits pairs h.0
          ∙ parse_options-set_names table options rest (bit_or bits v) pairs h.1)
    ]

abbrev printed_pair : Text × Text → Text
printed_pair (k, v) = k ++ b'=' ∷ v

-- A pair of texts that the syntax of options can carry.
abbrev pub IsPlainPair : Text × Text → Type 0
IsPlainPair (k, v) =
    (Lacks b'=' k × Lacks b'=' v) × (Lacks b',' k × Lacks b',' v) × (Lacks b'(' k × Lacks b'(' v)

pub has_code-printed_pair :
    (c : ℕ) (k v : Text)
    → has_code c (k ++ b'=' ∷ v) ≡ (has_code c k || (b'=' == c || has_code c v))
has_code-printed_pair c k v = has_code-append c k (b'=' ∷ v)

split-printed_pair :
    (k v : Text) → Lacks b'=' k → Lacks b'=' v → split b'=' (k ++ b'=' ∷ v) ≡ k ∷ v ∷ []
split-printed_pair k v p q = split-append b'=' k v p ∙ rw (split_plain b'=' v q)

parse_options_pair :
    (k v : Text) (rest : List Text) (bits : ℕ) (pairs : Dict Text)
    → IsPlainPair (k, v)
    → parse_options (printed_pair (k, v) ∷ rest) bits pairs
      ≡ parse_options rest bits (insert k v pairs)
unfolding parse_options
parse_options_pair k v rest bits pairs h =
    rw (has_code-printed_pair b'=' k v, h.0.0, split-printed_pair k v h.0.0 h.0.1)

pub parse_options-pairs :
    (d : Dict Text) (bits : ℕ) (pairs : Dict Text)
    → All IsPlainPair d
    → parse_options (map (λ (k, v). k ++ b'=' ∷ v) d) bits pairs ≡ ok (bits, update pairs d)
unfolding parse_options update
parse_options-pairs [] bits pairs h = refl
parse_options-pairs ((k, v) ∷ d) bits pairs h =
    parse_options_pair k v (map (λ (k, v). k ++ b'=' ∷ v) d) bits pairs h.0
    ∙ parse_options-pairs d bits (insert k v pairs) h.1

-- Digit by digit, `add_set` collects the digits of the named options.
bit-add_set :
    (k : ℕ) (table : Dict ℕ) (options bits : ℕ)
    → bit k (add_set table options bits)
      ≡ (bit k bits || any (λ (n, v). bit k v && not (bit_and options v == 0)) table)
bit-add_set k [] options bits = ground arith
bit-add_set k ((n, v) ∷ table) options bits = ground (
  arith,
  bit-add_set k table options bits,
  bit-add_set k table options (bit_or bits v),
  bit-bit_or k bits v,
)

-- All the options that have a name.
abbrev pub known_options : ℕ
known_options = 2 ^ 17

pub collected :
    (k options : ℕ)
    → options < known_options
    → any (λ (n, v). bit k v && not (bit_and options v == 0)) bool_option ≡ bit k options
unfolding bit
collected zero o h = ground (arith, bit_and-pow_iff o 0)
collected (suc zero) o h = ground (arith, bit_and-pow_iff o 1)
collected (suc (suc zero)) o h = ground (arith, bit_and-pow_iff o 2)
collected (suc (suc (suc zero))) o h = ground (arith, bit_and-pow_iff o 3)
collected (suc (suc (suc (suc zero)))) o h = ground (arith, bit_and-pow_iff o 4)
collected (suc (suc (suc (suc (suc zero))))) o h = ground (arith, bit_and-pow_iff o 5)
collected (suc (suc (suc (suc (suc (suc zero)))))) o h = ground (arith, bit_and-pow_iff o 6)
collected (suc (suc (suc (suc (suc (suc (suc zero))))))) o h = ground (arith, bit_and-pow_iff o 7)
collected (suc (suc (suc (suc (suc (suc (suc (suc zero)))))))) o h =
    ground (arith, bit_and-pow_iff o 8)
collected (suc (suc (suc (suc (suc (suc (suc (suc (suc zero))))))))) o h =
    ground (arith, bit_and-pow_iff o 9)
collected (suc (suc (suc (suc (suc (suc (suc (suc (suc (suc zero)))))))))) o h =
    ground (arith, bit_and-pow_iff o 10)
collected (suc (suc (suc (suc (suc (suc (suc (suc (suc (suc (suc zero))))))))))) o h =
    ground (arith, bit_and-pow_iff o 11)
collected (suc (suc (suc (suc (suc (suc (suc (suc (suc (suc (suc (suc zero)))))))))))) o h =
    ground (arith, bit_and-pow_iff o 12)
collected (suc (suc (suc (suc (suc (suc (suc (suc (suc (suc (suc (suc (suc zero))))))))))))) o h =
    ground (arith, bit_and-pow_iff o 13)
collected (suc (suc (suc (suc (suc (suc (suc (suc (suc (suc (suc (suc (suc (suc zero)))))))))))))) o
      h =
    ground (arith, bit_and-pow_iff o 14)
collected
      (suc (suc (suc (suc (suc (suc (suc (suc (suc (suc (suc (suc (suc (suc (suc zero)))))))))))))))
      o h =
    ground (arith, bit_and-pow_iff o 15)
collected
      (suc (
        suc
          (suc (suc (suc (suc (suc (suc (suc (suc (suc (suc (suc (suc (suc (suc zero))))))))))))))))
      o h =
    ground (arith, bit_and-pow_iff o 16)
collected
      (suc (
        suc (
          suc
            (suc (suc (suc (suc (suc (suc (suc (suc (suc (suc (suc (suc (suc (suc k)))))))))))))))))
      o h =
    rw (bit-zero k) (
      sym (
        bit_of_lt
          (suc (
            suc (
              suc (
                suc (
                  suc (suc (suc (suc (suc (suc (suc (suc (suc (suc (suc (suc (suc k)))))))))))))))))
          17 o h (omega arith)))

pub add_set-bool_option :
    (options : ℕ) → options < known_options → add_set bool_option options 0 ≡ options
add_set-bool_option options h = eq_of_bit _ options digit
  where
    digit : (k : ℕ) → bit k (add_set bool_option options 0) ≡ bit k options
    digit k = ground (arith, bit-add_set k bool_option options 0, collected k options h, bit-zero k)
