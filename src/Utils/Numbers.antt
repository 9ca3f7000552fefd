-- ===== src/Utils/Numbers.antt =====
-- `int(s)` of Python for a text, as targetd/main.py and targetd/fs.py use it. Underscores between the
-- digits and digits beyond ASCII are not modelled.
use targetd.Prelude.{ℕ, ◌==◌, Text, strip, parse_nat, Option, none, some, [], ◌∷◌, if◌then◌else◌}
use targetd.Utils.Errors.{ℤ, pos, neg, value_error, Result, ok, err}

abbrev of_digits : Option ℕ → (ℕ → ℤ) → Result ℤ
of_digits none sign = err value_error
of_digits (some n) sign = ok (sign n)

abbrev signed : Text → Result ℤ
signed [] = err value_error
signed (c ∷ s) =
    if c == b'-'
    then of_digits (parse_nat s) neg
    else if c == b'+'
    then of_digits (parse_nat s) pos
    else of_digits (parse_nat (c ∷ s)) pos

unfoldable pub int_of_text : Text → Result ℤ
int_of_text s = signed (strip s)
