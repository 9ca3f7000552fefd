-- ===== src/Utils/Names.antt =====
-- `name_check` of targetd/utils.py.
use targetd.Prelude.{ℕ, Bool, true, false, ◌&&◌, ◌||◌, ◌==◌, leb, Text, [], ◌∷◌, if◌then◌else◌}
use targetd.Utils.Errors.{Result, ok, err, targetd_error, invalid_argument}

abbrev pub in_name : ℕ → Bool
in_name c =
    leb b'a' c && leb c b'z'
    || (leb b'A' c && leb c b'Z' || (leb b'0' c && leb c b'9' || (c == b'_' || c == b'-')))

-- `[a-zA-Z0-9_-]+$`: the `$` of Python also matches before a final line feed.
unfoldable pub name_matches : Text → Bool
name_matches [] = false
name_matches (c ∷ []) = in_name c
name_matches (c ∷ d ∷ s) =
    let rest = name_matches (d ∷ s) in in_name c && (rest || d == 10 && is_nil s)
  where
    is_nil : Text → Bool
    is_nil [] = true
    is_nil (_ ∷ _) = false

unfoldable pub name_check : Text → Result (Unit {0})
unfolding name_matches
name_check name = if name_matches name then ok tt else err (targetd_error invalid_argument)
