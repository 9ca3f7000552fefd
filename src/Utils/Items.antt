-- ===== src/Utils/Items.antt =====
-- `e[n]` for a list.
use targetd.Prelude.{ℕ, zero, suc, List, [], ◌∷◌}
use targetd.Utils.Errors.{Result, ok, err, index_error}

unfoldable pub item {ℓ} : {A : Type ℓ} → ℕ → List A → Result A
item n [] = err index_error
item zero (x ∷ xs) = ok x
item (suc n) (x ∷ xs) = item n xs
