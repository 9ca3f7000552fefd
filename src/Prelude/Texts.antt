-- ===== src/Prelude/Texts.antt =====
-- Python's `str` as the list of its code points, with the methods that the program calls.
use Prim.Native.Nat.{ℕ, zero, suc, ◌+◌, ◌-◌, ◌*◌, ◌/◌, ◌%◌, ◌<◌}
use Prim.Native.Char.{code}
use Prim.Native.String.{String}
use mathlib.Core.Path.{◌≡◌, refl}
use mathlib.Core.Logic.{◌↔◌, ◌≢◌, inl, inr}
use mathlib.Core.Bool.{Bool, true, false, ◌||◌, ◌&&◌}
use mathlib.Core.List.{List, [], ◌∷◌, ◌++◌, map, reverse}
use mathlib.Core.Option.{Option, none, some}
use native.Mathlib.Omega.{arith}
use targetd.Prelude.Tests.{leb, ◌==◌, if◌then◌else◌, any, Bool-cases}

abbrev pub Text : Type 0
Text = List ℕ

-- A literal.
abbrev pub codes : String → Text
codes String.[] = []
codes (String.◌∷◌ c s) = code c ∷ codes s

-- `s == t`
unfoldable pub text_eq : Text → Text → Bool
text_eq [] [] = true
text_eq [] (d ∷ t) = false
text_eq (c ∷ s) [] = false
text_eq (c ∷ s) (d ∷ t) = c == d && text_eq s t

pub text_eq_refl : (s : Text) → text_eq s s ≡ true
unfolding text_eq
text_eq_refl [] = refl
text_eq_refl (c ∷ s) = ground (arith, text_eq_refl s)

pub eq_of_text_eq : (s t : Text) → text_eq s t ≡ true → s ≡ t
unfolding text_eq
eq_of_text_eq [] [] h = refl
eq_of_text_eq [] (d ∷ t) h = cc
eq_of_text_eq (c ∷ s) [] h = cc
eq_of_text_eq (c ∷ s) (d ∷ t) h = ground (arith, eq_of_text_eq s t)

pub text_eq_iff : (s t : Text) → (text_eq s t ≡ true) ↔ (s ≡ t)
text_eq_iff s t = (eq_of_text_eq s t, λ e. rw e (text_eq_refl t))

-- `x in xs` for a list of texts.
abbrev pub member : Text → List Text → Bool
member x = any (λ y. text_eq x y)

-- `c in s` for a text of one character.
abbrev pub has_code : ℕ → Text → Bool
has_code c = any (λ x. x == c)

-- `s.startswith(p)`
unfoldable pub starts_with : Text → Text → Bool
starts_with s [] = true
starts_with [] (d ∷ p) = false
starts_with (c ∷ s) (d ∷ p) = c == d && starts_with s p

-- The text behind as many characters as the first argument has.
unfoldable pub drop_text : Text → Text → Text
drop_text [] s = s
drop_text (d ∷ p) [] = []
drop_text (d ∷ p) (c ∷ s) = drop_text p s

-- `s.replace(p, "", 1)`
unfoldable pub remove_first : Text → Text → Text
unfolding starts_with drop_text
remove_first [] p = []
remove_first (c ∷ s) p =
    let rest = remove_first s p in if starts_with (c ∷ s) p then drop_text p (c ∷ s) else c ∷ rest

-- `s.replace(a, b)` for texts of one character.
unfoldable pub replace_code : ℕ → ℕ → Text → Text
replace_code a b s = map (λ c. if c == a then b else c) s

pub starts_with-append : (p s : Text) → starts_with (p ++ s) p ≡ true
unfolding starts_with
starts_with-append [] [] = refl
starts_with-append [] (c ∷ s) = refl
starts_with-append (d ∷ p) s = ground (arith, starts_with-append p s)

pub drop_text-append : (p s : Text) → drop_text p (p ++ s) ≡ s
unfolding drop_text
drop_text-append [] s = refl
drop_text-append (d ∷ p) s = drop_text-append p s

pub remove_first-append : (c : ℕ) (p s : Text) → remove_first (c ∷ p ++ s) (c ∷ p) ≡ s
unfolding remove_first
remove_first-append c p s = rw (starts_with-append p s, drop_text-append p s) (ground arith)

pub has_code-append : (c : ℕ) (s t : Text) → has_code c (s ++ t) ≡ (has_code c s || has_code c t)
has_code-append c [] t = refl
has_code-append c (x ∷ s) t = ground (arith, has_code-append c s t)

-- Replacing a character and then replacing it back gives the text that had none of the second.
pub replace_code_back :
    (a b : ℕ) (s : Text) → has_code b s ≡ false → replace_code b a (replace_code a b s) ≡ s
unfolding replace_code
replace_code_back a b [] h = refl
replace_code_back a b (c ∷ s) h = ground (arith, replace_code_back a b s)

pub has_code-replace_code :
    (a b c : ℕ) (s : Text) → c ≢ b → has_code c s ≡ false → has_code c (replace_code a b s) ≡ false
unfolding replace_code
has_code-replace_code a b c [] n h = refl
has_code-replace_code a b c (x ∷ s) n h = ground (arith, has_code-replace_code a b c s)

-- `p in s`
unfoldable pub has_text : Text → Text → Bool
unfolding starts_with
has_text p [] = starts_with [] p
has_text p (c ∷ s) = starts_with (c ∷ s) p || has_text p s

-- A prefix has no character that the text lacks.
pub has_code_of_prefix :
    (c : ℕ) (s p : Text) → starts_with s p ≡ true → has_code c p ≡ true → has_code c s ≡ true
unfolding starts_with
has_code_of_prefix c s [] h k = cc
has_code_of_prefix c [] (d ∷ p) h k = cc
has_code_of_prefix c (e ∷ s) (d ∷ p) h k = ground (arith, has_code_of_prefix c s p)

-- The white space that `strip` removes, of the ASCII characters.
abbrev pub is_space : ℕ → Bool
is_space c = c == 32 || leb 9 c && leb c 13 || leb 28 c && leb c 31

unfoldable pub lstrip : Text → Text
lstrip [] = []
lstrip (c ∷ s) = let rest = lstrip s in if is_space c then rest else c ∷ s

-- `s.strip()`
unfoldable pub strip : Text → Text
unfolding lstrip
strip s = reverse (lstrip (reverse (lstrip s)))

-- `int(s)` for a text of decimal digits; no other text that Python accepts is met.
abbrev pub is_digit : ℕ → Bool
is_digit c = leb b'0' c && leb c b'9'

unfoldable pub digits_value : ℕ → Text → Option ℕ
digits_value n [] = some n
digits_value n (c ∷ s) = if is_digit c then digits_value (n * 10 + (c - b'0')) s else none

unfoldable pub parse_nat : Text → Option ℕ
unfolding digits_value
parse_nat [] = none
parse_nat (c ∷ s) = digits_value 0 (c ∷ s)

-- `str(n)`. Each step divides by ten, so fuel above the number is enough.
decimal_digits : ℕ → ℕ → Text → Text
decimal_digits zero n acc = acc
decimal_digits (suc f) n acc =
    let d = (n % 10 + b'0') ∷ acc in
    let rest = decimal_digits f (n / 10) d in if n / 10 == 0 then d else rest

unfoldable pub decimal : ℕ → Text
unfolding decimal_digits
decimal n = decimal_digits (suc n) n []

-- More fuel than the number gives the same digits.
decimal_digits_enough :
    (f g n : ℕ) (acc : Text) → n < f → n < g → decimal_digits f n acc ≡ decimal_digits g n acc
unfolding decimal_digits
decimal_digits_enough zero g n acc h k = absurd (omega arith)
decimal_digits_enough (suc f) zero n acc h k = absurd (omega arith)
decimal_digits_enough (suc f) (suc g) n acc h k = elim (Bool-cases (n / 10 == 0)) [
  | inl last ↦ rw last
  | inr more ↦ rw more (
      decimal_digits_enough f g (n / 10) ((n % 10 + b'0') ∷ acc) (ground (arith, more))
        (ground (arith, more)))
]

-- The fuel of `decimal` is enough.
decimal_enough : (f n : ℕ) → n < f → decimal_digits f n [] ≡ decimal n
unfolding decimal
decimal_enough f n h = decimal_digits_enough f (suc n) n [] h (omega arith)
