-- ===== src/Nfs/Octal.antt =====
-- `_chr_encode` of targetd/nfs.py: the octal numbers in a line of an exports file.
pub mod Laws
use targetd.Prelude.{
  ℕ, ◌+◌, ◌-◌, ◌*◌, Bool, true, false, ◌&&◌, ◌==◌, leb, Text, List, [], ◌∷◌, if◌then◌else◌,
}

-- The group of a match of `octal_nums_regex`.
pub record Octal : Type 0 where
  pub high : ℕ
  pub middle : ℕ
  pub low : ℕ

abbrev pub is_octal : ℕ → Bool
is_octal c = leb 48 c && leb c 55

-- `\\([0-7][0-7][0-7])`
abbrev pub is_number : ℕ → ℕ → ℕ → ℕ → Bool
is_number c d e f = c == b'\\' && (is_octal d && (is_octal e && is_octal f))

-- The matches that `re.finditer` gives.
unfoldable pub octals : Text → List Octal
octals (c ∷ d ∷ e ∷ f ∷ s) = elim (is_number c d e f) [
  | true ↦ record { high = d; middle = e; low = f } ∷ octals s
  | false ↦ octals (d ∷ e ∷ f ∷ s)
]
octals _ = []

-- `chr(int(m.group(1), 8))`
unfoldable pub chr_of : Octal → ℕ
chr_of o = ((o.high - 48) * 8 + (o.middle - 48)) * 8 + (o.low - 48)

abbrev pub is_escape : Octal → ℕ → ℕ → ℕ → ℕ → Bool
is_escape o c d e f = c == b'\\' && (d == o.high && (e == o.middle && f == o.low))

-- `s.replace("\\" + m.group(1), ...)`
unfoldable pub replace_octal : Octal → ℕ → Text → Text
replace_octal o v (c ∷ d ∷ e ∷ f ∷ s) = elim (is_escape o c d e f) [
  | true ↦ v ∷ replace_octal o v s
  | false ↦ c ∷ replace_octal o v (d ∷ e ∷ f ∷ s)
]
replace_octal o v s = s

-- The loop over the matches.
unfoldable pub replace_all : List Octal → Text → Text
unfolding replace_octal chr_of
replace_all [] s = s
replace_all (o ∷ os) s = replace_all os (replace_octal o (chr_of o) s)

unfoldable pub chr_encode : Text → Text
unfolding octals replace_all
chr_encode s = replace_all (octals s) s
