-- ===== src/Nfs/Export/Conflicts.antt =====
-- The conflicting options of targetd/nfs.py, digit by digit.
use targetd.Prelude.{
  All, any-All, All-any, ℕ, ◌≡◌, Bool, true, false, ◌&&◌, ◌==◌, arith, bit_and, bit_or, any, ◌^◌,
  ap, List, [], ◌∷◌, ==_iff,
}
use targetd.Prelude.Bits.{bit, bit-bit_and, bit-bit_or, bit-pow, eq_of_bit}
use targetd.Nfs.Flags.{has_conflict}

bit_pair :
    (i j k s : ℕ)
    → bit i s ≡ true
    → bit j s ≡ true
    → bit k (bit_and s (bit_or (2 ^ i) (2 ^ j))) ≡ bit k (bit_or (2 ^ i) (2 ^ j))
bit_pair i j k s p q = ground (
  arith,
  bit-bit_and k s (bit_or (2 ^ i) (2 ^ j)),
  bit-bit_or k (2 ^ i) (2 ^ j),
  bit-pow i k,
  bit-pow j k,
)

-- A mask of two digits is met where both digits are set.
mask_met :
    (i j s : ℕ)
    → bit i s ≡ true
    → bit j s ≡ true
    → (bit_and s (bit_or (2 ^ i) (2 ^ j)) == bit_or (2 ^ i) (2 ^ j)) ≡ true
mask_met i j s p q = (==_iff _ _).1 (eq_of_bit _ _ (λ k. bit_pair i j k s p q))

-- and only there
mask_met_inv :
    (i j s : ℕ)
    → (bit_and s (bit_or (2 ^ i) (2 ^ j)) == bit_or (2 ^ i) (2 ^ j)) ≡ true
    → (bit i s ≡ true) × (bit j s ≡ true)
mask_met_inv i j s h =
    let e : bit_and s (bit_or (2 ^ i) (2 ^ j)) ≡ bit_or (2 ^ i) (2 ^ j) = (==_iff _ _).0 h in
    ground (
      arith,
      ap (bit i) e,
      ap (bit j) e,
      bit-bit_and i s (bit_or (2 ^ i) (2 ^ j)),
      bit-bit_and j s (bit_or (2 ^ i) (2 ^ j)),
      bit-bit_or i (2 ^ i) (2 ^ j),
      bit-bit_or j (2 ^ i) (2 ^ j),
      bit-pow i i,
      bit-pow j j,
      bit-pow i j,
      bit-pow j i,
    )

abbrev pub both : ℕ → ℕ → ℕ → Bool
both s i j = bit i s && bit j s

mask-both :
    (i j s : ℕ) → (bit_and s (bit_or (2 ^ i) (2 ^ j)) == bit_or (2 ^ i) (2 ^ j)) ≡ both s i j
mask-both i j s = ground (arith, mask_met i j s, mask_met_inv i j s)

-- The pairs of digits of `conflicting`.
abbrev pub pairs : List (ℕ × ℕ)
pairs = (1, 2) ∷ (15, 0) ∷ (3, 4) ∷ (14, 6) ∷ (13, 5) ∷ (10, 11) ∷ []

-- The test of `_validate_options` by the digits of the six pairs.
abbrev conflict_digits : ℕ → Bool
conflict_digits s = any (λ (i, j). both s i j) pairs

has_conflict-digits : (s : ℕ) → has_conflict s ≡ conflict_digits s
unfolding has_conflict
has_conflict-digits s = rw (
  mask-both 1 2 s,
  mask-both 15 0 s,
  mask-both 3 4 s,
  mask-both 14 6 s,
  mask-both 13 5 s,
  mask-both 10 11 s,
)

abbrev pub Free : ℕ → Type 0
Free s = All (λ p. both s p.0 p.1 ≡ false) pairs

pub has_conflict-Free : (s : ℕ) → has_conflict s ≡ false → Free s
has_conflict-Free s h = any-All (λ x. both s x.0 x.1) pairs (rw has_conflict-digits at h)

pub Free-has_conflict : (s : ℕ) → Free s → has_conflict s ≡ false
Free-has_conflict s f = rw has_conflict-digits (All-any (λ x. both s x.0 x.1) pairs f)
