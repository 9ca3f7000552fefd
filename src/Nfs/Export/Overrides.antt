-- ===== src/Nfs/Export/Overrides.antt =====
-- `parse_opt` of targetd/nfs.py digit by digit: how specific options override global ones.
use targetd.Prelude.{
  zero, suc, ◌≤◌, sym, ◌∙◌, ◌≢◌, ℕ, ◌≡◌, Bool, true, false, not, ◌&&◌, ◌||◌, ◌==◌, if◌then◌else◌,
  Option, none, some, arith, bit_and, bit_or, ◌^◌,
}
use targetd.Prelude.Bits.{and_not, bit, bit-bit_or, bit-and_not, bit-pow, bit_and-pow_iff}
use targetd.Nfs.Flags.{has_conflict}
use targetd.Nfs.Export.{override, cull}
use targetd.Nfs.Export.Conflicts.{Free, has_conflict-Free}

-- The digit of the option that `parse_opt` takes for the opposite of the option of digit `k`, if there
-- is one. It has none for `all_squash` and `no_all_squash`, which exports(5) has as opposites.
abbrev pub opposite : ℕ → Option ℕ
opposite k =
    if k == 0
    then some 15
    else if k == 15
    then some 0
    else if k == 1
    then some 2
    else if k == 2
    then some 1
    else if k == 3
    then some 4
    else if k == 4
    then some 3
    else if k == 6
    then some 14
    else if k == 14
    then some 6
    else if k == 5
    then some 13
    else if k == 13
    then some 5
    else if k == 10
    then some 11
    else if k == 11
    then some 10
    else none

-- The options `s` hold the opposite of option `k`.
abbrev overridden : ℕ → ℕ → Bool
overridden s k = elim (opposite k) [ none ↦ false | some j ↦ bit j s ]

abbrev removed : ℕ → ℕ → ℕ → ℕ → ℕ
removed c t a b = if bit_and t a == 0 then c else and_not c b

bit-removed :
    (k c t i j : ℕ) → bit k (removed c t (2 ^ i) (2 ^ j)) ≡ (bit k c && not (bit i t && k == j))
bit-removed k c t i j = ground (arith, bit_and-pow_iff t i, bit-and_not k c (2 ^ j), bit-pow j k)

bit-override :
    (k c t i j : ℕ)
    → bit k (override c t (2 ^ i) (2 ^ j))
      ≡ ((bit k c && not (bit i t && k == j)) && not (bit j t && k == i))
unfolding override
bit-override k c t i j =
    rw (bit-removed k (removed c t (2 ^ i) (2 ^ j)) t j i, bit-removed k c t i j)

-- Every digit of the merged options.
abbrev pub merged : ℕ → ℕ → ℕ → Bool
merged g s k = bit k s || (bit k g && not (overridden s k))

-- What one call of `_override` with the digits `i` and `j` lets through.
abbrev keeps : ℕ → ℕ → ℕ → ℕ → Bool
keeps s k i j = if k == j then not (bit i s) else if k == i then not (bit j s) else true

bit-override_keeps :
    (k c t i j : ℕ) → i ≢ j → bit k (override c t (2 ^ i) (2 ^ j)) ≡ (keeps t k i j && bit k c)
bit-override_keeps k c t i j ne = ground (arith, bit-override k c t i j)

bit-cull_factors :
    (k g s : ℕ)
    → bit k (cull g s) ≡ (
        keeps s k 10 11
        && (keeps s k 13 5
            && (keeps s k 14 6
                && (keeps s k 3 4 && (keeps s k 15 0 && (keeps s k 2 1 && bit k (bit_or g s)))))))
unfolding cull
bit-cull_factors k g s = rw (
  bit-override_keeps k _ s 10 11 (omega arith),
  bit-override_keeps k _ s 13 5 (omega arith),
  bit-override_keeps k _ s 14 6 (omega arith),
  bit-override_keeps k _ s 3 4 (omega arith),
  bit-override_keeps k _ s 15 0 (omega arith),
  bit-override_keeps k _ s 2 1 (omega arith),
)

keeps_other : (s k i j : ℕ) → k ≢ i → k ≢ j → keeps s k i j ≡ true
keeps_other s k i j p q = ground arith

bit-cull_above : (k g s : ℕ) → 16 ≤ k → bit k (cull g s) ≡ (bit k g || bit k s)
bit-cull_above k g s h =
    rw
      (
        bit-cull_factors,
        keeps_other s k 10 11 (omega arith) (omega arith),
        keeps_other s k 13 5 (omega arith) (omega arith),
        keeps_other s k 14 6 (omega arith) (omega arith),
        keeps_other s k 3 4 (omega arith) (omega arith),
        keeps_other s k 15 0 (omega arith) (omega arith),
        keeps_other s k 2 1 (omega arith) (omega arith),
      )
      (bit-bit_or k g s)

merged_high : (k g s : ℕ) → 16 ≤ k → merged g s k ≡ (bit k g || bit k s)
merged_high k g s h = ground arith

high : (k g s : ℕ) → 16 ≤ k → bit k (cull g s) ≡ merged g s k
high k g s h = bit-cull_above k g s h ∙ sym (merged_high k g s h)

-- The digits of the merged options, one for each option bit that has an opposite or not.
pub bit-cull-Free : (k g s : ℕ) → Free s → bit k (cull g s) ≡ merged g s k
bit-cull-Free zero g s f = ground (arith, bit-cull_factors 0 g s, bit-bit_or 0 g s, f.1.0)
bit-cull-Free (suc zero) g s f = ground (arith, bit-cull_factors 1 g s, bit-bit_or 1 g s, f.0)
bit-cull-Free (suc (suc zero)) g s f = ground (arith, bit-cull_factors 2 g s, bit-bit_or 2 g s, f.0)
bit-cull-Free (suc (suc (suc zero))) g s f =
    ground (arith, bit-cull_factors 3 g s, bit-bit_or 3 g s, f.1.1.0)
bit-cull-Free (suc (suc (suc (suc zero)))) g s f =
    ground (arith, bit-cull_factors 4 g s, bit-bit_or 4 g s, f.1.1.0)
bit-cull-Free (suc (suc (suc (suc (suc zero))))) g s f =
    ground (arith, bit-cull_factors 5 g s, bit-bit_or 5 g s, f.1.1.1.1.0)
bit-cull-Free (suc (suc (suc (suc (suc (suc zero)))))) g s f =
    ground (arith, bit-cull_factors 6 g s, bit-bit_or 6 g s, f.1.1.1.0)
bit-cull-Free (suc (suc (suc (suc (suc (suc (suc zero))))))) g s f =
    ground (arith, bit-cull_factors 7 g s, bit-bit_or 7 g s)
bit-cull-Free (suc (suc (suc (suc (suc (suc (suc (suc zero)))))))) g s f =
    ground (arith, bit-cull_factors 8 g s, bit-bit_or 8 g s)
bit-cull-Free (suc (suc (suc (suc (suc (suc (suc (suc (suc zero))))))))) g s f =
    ground (arith, bit-cull_factors 9 g s, bit-bit_or 9 g s)
bit-cull-Free (suc (suc (suc (suc (suc (suc (suc (suc (suc (suc zero)))))))))) g s f =
    ground (arith, bit-cull_factors 10 g s, bit-bit_or 10 g s, f.1.1.1.1.1.0)
bit-cull-Free (suc (suc (suc (suc (suc (suc (suc (suc (suc (suc (suc zero))))))))))) g s f =
    ground (arith, bit-cull_factors 11 g s, bit-bit_or 11 g s, f.1.1.1.1.1.0)
bit-cull-Free (suc (suc (suc (suc (suc (suc (suc (suc (suc (suc (suc (suc zero)))))))))))) g s f =
    ground (arith, bit-cull_factors 12 g s, bit-bit_or 12 g s)
bit-cull-Free (suc (suc (suc (suc (suc (suc (suc (suc (suc (suc (suc (suc (suc zero))))))))))))) g s
      f =
    ground (arith, bit-cull_factors 13 g s, bit-bit_or 13 g s, f.1.1.1.1.0)
bit-cull-Free
      (suc (suc (suc (suc (suc (suc (suc (suc (suc (suc (suc (suc (suc (suc zero)))))))))))))) g s
      f =
    ground (arith, bit-cull_factors 14 g s, bit-bit_or 14 g s, f.1.1.1.0)
bit-cull-Free
      (suc (suc (suc (suc (suc (suc (suc (suc (suc (suc (suc (suc (suc (suc (suc zero)))))))))))))))
      g s f =
    ground (arith, bit-cull_factors 15 g s, bit-bit_or 15 g s, f.1.0)
bit-cull-Free
      (suc
        (suc (suc (suc (suc (suc (suc (suc (suc (suc (suc (suc (suc (suc (suc (suc k))))))))))))))))
      g s f =
    high
      (suc
        (suc (suc (suc (suc (suc (suc (suc (suc (suc (suc (suc (suc (suc (suc (suc k))))))))))))))))
      g s (omega arith)

-- For options `s` without a conflict, an option is in the merge exactly if it is in `s`, or it is
-- in `g` and its opposite is not in `s`.
pub bit-cull : (k g s : ℕ) → has_conflict s ≡ false → bit k (cull g s) ≡ merged g s k
bit-cull k g s h = bit-cull-Free k g s (has_conflict-Free s h)
