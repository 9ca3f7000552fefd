-- ===== src/Block/Mappings/Laws.antt =====
-- The host LUNs that access_group_map_create of targetd/block.py chooses.
use targetd.Prelude.{
  ◌⊎◌, inl, inr, ◌∙◌, ap, ℕ, zero, suc, ◌+◌, ◌≤◌, ◌≡◌, refl, true, false, not, ◌&&◌, ltb, leb,
  ==_iff, Option, none, some, List, [], ◌∷◌, arith,
}
use targetd.Utils.Errors.{ok, err, Exception, Result-cases, targetd_error, no_free_host_lun_id}
use targetd.Block.Mappings.{range_from, is_in, difference, free_h_lun_id}

is_in-range_from : (n a k : ℕ) → is_in n (range_from a k) ≡ (leb a n && ltb n (a + k))
unfolding range_from
is_in-range_from n a zero = ground arith
is_in-range_from n a (suc k) = ground (arith, is_in-range_from n (a + 1) k)

is_in-difference :
    (n : ℕ) (xs used : List ℕ) → is_in n (difference xs used) ≡ (is_in n xs && not (is_in n used))
unfolding difference
is_in-difference n [] used = refl
is_in-difference n (x ∷ xs) used = ground (arith, is_in-difference n xs used, ==_iff n x)

-- `pop` takes an element of the set.
module _ (pop : List ℕ → Option ℕ) (max_lun : ℕ)
    (pops : (xs : List ℕ) (n : ℕ) → pop xs ≡ some n → is_in n xs ≡ true)
    (fails : (xs : List ℕ) → pop xs ≡ none → xs ≡ []) where
  chosen :
      (used : List ℕ) (n : ℕ)
      → free_h_lun_id pop max_lun used ≡ ok n
      → (n ≤ max_lun) × (is_in n used ≡ false)
  unfolding free_h_lun_id
  chosen used n h =
      let free = difference (range_from 0 (max_lun + 1)) used in
      ground (
        arith,
        pops free n,
        is_in-difference n (range_from 0 (max_lun + 1)) used,
        is_in-range_from n 0 (max_lun + 1),
      )

  none_free :
      (used : List ℕ) (e : Exception) (n : ℕ)
      → free_h_lun_id pop max_lun used ≡ err e
      → n ≤ max_lun
      → is_in n used ≡ true
  unfolding free_h_lun_id
  none_free used e n h le =
      let free = difference (range_from 0 (max_lun + 1)) used in
      ground (
        arith,
        fails free,
        is_in-difference n (range_from 0 (max_lun + 1)) used,
        is_in-range_from n 0 (max_lun + 1),
      )

  only_error :
      (used : List ℕ) (e : Exception)
      → free_h_lun_id pop max_lun used ≡ err e
      → e ≡ targetd_error no_free_host_lun_id
  unfolding free_h_lun_id
  only_error used e h = ground (arith, h)

  -- If `set.pop` takes an element of its set, and fails on the empty set only: either a number up to
  -- MAX_LUN, that one included, is chosen that is none of the given ones, which are the host LUNs
  -- under which the LUN of the volume is mapped already; or all the numbers up to MAX_LUN are given,
  -- and the error is the one for that. MAX_LUN is any number.
  pub free_h_lun_id-cases :
      (used : List ℕ)
      → ((n : ℕ) × (free_h_lun_id pop max_lun used ≡ ok n) × (n ≤ max_lun) × (is_in n used ≡ false))
        ⊎ ((free_h_lun_id pop max_lun used ≡ err (targetd_error no_free_host_lun_id))
            × ((n : ℕ) → n ≤ max_lun → is_in n used ≡ true))
  free_h_lun_id-cases used = elim (Result-cases (free_h_lun_id pop max_lun used)) [
    | inr (n, h) ↦ inl (n, h, (chosen used n h).0, (chosen used n h).1)
    | inl (e, h) ↦ inr (h ∙ ap err (only_error used e h), λ n le. none_free used e n h le)
  ]
