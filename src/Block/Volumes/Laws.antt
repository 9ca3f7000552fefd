-- ===== src/Block/Volumes/Laws.antt =====
-- The guards of the volume operations of targetd/block.py. A back end is taken to list its volumes
-- without changing the machine, as the listing commands of LVM and zfs do.
use targetd.Prelude.{
  ◌⊎◌, ◌≤◌, inl, inr, Bool-cases, eq_of_text_eq, ℕ, ◌≡◌, ◌<◌, true, false, ◌&&◌, leb, arith, Text,
  text_eq, text_eq_iff, member, Option, some, List, [], ◌∷◌, All, if◌then◌else◌,
}
use targetd.Prelude.Search.{First, any-First, any-NoneOf}
use targetd.Utils.Errors.{
  ok, err, targetd_error, name_conflict, not_found_volume, volume_masked, invalid_argument,
}
use targetd.Backends.Interface.{Volume, BlockBackend}
use targetd.Block.Volumes.{
  pool_module, has_volume, has_as_large, check_vol_exists, create, get_so_name, check_not_exported,
  destroy, check_larger, resize,
}

module _ {W : Type 0} (pool_modules : List (BlockBackend W)) (mod' : BlockBackend W) (pool : Text)
    (w : W) (vs : List Volume) (found : pool_module pool_modules pool ≡ ok mod')
    (listed : mod'.volumes pool w ≡ (ok vs, w)) where
  check_vol_exists-listed :
      (name : Text) → check_vol_exists pool_modules pool name w ≡ (ok (has_volume name vs), w)
  unfolding check_vol_exists
  check_vol_exists-listed name = ground (arith, found, listed)

  check_larger-listed :
      (name : Text) (size : ℕ)
      → check_larger mod' pool name size w ≡ (
          if has_as_large name size vs
          then (err (targetd_error invalid_argument), w)
          else (ok tt, w))
  unfolding check_larger
  check_larger-listed name size = ground (arith, listed)

  -- In a pool that a back end has and lists without changing the machine, a volume is created by
  -- that back end if the pool has none of that name, and otherwise refused as a conflict, with the
  -- machine left as it is.
  pub create_outcome :
      (name : Text) (size : ℕ)
      → create pool_modules pool name size w ≡ (
          if has_volume name vs
          then (err (targetd_error name_conflict), w)
          else mod'.create pool name size w)
  unfolding create
  create_outcome name size = ground (arith, found, check_vol_exists-listed name)

  larger_of_test :
      (name : Text) (size : ℕ) (us : List Volume)
      → has_as_large name size us ≡ false
      → All (λ v. v.name ≡ name → v.size < size) us
  larger_of_test name size [] h = tt
  larger_of_test name size (v ∷ us) h =
      (λ e. smaller v e (ground arith), larger_of_test name size us (ground arith))
    where
      smaller :
          (v : Volume)
          → v.name ≡ name
          → (text_eq v.name name && leb size v.size) ≡ false
          → v.size < size
      smaller v e t = ground (arith, (text_eq_iff v.name name).1 e)

  resize_outcome :
      (name : Text) (size : ℕ)
      → resize pool_modules pool name size w ≡ (
          if has_volume name vs
          then (if has_as_large name size vs
              then (err (targetd_error invalid_argument), w)
              else mod'.resize pool name size w)
          else (err (targetd_error not_found_volume), w))
  unfolding resize
  resize_outcome name size =
      ground (arith, found, check_vol_exists-listed name, check_larger-listed name size)

  named : (name : Text) (v : Volume) → v.name ≡ name → text_eq v.name name ≡ true
  named name v e = (text_eq_iff v.name name).1 e

  -- How a resize may end.
  abbrev pub Resized : Text → ℕ → Type 0
  Resized name size =
      (All (λ v. v.name ≡ name → ⊥) vs
        × (resize pool_modules pool name size w ≡ (err (targetd_error not_found_volume), w)))
      ⊎ ((First (λ v. (v.name ≡ name) × (size ≤ v.size)) vs
            × (resize pool_modules pool name size w ≡ (err (targetd_error invalid_argument), w)))
          ⊎ (First (λ v. v.name ≡ name) vs
              × All (λ v. v.name ≡ name → v.size < size) vs
              × (resize pool_modules pool name size w ≡ mod'.resize pool name size w)))

  -- In a pool that a back end has and lists without changing the machine, whether a resize ends well
  -- or not, it is one of three: the pool has no volume of the name, which is the error -103 with
  -- nothing changed; it has one that is as large already, which is the error -32602 with nothing
  -- changed; or it has one, every volume of the name is smaller than the new size, and the resize is
  -- what the back end does. So the back end is never asked to shrink a volume.
  pub resize-Resized : (name : Text) (size : ℕ) → Resized name size
  resize-Resized name size = elim (Bool-cases (has_volume name vs)) [
    | inr e ↦ inl (
      any-NoneOf (λ v. text_eq v.name name) vs (named name) e,
      ground (arith, e, resize_outcome name size),
    )
    | inl e ↦ elim (Bool-cases (has_as_large name size vs)) [
      | inl f ↦ inr (
          inl (
            any-First (λ v. text_eq v.name name && leb size v.size) vs
                (λ v t. (eq_of_text_eq v.name name (ground (arith, t)), ground (arith, t)))
                (λ v g. ground (arith, g.1, named name v g.0)) f,
            ground (arith, e, f, resize_outcome name size),
          ))
      | inr f ↦ inr (
          inr (
            any-First (λ v. text_eq v.name name) vs (λ v t. eq_of_text_eq v.name name t)
                (named name) e,
            larger_of_test name size vs f,
            ground (arith, e, f, resize_outcome name size),
          ))
    ]
  ]

  module _ (luns : W → Option (List Text)) (name : Text) (so_name : Text) (names : List Text)
      (exported : luns w ≡ some names) (named : mod'.get_so_name pool name ≡ ok so_name) where
    check_not_exported-listed :
        check_not_exported pool_modules luns pool name w
        ≡ (if member so_name names then (err (targetd_error volume_masked), w) else (ok tt, w))
    unfolding check_not_exported get_so_name
    check_not_exported-listed = ground (arith, found, exported, named)

    -- In a pool that a back end has and lists without changing the machine, and if the target is
    -- there and the volume has a name as a storage object: a volume is destroyed by the back end
    -- exactly if the pool has it and the target does not export it; otherwise the error says which
    -- of the two failed and nothing is changed.
    pub destroy_outcome : destroy pool_modules luns pool name w ≡ (
        if has_volume name vs
        then (if member so_name names
            then (err (targetd_error volume_masked), w)
            else mod'.destroy pool name w)
        else (err (targetd_error not_found_volume), w))
    unfolding destroy
    destroy_outcome = ground (arith, found, check_vol_exists-listed name, check_not_exported-listed)
