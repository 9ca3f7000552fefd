-- ===== src/Backends/Lvm/Select.antt =====
-- What targetd/backends/lvm.py reads from the records of libblockdev, without a call of it.
use targetd.Prelude.{
  ℕ, zero, suc, ◌≤◌, Bool, true, false, not, ◌&&◌, ◌==◌, ltb, arith, Text, text_eq, Option, none,
  some, List, [], ◌∷◌, if◌then◌else◌, ◌^◌, ◌-◌,
}
use targetd.Utils.Errors.{ℤ, pos, negsuc, index_error, Result, ok, err, ◌>>=◌}
use targetd.Backends.Interface.{Volume}

-- What libblockdev tells of a logical volume. The percentages are millionths, or an error mark.
pub record LogicalVolume : Type 0 where
  pub lv_name : Text
  pub size : ℕ
  pub uuid : Text
  pub attr : Text
  pub pool_lv : Text
  pub data_percent : ℤ
  pub metadata_percent : ℤ

pub record VolumeGroup : Type 0 where
  pub size : ℕ
  pub free : ℕ
  pub uuid : Text

-- `attrib[0] == c`
abbrev pub attr_is : ℕ → Text → Result Bool
attr_is c [] = err index_error
attr_is c (d ∷ attr) = ok (d == c)

-- A thin pool with an empty name counts as none.
abbrev pub named : Option Text → Option Text
named none = none
named (some []) = none
named (some (c ∷ s)) = some (c ∷ s)

abbrev pub info : LogicalVolume → Volume
info lv = record { name = lv.lv_name; size = lv.size; uuid = lv.uuid }

-- The test of the loop of `volumes`: a linear volume of a group, or a thin volume of its pool.
unfoldable pub is_listed : Option Text → LogicalVolume → Result Bool
is_listed none lv = attr_is b'-' lv.attr
is_listed (some pool) lv = attr_is b'V' lv.attr >>= λ thin. ok (thin && text_eq lv.pool_lv pool)

-- The loop of `volumes`.
unfoldable pub select : Option Text → List LogicalVolume → Result (List Volume)
select lv_pool [] = ok []
select lv_pool (lv ∷ lvs) = is_listed lv_pool lv >>= λ listed.
    select lv_pool lvs >>= λ rest. ok (if listed then info lv ∷ rest else rest)

-- `dp != -1 and dp != 2**64 - 1`
abbrev is_known : ℤ → Bool
is_known (pos n) = not (n == 2 ^ 64 - 1)
is_known (negsuc zero) = false
is_known (negsuc (suc n)) = true

-- `thinp_get_free_bytes`. The estimate `int(free_bytes * (1 - used_pct))` in floating point is a
-- parameter; it is used only where it lies between 0 and the size.
unfoldable pub thinp_get_free_bytes : (ℕ → ℤ → ℤ → ℤ) → LogicalVolume → ℕ
thinp_get_free_bytes estimate lv =
    if is_known lv.data_percent && is_known lv.metadata_percent
    then elim (estimate lv.size lv.data_percent lv.metadata_percent) [
      | pos fs ↦ if ltb fs lv.size then fs else lv.size
      | negsuc _ ↦ lv.size
    ]
    else lv.size

-- Whatever the estimate, the free bytes of a thin pool are at most its size.
pub thinp_get_free_bytes-le-size :
    (estimate : ℕ → ℤ → ℤ → ℤ) (lv : LogicalVolume) → thinp_get_free_bytes estimate lv ≤ lv.size
unfolding thinp_get_free_bytes
thinp_get_free_bytes-le-size estimate lv = ground arith
