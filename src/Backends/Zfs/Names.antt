-- ===== src/Backends/Zfs/Names.antt =====
-- The names of targetd/backends/zfs.py: pools, device paths and storage objects.
pub mod Laws
use targetd.Prelude.{
  ℕ, Bool, true, false, ◌&&◌, ◌||◌, ◌==◌, leb, Text, codes, has_code, member, starts_with,
  remove_first, replace_code, Option, none, some, List, [], ◌∷◌, ◌++◌, any, if◌then◌else◌,
}
use targetd.Prelude.Split.{split}
use targetd.Prelude.Dict.{Dict}
use targetd.Utils.Errors.{
  Result, ok, err, targetd_error, invalid_argument, value_error, index_error, type_error, ◌>>=◌,
  ◌>>◌, raise_if,
}

-- The variables of the module.
pub record Zfs : Type 0 where
  pub pools : List Text
  pub pools_fs : Dict Text
  pub zfs_cmd : Text
  pub zfs_enable_copy : Bool

-- What stands behind the first `/`.
abbrev pub behind_slash : Text → Result Text
behind_slash [] = err index_error
behind_slash (c ∷ s) = if c == b'/' then ok s else behind_slash s

-- `p + "/"`
abbrev pub with_slash : Text → Text
with_slash p = p ++ (b'/' ∷ [])

-- The loop of `split_udev_path`, which returns `None` if no pool fits.
unfoldable pub find_pool : List Text → Text → Option (Text × Text)
find_pool [] dataset = none
find_pool (p ∷ pools) dataset =
    if starts_with dataset (with_slash p)
    then some (p, remove_first dataset (with_slash p))
    else find_pool pools dataset

module _ (zfs : Zfs) where
  unfoldable pub has_pool : Text → Bool
  has_pool pool_name = member pool_name zfs.pools

  unfoldable pub split_udev_path : Text → Result (Option (Text × Text))
  split_udev_path udev_path =
      behind_slash udev_path >>= λ s. behind_slash s >>= λ dataset. ok (find_pool zfs.pools dataset)

  -- `pool, dataset = split_udev_path(udev_path)`
  unfoldable pub unpacked_udev_path : Text → Result (Text × Text)
  unpacked_udev_path udev_path = split_udev_path udev_path >>= λ found. elim found [
    | some pair ↦ ok pair
    | none ↦ err type_error
  ]

  unfoldable pub has_udev_path : Text → Bool
  has_udev_path udev_path = elim (unpacked_udev_path udev_path) [ ok _ ↦ true | err _ ↦ false ]

-- `pool2dev_name` and `dev2pool_name`
unfoldable pub pool2dev_name : Text → Text
pool2dev_name pool = pool

unfoldable pub dev2pool_name : Text → Text
dev2pool_name dev = dev

unfoldable pub get_so_name : Text → Text → Text
get_so_name pool volname = replace_code b'/' b'%' pool ++ (b':' ∷ volname)

-- `x, y = parts`
abbrev pub unpack_two : List Text → Result (Text × Text)
unpack_two (a ∷ b ∷ []) = ok (a, b)
unpack_two _ = err value_error

unfoldable pub so_name2pool_volume : Text → Result (Text × Text)
so_name2pool_volume so_name = unpack_two (split b':' so_name) >>= λ (pool_name, vol_name).
    ok (replace_code b'%' b'/' pool_name, vol_name)

unfoldable pub has_so_name : Zfs → Text → Result Bool
has_so_name zfs so_name = unpack_two (split b':' so_name) >>= λ (pool_name, _).
    ok (has_pool zfs (replace_code b'%' b'/' pool_name))

unfoldable pub get_dev_path : Text → Text → Text
get_dev_path pool_name vol_name = codes "/dev/" ++ (pool2dev_name pool_name ++ (b'/' ∷ vol_name))

abbrev pub is_alnum : ℕ → Bool
is_alnum c = leb b'A' c && leb c b'Z' || (leb b'a' c && leb c b'z' || leb b'0' c && leb c b'9')

abbrev pub in_name : ℕ → Bool
in_name c = is_alnum c || (c == b'_' || (c == b'.' || c == b'-'))

-- `[A-Za-z0-9_.-]*$`: the `$` of Python also matches before a final line feed.
unfoldable pub name_rest : Text → Bool
name_rest [] = true
name_rest (c ∷ []) = in_name c || c == 10
name_rest (c ∷ d ∷ s) = in_name c && name_rest (d ∷ s)

-- `ALLOWED_DATASET_NAMES.match(name)`
unfoldable pub allowed_name : Text → Bool
unfolding name_rest
allowed_name [] = false
allowed_name (c ∷ s) = is_alnum c && name_rest s

unfoldable pub check_dataset_name : Text → Result (Unit {0})
check_dataset_name name = if allowed_name name then ok tt else err (targetd_error invalid_argument)

-- `any(s.startswith(i + "/") for s in pools for i in pools)`
unfoldable pub has_nested : List Text → Bool
has_nested pools = any (λ s. any (λ i. starts_with s (with_slash i)) pools) pools
