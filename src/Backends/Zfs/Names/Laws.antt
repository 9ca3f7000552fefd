-- ===== src/Backends/Zfs/Names/Laws.antt =====
-- Which names of targetd/backends/zfs.py lead back to the pool and the volume.
use targetd.Prelude.{
  ℕ, ◌≡◌, refl, ap, ◌≢◌, ◌⊎◌, inl, inr, Bool, true, false, ◌||◌, ◌==◌, arith, Text, text_eq,
  text_eq_iff, has_code, has_code-append, has_code_of_prefix, member, starts_with,
  starts_with-append, remove_first, remove_first-append, replace_code, replace_code_back,
  has_code-replace_code, some, List, [], ◌∷◌, ◌++◌, any, All, any-All, if◌then◌else◌, Bool-cases,
  append_assoc, ==_iff,
}
use targetd.Prelude.Split.{split, Lacks, split_plain, split-append}
use targetd.Utils.Errors.{Result, ok, err, targetd_error, invalid_argument}
use targetd.Backends.Zfs.Names.{
  Zfs, with_slash, find_pool, has_pool, split_udev_path, unpacked_udev_path, has_udev_path,
  pool2dev_name, get_so_name, so_name2pool_volume, has_so_name, get_dev_path, is_alnum, in_name,
  name_rest, allowed_name, has_nested, check_dataset_name,
}

has_code-with_slash : (p : Text) → has_code b'/' (with_slash p) ≡ true
has_code-with_slash p = ground (arith, has_code-append b'/' p (b'/' ∷ []))

-- A pool whose name and a `/` begin a dataset of `pool` is `pool` or a parent of it.
prefix_cases :
    (p pool vol : Text)
    → Lacks b'/' vol
    → starts_with (pool ++ (b'/' ∷ vol)) (with_slash p) ≡ true
    → (p ≡ pool) ⊎ (starts_with pool (with_slash p) ≡ true)
unfolding starts_with
prefix_cases [] [] vol l h = inl refl
prefix_cases [] (c ∷ pool) vol l h = inr (ground arith)
prefix_cases (d ∷ p) [] vol l h =
    ground (arith, has_code_of_prefix b'/' vol (with_slash p), has_code-with_slash p)
prefix_cases (d ∷ p) (c ∷ pool) vol l h = ground (arith, prefix_cases p pool vol l)

dataset-starts : (pool vol : Text) → starts_with (pool ++ (b'/' ∷ vol)) (with_slash pool) ≡ true
dataset-starts pool vol =
    rw (← append_assoc pool (b'/' ∷ []) vol) (starts_with-append (with_slash pool) vol)

dataset-removed : (pool vol : Text) → remove_first (pool ++ (b'/' ∷ vol)) (with_slash pool) ≡ vol
dataset-removed [] vol = remove_first-append b'/' [] vol
dataset-removed (c ∷ pool) vol =
    rw (← append_assoc pool (b'/' ∷ []) vol) (remove_first-append c (with_slash pool) vol)

find_pool-dataset :
    (pools : List Text) (pool vol : Text)
    → Lacks b'/' vol
    → All (λ p. starts_with pool (with_slash p) ≡ false) pools
    → member pool pools ≡ true
    → find_pool pools (pool ++ (b'/' ∷ vol)) ≡ some (pool, vol)
unfolding find_pool
find_pool-dataset [] pool vol l apart h = cc
find_pool-dataset (p ∷ pools) pool vol l apart h =
    elim (Bool-cases (starts_with (pool ++ (b'/' ∷ vol)) (with_slash p))) [
      | inl fits ↦ elim (prefix_cases p pool vol l fits) [
        | inl same ↦ rw (same, dataset-starts pool vol, dataset-removed pool vol)
        | inr parent ↦ cc (parent, apart.0)
      ]
      | inr other ↦
          rw other (find_pool-dataset pools pool vol l apart.1 (later p pools pool vol other h))
    ]
  where
    later :
        (p : Text) (pools : List Text) (pool vol : Text)
        → starts_with (pool ++ (b'/' ∷ vol)) (with_slash p) ≡ false
        → member pool (p ∷ pools) ≡ true
        → member pool pools ≡ true
    later p pools pool vol other h = elim (Bool-cases (text_eq pool p)) [
      | inl same ↦ cc (other, dataset-starts pool vol, (text_eq_iff pool p).0 same)
      | inr differs ↦ rw differs at h
    ]

-- No pool of a list without nested pools is a parent of a pool of the list.
apart_of_has_nested :
    (all_pools pools : List Text) (pool : Text)
    → All (λ s. any (λ i. starts_with s (with_slash i)) all_pools ≡ false) pools
    → member pool pools ≡ true
    → All (λ p. starts_with pool (with_slash p) ≡ false) all_pools
apart_of_has_nested all_pools [] pool h m = cc
apart_of_has_nested all_pools (s ∷ pools) pool h m = elim (Bool-cases (text_eq pool s)) [
  | inl same ↦
      rw ((text_eq_iff pool s).0 same) (any-All (λ i. starts_with s (with_slash i)) all_pools h.0)
  | inr differs ↦ apart_of_has_nested all_pools pools pool h.1 (rw differs at m)
]

differs_of_test : (test : ℕ → Bool) (c d : ℕ) → test c ≡ false → test d ≡ true → (d == c) ≡ false
differs_of_test test c d out within = elim (Bool-cases (d == c)) [
  | inl e ↦ cc (ap test ((==_iff d c).0 e), out, within)
  | inr e ↦ e
]

name_rest-Lacks : (c : ℕ) (s : Text) → in_name c ≡ false → c ≢ 10 → name_rest s ≡ true → Lacks c s
unfolding name_rest
name_rest-Lacks c [] out line h = refl
name_rest-Lacks c (d ∷ []) out line h = elim (Bool-cases (in_name d)) [
  | inl within ↦ rw (differs_of_test in_name c d out within)
  | inr outside ↦ last c d line (rw outside at h)
]
  where
    last : (c d : ℕ) → c ≢ 10 → (d == 10) ≡ true → Lacks c (d ∷ [])
    last c d line e = ground arith
name_rest-Lacks c (d ∷ e ∷ s) out line h = elim (Bool-cases (in_name d)) [
  | inl within ↦
      rw (differs_of_test in_name c d out within)
        (name_rest-Lacks c (e ∷ s) out line (rw within at h))
  | inr outside ↦ cc (h, outside)
]

in_name_of_alnum : (c : ℕ) → in_name c ≡ false → is_alnum c ≡ false
in_name_of_alnum c h = elim (Bool-cases (is_alnum c)) [
  | inl e ↦ cc (ap (λ b. b || (c == b'_' || (c == b'.' || c == b'-'))) e, h)
  | inr e ↦ e
]

abbrev verdict : Bool → Result (Unit {0})
verdict b = if b then ok tt else err (targetd_error invalid_argument)

accepted : (b : Bool) → verdict b ≡ ok tt → b ≡ true
accepted b e = ground arith

-- A name that `_check_dataset_name` accepts has no character outside the class of its regular
-- expression, but for a line feed.
check_dataset_name-Lacks :
    (c : ℕ) (name : Text)
    → in_name c ≡ false
    → c ≢ 10
    → check_dataset_name name ≡ ok tt
    → Lacks c name
unfolding check_dataset_name allowed_name
check_dataset_name-Lacks c [] out line h = cc
check_dataset_name-Lacks c (d ∷ s) out line h = elim (Bool-cases (is_alnum d)) [
  | inl first ↦
      rw (differs_of_test is_alnum c d (in_name_of_alnum c out) first)
        (name_rest-Lacks c s out line (accepted (name_rest s) (rw first at h)))
  | inr bad ↦ cc (rw bad at h)
]

-- Where the pools of the configuration are not nested, and a volume has a name that
-- `_check_dataset_name` accepts, its device path is split into exactly its pool and its name, also
-- if pools begin with one another's names, and the module takes the path for its own.
pub unpacked_udev_path-get_dev_path :
    (zfs : Zfs) (pool vol : Text)
    → has_nested zfs.pools ≡ false
    → has_pool zfs pool ≡ true
    → check_dataset_name vol ≡ ok tt
    → (unpacked_udev_path zfs (get_dev_path pool vol) ≡ ok (pool, vol))
      × (has_udev_path zfs (get_dev_path pool vol) ≡ true)
unfolding unpacked_udev_path split_udev_path get_dev_path pool2dev_name has_pool has_nested
    has_udev_path
unpacked_udev_path-get_dev_path zfs pool vol apart known named =
    let found =
      find_pool-dataset zfs.pools pool vol
        (check_dataset_name-Lacks b'/' vol refl (omega arith) named)
        (apart_of_has_nested zfs.pools zfs.pools pool
          (any-All (λ s. any (λ i. starts_with s (with_slash i)) zfs.pools) zfs.pools apart) known)
        known in
    (rw found, rw (found, has_udev_path))

-- The storage object that is named for a volume is read back as its pool and its name, for a pool
-- without a colon, which `check_pools_access` demands, and without a percent sign.
has_so_name-get_so_name :
    (zfs : Zfs) (pool vol : Text)
    → Lacks b':' pool
    → Lacks b'%' pool
    → check_dataset_name vol ≡ ok tt
    → (so_name2pool_volume (get_so_name pool vol) ≡ ok (pool, vol))
      × (has_so_name zfs (get_so_name pool vol) ≡ ok (has_pool zfs pool))
unfolding so_name2pool_volume get_so_name has_so_name
has_so_name-get_so_name zfs pool vol colon percent named =
    let parts : split b':' (replace_code b'/' b'%' pool ++ (b':' ∷ vol))
        ≡ replace_code b'/' b'%' pool ∷ vol ∷ [] =
      rw (
        split-append b':' (replace_code b'/' b'%' pool) vol
            (has_code-replace_code b'/' b'%' b':' pool (omega arith) colon),
        split_plain b':' vol (check_dataset_name-Lacks b':' vol refl (omega arith) named),
      ) in
    (
      rw (parts, replace_code_back b'/' b'%' pool percent),
      rw (parts, replace_code_back b'/' b'%' pool percent),
    )
