-- ===== src/Backends/Lvm/Names/Laws.antt =====
-- Which names of targetd/backends/lvm.py lead back to the pool and the volume.
use targetd.Prelude.{
  ◌≡◌, refl, ◌∙◌, ap, arith, Text, text_eq, has_code-append, Option, none, some, List, [], ◌∷◌,
  ◌++◌, if◌then◌else◌, codes,
}
use targetd.Prelude.Split.{split, Lacks, split_plain, split-append}
use targetd.Prelude.Dict.{Dict, lookup, insert, lookup-insert}
use targetd.Utils.Errors.{ok, ◌>>=◌}
use targetd.Backends.Lvm.Names.{
  Lvm, get_vg_lv, vg_of, vg_lv, has_pool, split_udev_path, pool2dev_name, get_so_name, get_dev_path,
  has_udev_path, dev2pool_name, so_name2pool_volume, register, unpack_two, from_third,
}

-- The last of the pools that lies in the volume group.
abbrev pub last_pool_of : Text → List Text → Option Text
last_pool_of vg [] = none
last_pool_of vg (p ∷ pools) = elim (last_pool_of vg pools) [
  | some q ↦ some q
  | none ↦ if text_eq (vg_of p) vg then some p else none
]

lookup-register :
    (vg : Text) (pools : List Text) (dict : Dict Text)
    → lookup vg (register pools dict)
      ≡ elim (last_pool_of vg pools) [ some q ↦ some q | none ↦ lookup vg dict ]
unfolding register
lookup-register vg [] dict = refl
lookup-register vg (p ∷ pools) dict =
    ground
      (arith, lookup-register vg pools (insert (vg_of p) p dict), lookup-insert (vg_of p) vg p dict)

-- The name of a pool is a group, or a group and a thin pool.
pub data PoolName : Text → Text → Type 0 where
  group : (vg : Text) → Lacks b'/' vg → PoolName vg vg
  thin : (vg lv : Text) → Lacks b'/' vg → Lacks b'/' lv → PoolName (vg ++ (b'/' ∷ lv)) vg

pub vg_lv-PoolName :
    {pool vg : Text} → PoolName pool vg → (lv : Option Text) × (vg_lv pool ≡ ok (vg, lv))
unfolding vg_lv
vg_lv-PoolName (group vg h) = (none, rw h)
vg_lv-PoolName (thin vg lv h k) = (
  some lv,
  rw (has_code-append b'/' vg (b'/' ∷ lv), h, split-append b'/' vg lv h, split_plain b'/' lv k),
)

pub vg_of-PoolName : {pool vg : Text} → PoolName pool vg → vg_of pool ≡ vg
unfolding get_vg_lv
vg_of-PoolName (group vg h) = rw (h, vg_of)
vg_of-PoolName (thin vg lv h k) =
    rw (has_code-append b'/' vg (b'/' ∷ lv), h, split-append b'/' vg lv h, vg_of)

dev2pool_name-register :
    (pools : List Text) (vg q : Text)
    → last_pool_of vg pools ≡ some q
    → dev2pool_name (record { pools = pools; vg_name_2_pool_name_dict = register pools [] }) vg
      ≡ ok q
unfolding dev2pool_name
dev2pool_name-register pools vg q last = ground (arith, lookup-register vg pools [])

-- Under the pools of the configuration, the storage object that is named for a volume is read back
-- as that volume, in the last configured pool of the same volume group.
pub so_name2pool_volume-get_so_name :
    (pools : List Text) (pool vg q volname : Text)
    → PoolName pool vg
    → Lacks b':' vg
    → Lacks b':' volname
    → last_pool_of vg pools ≡ some q
    → (get_so_name pool volname
        >>= so_name2pool_volume
            (record { pools = pools; vg_name_2_pool_name_dict = register pools [] }))
      ≡ ok (q, volname)
unfolding get_so_name so_name2pool_volume
so_name2pool_volume-get_so_name pools pool vg q volname name hv hn last =
    let (lv, e) = vg_lv-PoolName name in
    rw (
      e,
      split-append b':' vg volname hv,
      split_plain b':' volname hn,
      dev2pool_name-register pools vg q last,
    )

split-dev : (s : Text) → split b'/' (codes "/dev/" ++ s) ≡ [] ∷ codes "dev" ∷ split b'/' s
split-dev s =
    split-append b'/' [] (codes "dev/" ++ s) refl
    ∙ ap (λ l. [] ∷ l) (split-append b'/' (codes "dev") s refl)

split_dev_path :
    (vg volname : Text)
    → Lacks b'/' vg
    → Lacks b'/' volname
    → split b'/' (codes "/dev/" ++ (vg ++ (b'/' ∷ volname))) ≡ [] ∷ codes "dev" ∷ vg ∷ volname ∷ []
split_dev_path vg volname hv hn = rw (
  split-dev (vg ++ (b'/' ∷ volname)),
  split-append b'/' vg volname hv,
  split_plain b'/' volname hn,
)

has_pool-group :
    (lvm : Lvm) (pool vg : Text)
    → PoolName pool vg
    → Lacks b'/' vg
    → has_pool lvm vg ≡ has_pool lvm pool
unfolding has_pool
has_pool-group lvm pool vg name h = rw (vg_of-PoolName name, vg_of-PoolName (group vg h))

split_path :
    (vg volname : Text)
    → Lacks b'/' vg
    → Lacks b'/' volname
    → split_udev_path (codes "/dev/" ++ (vg ++ (b'/' ∷ volname))) ≡ ok (vg, volname)
unfolding split_udev_path
split_path vg volname hv hn = ap (λ l. unpack_two (from_third l)) (split_dev_path vg volname hv hn)

has_udev_path-split :
    (lvm : Lvm) (path : Text) {vg volname : Text}
    → split_udev_path path ≡ ok (vg, volname)
    → has_udev_path lvm path ≡ has_pool lvm vg
unfolding has_udev_path
has_udev_path-split lvm path h = rw (h, has_udev_path)

-- The device path of a volume is split into its volume group and its name, and the module that has
-- the pool takes the path for its own.
pub split_udev_path-get_dev_path :
    (lvm : Lvm) (pool vg volname : Text)
    → PoolName pool vg
    → Lacks b'/' vg
    → Lacks b'/' volname
    → (path : Text) × (get_dev_path pool volname ≡ ok path)
      × (split_udev_path path ≡ ok (vg, volname))
      × (has_udev_path lvm path ≡ has_pool lvm pool)
unfolding get_dev_path pool2dev_name
split_udev_path-get_dev_path lvm pool vg volname name hv hn =
    let (lv, e) = vg_lv-PoolName name in
    (
      codes "/dev/" ++ (vg ++ (b'/' ∷ volname)),
      rw e,
      split_path vg volname hv hn,
      has_udev_path-split lvm (codes "/dev/" ++ (vg ++ (b'/' ∷ volname)))
            (split_path vg volname hv hn)
          ∙ has_pool-group lvm pool vg name hv,
    )
