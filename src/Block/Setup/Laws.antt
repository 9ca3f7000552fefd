-- ===== src/Block/Setup/Laws.antt =====
-- Which back end serves a pool behind `initialize` of targetd/block.py.
use targetd.Prelude.{
  ◌≡◌, refl, sym, ap, ◌∙◌, subst, arith, inl, inr, ℕ, Bool, true, false, Text, text_eq, text_eq_iff,
  member, any, map, List, [], ◌∷◌, Bool-cases,
}
use targetd.Utils.Errors.{ℤ, Result, ok, targetd_error, invalid}
use targetd.Utils.Exec.{Exec, pure, ◌>>=◌, raise_if, >>=-Runs}
use targetd.Backends.Zfs.Names
use targetd.Backends.Zfs.Names.{Zfs}
use targetd.Backends.Zfs.Command.{Machine}
use targetd.Backends.Zfs.Pools
use targetd.Backends.Zfs.Pools.Laws.{initialize-ok}
use targetd.Backends.Zfs.Volumes.{zfs_backend}
use targetd.Backends.Lvm.Names.{Lvm, vg_of, register, has_pool}
use targetd.Backends.Lvm.Volumes
use targetd.Backends.Lvm.Volumes.{BlockDev, lvm_backend, check_pools_access}
use targetd.Block.Volumes.{pool_module}
use targetd.Block.Setup.{Modules, initialize, pool_modules}

member-map :
    (f : Text → Text) (x : Text) (xs : List Text)
    → member x xs ≡ true
    → member (f x) (map f xs) ≡ true
member-map f x [] h = ground (arith, h)
member-map f x (y ∷ ys) h =
    ground (arith, h, member-map f x ys, text_eq_iff x y, text_eq_iff (f x) (f y))

no_common :
    (xs ys : List Text) (x : Text)
    → any (λ i. member i ys) xs ≡ false
    → member x xs ≡ true
    → member x ys ≡ false
no_common [] ys x h k = ground (arith, k)
no_common (z ∷ xs) ys x h k = elim (Bool-cases (text_eq x z)) [
  | inl same ↦ subst (λ t. member t ys ≡ false) (sym ((text_eq_iff x z).0 same)) (ground (arith, h))
  | inr other ↦ no_common xs ys x (ground (arith, h)) (ground (arith, k, other))
]

not_raised :
    {W : Type 0} (b : Bool) (u : Unit {0}) (w w' : W)
    → raise_if b (targetd_error invalid) w ≡ (ok u, w')
    → b ≡ false
not_raised true u w w' h = absurd (ground (arith, h))
not_raised false u w w' h = refl

ok_pools : {W : Type 0} (x y : Lvm) (w w' : W) → pure x w ≡ (ok y, w') → y.pools ≡ x.pools
ok_pools x y w w' h = ground (arith, h)

lvm_pools :
    {W : Type 0} (bd : BlockDev W) (lvm lvm' : Lvm) (pools : List Text) (w w' : W)
    → Volumes.initialize bd lvm pools w ≡ (ok lvm', w')
    → lvm'.pools ≡ pools
unfolding Volumes.initialize
lvm_pools bd lvm lvm' pools w w' h =
    let left : Lvm = record {
      pools = pools;
      vg_name_2_pool_name_dict = register pools lvm.vg_name_2_pool_name_dict;
    } in
    let r = >>=-Runs (check_pools_access bd pools) (λ _. pure left) w h in
    ok_pools left lvm' r.state w' r.second

module _ {W : Type 0} (m : Machine W) (bd : BlockDev W) (estimate : ℕ → ℤ → ℤ → ℤ) where
  serves :
      (z : Zfs) (l : Lvm) (zfs_block_pools block_pools : List Text) (pool : Text)
      → any (λ i. member i zfs_block_pools) block_pools ≡ false
      → z.pools ≡ zfs_block_pools
      → l.pools ≡ block_pools
      → (member pool zfs_block_pools ≡ true
          → pool_module (pool_modules m bd estimate (z, l)) pool ≡ ok (zfs_backend m z))
        × (member pool block_pools ≡ true
            → pool_module (pool_modules m bd estimate (z, l)) pool ≡ ok (lvm_backend bd estimate l))
  unfolding pool_module Names.has_pool has_pool
  serves z l zs ls pool apart ez el = (
    λ k. rw (ez, k) refl,
    λ k. rw (ez, el, no_common ls zs pool apart k, member-map vg_of pool ls k) refl,
  )

  abbrev pair_up : Zfs → Lvm → Exec W Modules
  pair_up zfs lvm = pure (zfs, lvm)

  abbrev with_lvm : Lvm → List Text → Zfs → Exec W Modules
  with_lvm lvm ls zfs' = Volumes.initialize bd lvm ls >>= pair_up zfs'

  abbrev both : Zfs → Lvm → Bool → List Text → List Text → Exec W Modules
  both zfs lvm enable_copy zs ls = Pools.initialize m zfs enable_copy zs >>= with_lvm lvm ls

  ends_with : (x y : Modules) (w w' : W) → pair_up x.0 x.1 w ≡ (ok y, w') → x ≡ y
  ends_with x y w w' h = ok_inner x y (ap (λ r. r.0) h)
    where
      ok_inner : (x y : Modules) → ◌≡◌ {A = Result Modules} (ok x) (ok y) → x ≡ y
      ok_inner x y h = cc

  -- Behind an initialisation of targetd/block.py that ends well, every configured zfs pool is
  -- served by the zfs back end, and every configured LVM pool by the LVM back end.
  pub initialize-serves :
      (modules modules' : Modules) (enable_copy : Bool) (zfs_block_pools block_pools : List Text)
      (pool : Text) (w w' : W)
      → initialize m bd modules enable_copy zfs_block_pools block_pools w ≡ (ok modules', w')
      → (member pool zfs_block_pools ≡ true
          → pool_module (pool_modules m bd estimate modules') pool ≡ ok (zfs_backend m modules'.0))
        × (member pool block_pools ≡ true
            → pool_module (pool_modules m bd estimate modules') pool
              ≡ ok (lvm_backend bd estimate modules'.1))
  unfolding initialize
  initialize-serves (zfs, lvm) (z, l) enable_copy zs ls pool w w' h =
      let a =
        >>=-Runs (raise_if (any (λ i. member i zs) ls) (targetd_error invalid))
          (λ _. both zfs lvm enable_copy zs ls) w h in
      let b = >>=-Runs (Pools.initialize m zfs enable_copy zs) (with_lvm lvm ls) a.state a.second in
      let c =
        >>=-Runs (Volumes.initialize bd lvm ls) (λ lvm'. pair_up b.value lvm') b.state b.second in
      let same = ends_with (b.value, c.value) (z, l) c.state w' c.second in
      serves z l zs ls pool (not_raised (any (λ i. member i zs) ls) a.value w a.state a.first)
        (ap (λ p. p.0.pools) (sym same)
          ∙ (initialize-ok m zfs b.value enable_copy zs a.state b.state b.first).0)
        (ap (λ p. p.1.pools) (sym same) ∙ lvm_pools bd lvm c.value ls b.state c.state c.first)
