-- ===== src/Block/Exports/Search.antt =====
-- The search of export_destroy in targetd/block.py for the LUN of a volume.
use targetd.Prelude.{
  ◌≡◌, subst, arith, ◌⊎◌, inl, inr, ℕ, true, ◌&&◌, ◌==◌, Text, text_eq, text_eq_iff, any,
  Bool-cases, some, List, [], ◌∷◌,
}
use targetd.Utils.Errors.{ok, Result-cases}
use targetd.Backends.Interface.{BlockBackend}
use targetd.Block.Mappings.{Rtslib}
use targetd.Block.Exports.{NodeAcls, path_of, find_export}
use targetd.Block.Exports.Mapped.{KeepsMapped}

module _ {W Storage Lun : Type 0} (r : Rtslib W Storage Lun) (t : NodeAcls W Storage Lun)
    (laws : KeepsMapped r t) (pool_modules : List (BlockBackend W)) where
  find_export_step :
      (mod' : BlockBackend W) (dev vol : Text) (n : ℕ) (l : Lun) (mapped : List (ℕ × Lun)) (m : ℕ)
      (k : Lun)
      → find_export r t pool_modules mod' dev vol ((n, l) ∷ mapped) ≡ ok (some (m, k))
      → (find_export r t pool_modules mod' dev vol mapped ≡ ok (some (m, k)))
        ⊎ ((mod'.split_udev_path (path_of r t pool_modules l) ≡ ok (dev, vol)) × (n ≡ m) × (l ≡ k))
  unfolding find_export
  find_export_step mod' dev vol n l mapped m k h =
      elim (Bool-cases (mod'.has_udev_path (path_of r t pool_modules l))) [
        | inr foreign ↦ inl (ground (arith, foreign, h))
        | inl own ↦ elim (Result-cases (mod'.split_udev_path (path_of r t pool_modules l))) [
          | inl (e, bad) ↦ absurd (ground (arith, own, bad, h))
          | inr (path, good) ↦ elim (Bool-cases (text_eq path.0 dev && text_eq path.1 vol)) [
            | inr other ↦ inl (ground (arith, own, good, other, h))
            | inl hit ↦ inr (
              ground (arith, good, hit, text_eq_iff path.0 dev, text_eq_iff path.1 vol),
              ground (arith, own, good, hit, h),
              ground (arith, own, good, hit, h),
            )
          ]
        ]
      ]

  pub find_export-some :
      (mod' : BlockBackend W) (dev vol : Text) (mapped : List (ℕ × Lun)) (m : ℕ) (k : Lun)
      → find_export r t pool_modules mod' dev vol mapped ≡ ok (some (m, k))
      → (any (λ e. e.0 == m && r.same_lun e.1 k) mapped ≡ true)
        × (mod'.split_udev_path (path_of r t pool_modules k) ≡ ok (dev, vol))
  unfolding find_export
  find_export-some mod' dev vol [] m k h = absurd (ground (arith, h))
  find_export-some mod' dev vol ((n, l) ∷ mapped) m k h =
      elim (find_export_step mod' dev vol n l mapped m k h) [
        | inl rest ↦
            let (found, volume) = find_export-some mod' dev vol mapped m k rest in
            (ground (arith, found), volume)
        | inr (volume, num, lun) ↦ (
          ground (arith, num, lun, (laws.same l k).1 lun),
          subst (λ x. mod'.split_udev_path (path_of r t pool_modules x) ≡ ok (dev, vol)) lun volume,
        )
      ]
