-- ===== src/Fs/Setup/Laws.antt =====
-- The pools that `initialize` of targetd/fs.py hands to the back ends.
use targetd.Prelude.{
  ◌≡◌, refl, sym, ◌∙◌, subst, arith, inl, inr, Bool, true, false, Text, codes, text_eq,
  eq_of_text_eq, member, ℕ, ◌+◌, ◌≤◌, not, ◌&&◌, ◌||◌, All, List, [], ◌∷◌, ◌++◌, append_assoc,
  append-nil, Bool-cases, if◌then◌else◌,
}
use targetd.Utils.Items.{item}
use targetd.Utils.Errors.{Result, ok, err, targetd_error, no_support}
use targetd.Utils.Exec.{◌>>=◌, >>=-ok, >>=-err}
use targetd.Fs.Setup.{FsPools, forward, sort_mounts}

abbrev pub count {ℓ} : {A : Type ℓ} → List A → ℕ
count [] = 0
count (_ ∷ xs) = 1 + count xs

-- The pools of one type among the lines: the comprehension that the loop stands for.
unfoldable pub of_type : Text → List Text → List (List Text) → List (Text × Text)
of_type t all_fs_pools [] = []
of_type t all_fs_pools ((device ∷ mount ∷ filesystem ∷ _) ∷ infos) =
    let rest = of_type t all_fs_pools infos in
    if member mount all_fs_pools && text_eq filesystem t then (mount, device) ∷ rest else rest
of_type t all_fs_pools (_ ∷ infos) = of_type t all_fs_pools infos

-- A pool of a type that targetd does not support is mounted.
unfoldable pub unsupported : List Text → List (List Text) → Bool
unsupported all_fs_pools [] = false
unsupported all_fs_pools ((device ∷ mount ∷ filesystem ∷ _) ∷ infos) =
    member mount all_fs_pools
      && not (text_eq filesystem (codes "zfs") || text_eq filesystem (codes "btrfs"))
    || unsupported all_fs_pools infos
unsupported all_fs_pools (_ ∷ infos) = unsupported all_fs_pools infos

no_btrfs : (t : Text) → text_eq t (codes "zfs") ≡ true → text_eq t (codes "btrfs") ≡ false
unfolding text_eq
no_btrfs t h =
    subst (λ t. text_eq t (codes "btrfs") ≡ false) (sym (eq_of_text_eq t (codes "zfs") h)) refl

-- What the lines that are left add to the pools collected so far.
abbrev collected : List Text → List (List Text) → FsPools → FsPools
collected all_fs_pools infos pools = record {
  zfs = pools.zfs ++ of_type (codes "zfs") all_fs_pools infos;
  btrfs = pools.btrfs ++ of_type (codes "btrfs") all_fs_pools infos;
}

abbrev sorted : {W : Type 0} → List Text → List (List Text) → FsPools → W → Result FsPools × W
sorted all_fs_pools infos pools w = (
  if unsupported all_fs_pools infos
      then err (targetd_error no_support)
      else ok (collected all_fs_pools infos pools),
  w,
)

module _ {W : Type 0} (all_fs_pools : List Text) where
  module _ (device mount filesystem : Text) (rest : List Text) (infos : List (List Text))
      (pools : FsPools) (w : W) where
    passed_over :
        member mount all_fs_pools ≡ false
        → sort_mounts all_fs_pools ((device ∷ mount ∷ filesystem ∷ rest) ∷ infos) pools w
          ≡ sort_mounts all_fs_pools infos pools w
    unfolding sort_mounts item
    passed_over no_pool = rw no_pool refl

    forwards :
        member mount all_fs_pools ≡ true
        → sort_mounts all_fs_pools ((device ∷ mount ∷ filesystem ∷ rest) ∷ infos) pools w
          ≡ (forward filesystem mount device pools >>= sort_mounts all_fs_pools infos) w
    unfolding sort_mounts item
    forwards pool = rw pool refl

    adds_zfs :
        member mount all_fs_pools ≡ true
        → text_eq filesystem (codes "zfs") ≡ true
        → sort_mounts all_fs_pools ((device ∷ mount ∷ filesystem ∷ rest) ∷ infos) pools w
          ≡ sort_mounts all_fs_pools infos
              (record pools { zfs = pools.zfs ++ (mount, device) ∷ [] })
              w
    unfolding forward
    adds_zfs pool is_zfs =
        forwards pool
        ∙ >>=-ok (forward filesystem mount device pools) (sort_mounts all_fs_pools infos)
            (rw is_zfs refl)

    adds_btrfs :
        member mount all_fs_pools ≡ true
        → text_eq filesystem (codes "zfs") ≡ false
        → text_eq filesystem (codes "btrfs") ≡ true
        → sort_mounts all_fs_pools ((device ∷ mount ∷ filesystem ∷ rest) ∷ infos) pools w
          ≡ sort_mounts all_fs_pools infos
              (record pools { btrfs = pools.btrfs ++ (mount, device) ∷ [] })
              w
    unfolding forward
    adds_btrfs pool no_zfs is_btrfs =
        forwards pool
        ∙ >>=-ok (forward filesystem mount device pools) (sort_mounts all_fs_pools infos)
            (rw (no_zfs, is_btrfs) refl)

    refuses :
        member mount all_fs_pools ≡ true
        → text_eq filesystem (codes "zfs") ≡ false
        → text_eq filesystem (codes "btrfs") ≡ false
        → sort_mounts all_fs_pools ((device ∷ mount ∷ filesystem ∷ rest) ∷ infos) pools w
          ≡ (err (targetd_error no_support), w)
    unfolding forward
    refuses pool no_zfs other =
        forwards pool
        ∙ >>=-err (forward filesystem mount device pools) (sort_mounts all_fs_pools infos)
            (rw (no_zfs, other) refl)

  -- For lines of at least three fields, the loop of `initialize` over the mounted file systems
  -- collects for each of zfs and btrfs exactly the pools that are mounted with that type, in the
  -- order of the lines, and refuses exactly if a pool is mounted with another type.
  pub sort_mounts-of_type :
      (infos : List (List Text)) (pools : FsPools) (w : W)
      → All (λ info. 3 ≤ count info) infos
      → sort_mounts all_fs_pools infos pools w ≡ sorted all_fs_pools infos pools w
  unfolding sort_mounts of_type unsupported
  sort_mounts-of_type [] pools w h = rw (append-nil pools.zfs, append-nil pools.btrfs) refl
  sort_mounts-of_type ([] ∷ infos) pools w h = absurd (ground (arith, h.0))
  sort_mounts-of_type ((_ ∷ []) ∷ infos) pools w h = absurd (ground (arith, h.0))
  sort_mounts-of_type ((_ ∷ _ ∷ []) ∷ infos) pools w h = absurd (ground (arith, h.0))
  sort_mounts-of_type ((device ∷ mount ∷ filesystem ∷ rest) ∷ infos) pools w h =
      elim (Bool-cases (member mount all_fs_pools)) [
        | inr no_pool ↦
            passed_over device mount filesystem rest infos pools w no_pool
            ∙ sort_mounts-of_type infos pools w h.1
            ∙ rw no_pool refl
        | inl pool ↦ elim (Bool-cases (text_eq filesystem (codes "zfs"))) [
          | inl is_zfs ↦
              adds_zfs device mount filesystem rest infos pools w pool is_zfs
              ∙ sort_mounts-of_type infos _ w h.1
              ∙ rw (pool, is_zfs, no_btrfs filesystem is_zfs, append_assoc pools.zfs) refl
          | inr no_zfs ↦ elim (Bool-cases (text_eq filesystem (codes "btrfs"))) [
            | inl is_btrfs ↦
                adds_btrfs device mount filesystem rest infos pools w pool no_zfs is_btrfs
                ∙ sort_mounts-of_type infos _ w h.1
                ∙ rw (pool, no_zfs, is_btrfs, append_assoc pools.btrfs) refl
            | inr other ↦
                refuses device mount filesystem rest infos pools w pool no_zfs other
                ∙ rw (pool, no_zfs, other) refl
          ]
        ]
      ]
