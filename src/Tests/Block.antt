-- ===== src/Tests/Block.antt =====
-- The theorems on targetd/block.py at a concrete machine.
use targetd.Prelude.{
  ◌⊎◌, ℕ, ◌≤◌, ◌≡◌, refl, true, false, codes, text_eq, member, Option, none, some, List, [], ◌∷◌,
  ◌++◌, arith, if◌then◌else◌,
}
use targetd.Utils.Errors.{
  no_free_host_lun_id, ok, err, targetd_error, volume_masked, not_found_volume,
}
use targetd.Backends.Interface.{Volume, BlockBackend}
use targetd.Block.Volumes.{pool_module, has_volume, destroy, resize}
use targetd.Block.Volumes.Laws.{Resized, resize-Resized, destroy_outcome}
use targetd.Block.AccessGroups.{
  access_group_create, access_group_init_add, access_group_init_del, access_group_destroy,
}
use targetd.Block.AccessGroups.Laws.{IsPartition, access_groups-IsPartition}
use targetd.Block.Mappings.{is_in, free_h_lun_id}
use targetd.Block.Mappings.Laws.{free_h_lun_id-cases}
use targetd.Tests.Groups.{target, target-Groups, groups, groups-IsPartition}

-- A machine that is the list of the volumes of one pool, and its back end.
abbrev Machine : Type 0
Machine = List Volume

abbrev backend : BlockBackend Machine
backend = record {
  has_pool = λ pool. text_eq pool (codes "tank");
  has_udev_path = λ _. false;
  has_so_name = λ _. ok true;
  split_udev_path = λ path. ok (codes "tank", path);
  pool2dev_name = λ pool. ok pool;
  dev2pool_name = λ dev. ok dev;
  get_so_name = λ pool vol. ok (pool ++ b':' ∷ vol);
  so_name2pool_volume = λ so. ok (codes "tank", so);
  get_dev_path = λ pool vol. ok vol;
  volumes = λ pool vs. (ok vs, vs);
  create = λ pool name size vs. (ok tt, record { name = name; size = size; uuid = name } ∷ vs);
  destroy = λ pool name vs. (ok tt, []);
  copy = λ pool name new size vs. (ok tt, vs);
  resize = λ pool name size vs. (ok tt, record { name = name; size = size; uuid = name } ∷ []);
  vol_info = λ pool name vs. (ok none, vs);
  block_pools = λ vs. (ok [], vs);
}

abbrev one_volume : Machine
one_volume = record { name = codes "v"; size = 5; uuid = codes "v" } ∷ []

found : pool_module (backend ∷ []) (codes "tank") ≡ ok backend
unfolding pool_module text_eq
found = refl

grown : Resized (backend ∷ []) backend (codes "tank") one_volume one_volume found refl (codes "v") 9
grown =
    resize-Resized (backend ∷ []) backend (codes "tank") one_volume one_volume found refl
      (codes "v") 9

grown_run :
    resize (backend ∷ []) (codes "tank") (codes "v") 9 one_volume
    ≡ (ok tt, record { name = codes "v"; size = 9; uuid = codes "v" } ∷ [])
unfolding resize text_eq pool_module
grown_run = refl

masked :
    destroy (backend ∷ []) (λ _. some (codes "tank:v" ∷ [])) (codes "tank") (codes "v") one_volume
    ≡ (if has_volume (codes "v") one_volume
        then (if member (codes "tank:v") (codes "tank:v" ∷ [])
            then (err (targetd_error volume_masked), one_volume)
            else backend.destroy (codes "tank") (codes "v") one_volume)
        else (err (targetd_error not_found_volume), one_volume))
masked =
    destroy_outcome (backend ∷ []) backend (codes "tank") one_volume one_volume found refl
      (λ _. some (codes "tank:v" ∷ [])) (codes "v") (codes "tank:v") (codes "tank:v" ∷ []) refl refl

groups_kept :
    IsPartition (access_group_create target (codes "h") (codes "i") (codes "iscsi") groups).1
    × IsPartition (access_group_init_add target (codes "h") (codes "i") (codes "iscsi") groups).1
    × IsPartition (access_group_init_del target (codes "h") (codes "i") (codes "iscsi") groups).1
    × IsPartition (access_group_destroy target (codes "h") groups).1
groups_kept =
    access_groups-IsPartition target target-Groups (codes "h") (codes "i") (codes "iscsi") groups
      groups-IsPartition

abbrev first : List ℕ → Option ℕ
first [] = none
first (n ∷ ns) = some n

first-is_in : (xs : List ℕ) (n : ℕ) → first xs ≡ some n → is_in n xs ≡ true
first-is_in [] n h = cc
first-is_in (x ∷ xs) n h = ground arith

first-none : (xs : List ℕ) → first xs ≡ none → xs ≡ []
first-none [] h = refl
first-none (x ∷ xs) h = cc

lun_chosen :
    ((n : ℕ) × (free_h_lun_id first 3 (0 ∷ 2 ∷ []) ≡ ok n)
      × (n ≤ 3)
      × (is_in n (0 ∷ 2 ∷ []) ≡ false))
    ⊎ ((free_h_lun_id first 3 (0 ∷ 2 ∷ []) ≡ err (targetd_error no_free_host_lun_id))
        × ((n : ℕ) → n ≤ 3 → is_in n (0 ∷ 2 ∷ []) ≡ true))
lun_chosen = free_h_lun_id-cases first 3 first-is_in first-none (0 ∷ 2 ∷ [])

lowest_chosen : free_h_lun_id first 3 (0 ∷ 2 ∷ []) ≡ ok 1
unfolding free_h_lun_id
lowest_chosen = refl
