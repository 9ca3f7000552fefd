-- ===== src/Tests/Lvm.antt =====
-- The theorems on targetd/backends/lvm.py at concrete pools.
use targetd.Prelude.{ℕ, suc, ◌≡◌, refl, false, Text, codes, text_eq, List, [], ◌∷◌, any}
use targetd.Prelude.Split.{split}
use targetd.Prelude.Dict.{insert}
use targetd.Utils.Errors.{pos, ok, ◌>>=◌}
use targetd.Backends.Lvm.Names
use targetd.Backends.Lvm.Names.{Lvm, register}
use targetd.Backends.Lvm.Names.Laws.{
  group, thin, so_name2pool_volume-get_so_name, split_udev_path-get_dev_path,
}
use targetd.Backends.Lvm.Select.{LogicalVolume}
use targetd.Backends.Lvm.Volumes
use targetd.Backends.Lvm.Volumes.{BlockDev}
use targetd.Backends.Lvm.Volumes.Laws.{is_nested, initialize-is_nested}

-- A thin pool with 40 bytes left by the estimate.
abbrev thin_pool : LogicalVolume
thin_pool = record {
  lv_name = codes "thin";
  size = 100;
  uuid = codes "u";
  attr = codes "t";
  pool_lv = [];
  data_percent = pos 600000;
  metadata_percent = pos 10;
}

-- A machine on which every group and thin pool is there.
abbrev bd : BlockDev ℕ
bd = record {
  lvinfo = λ vg lv n. (ok thin_pool, suc n);
  vginfo = λ vg n. (ok (record { size = 9; free = 4; uuid = codes "g" }), suc n);
  lvs = λ vg n. (ok [], n);
  thlvcreate = λ vg tp lv size n. (ok tt, n);
  lvcreate = λ vg lv size n. (ok tt, n);
  lvremove = λ vg lv n. (ok tt, n);
  thsnapshotcreate = λ vg lv new tp n. (ok tt, n);
  lvresize = λ vg lv size n. (ok tt, n);
}

abbrev pools : List Text
pools = codes "vg-a" ∷ codes "vg-b/thin" ∷ []

abbrev before : Lvm
before = record { pools = []; vg_name_2_pool_name_dict = [] }

abbrev ready : Lvm
ready = record {
  pools = pools;
  vg_name_2_pool_name_dict = (codes "vg-a", codes "vg-a") ∷ (codes "vg-b", codes "vg-b/thin") ∷ [];
}

none_nested : (any (is_nested pools) pools ≡ false) × (pools ≡ pools)
unfolding Volumes.initialize Volumes.check_pools_access Names.vg_lv text_eq split register insert
none_nested = initialize-is_nested bd before ready pools 0 2 refl

lvm_so_name_read :
    (Names.get_so_name (codes "vg-b/thin") (codes "v")
      >>= Names.so_name2pool_volume
          (record { pools = pools; vg_name_2_pool_name_dict = register pools [] }))
    ≡ ok (codes "vg-b/thin", codes "v")
unfolding text_eq Names.get_vg_lv split
lvm_so_name_read =
    so_name2pool_volume-get_so_name pools (codes "vg-b/thin") (codes "vg-b") (codes "vg-b/thin")
      (codes "v") (thin (codes "vg-b") (codes "thin") refl refl) refl refl refl

lvm_dev_path_split :
    (path : Text) × (Names.get_dev_path (codes "vg-a") (codes "v") ≡ ok path)
    × (Names.split_udev_path path ≡ ok (codes "vg-a", codes "v"))
    × (Names.has_udev_path ready path ≡ Names.has_pool ready (codes "vg-a"))
lvm_dev_path_split =
    split_udev_path-get_dev_path ready (codes "vg-a") (codes "vg-a") (codes "v")
      (group (codes "vg-a") refl) refl refl
