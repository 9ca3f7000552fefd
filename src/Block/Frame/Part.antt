-- ===== src/Block/Frame/Part.antt =====
-- Back ends of targetd/block.py over a part of the machine without the access groups.
use targetd.Prelude.{◌≡◌, List, [], ◌∷◌, map, arith}
use targetd.Utils.Exec.{Exec}
use targetd.Utils.Part.{Part, on_part}
use targetd.Backends.Interface.{BlockBackend}
use targetd.Block.AccessGroups.{Group}
use targetd.Block.Frame.{Shrinks, ModuleShrinks}
use targetd.Block.Frame.Modules.{AllModules}

module _ {V W : Type 0} (x : Part V W) where
  abbrev pub block_on : BlockBackend V → BlockBackend W
  block_on b = record {
    has_pool = b.has_pool;
    has_udev_path = b.has_udev_path;
    has_so_name = b.has_so_name;
    split_udev_path = b.split_udev_path;
    pool2dev_name = b.pool2dev_name;
    dev2pool_name = b.dev2pool_name;
    get_so_name = b.get_so_name;
    so_name2pool_volume = b.so_name2pool_volume;
    get_dev_path = b.get_dev_path;
    volumes = λ pool. on_part x (b.volumes pool);
    create = λ pool name size. on_part x (b.create pool name size);
    destroy = λ pool name. on_part x (b.destroy pool name);
    copy = λ pool vol_orig vol_new size. on_part x (b.copy pool vol_orig vol_new size);
    resize = λ pool name size. on_part x (b.resize pool name size);
    vol_info = λ pool name. on_part x (b.vol_info pool name);
    block_pools = on_part x b.block_pools;
  }

  module _ (groups : W → List Group) (apart : (v : V) (w : W) → groups (x.put v w) ≡ groups w) where
    pub on_part-Shrinks : {A : Type 0} (m : Exec V A) → Shrinks groups (on_part x m)
    on_part-Shrinks m = record { shrinks = λ a w. rw (apart (m (x.get w)).1 w) (omega arith) }

    block_on-Shrinks : (b : BlockBackend V) → ModuleShrinks groups (block_on b)
    block_on-Shrinks b = record {
      volumes = λ pool. on_part-Shrinks (b.volumes pool);
      create = λ pool name size. on_part-Shrinks (b.create pool name size);
      destroy = λ pool name. on_part-Shrinks (b.destroy pool name);
      copy = λ pool vol_orig vol_new size. on_part-Shrinks (b.copy pool vol_orig vol_new size);
      resize = λ pool name size. on_part-Shrinks (b.resize pool name size);
      vol_info = λ pool name. on_part-Shrinks (b.vol_info pool name);
      block_pools = on_part-Shrinks b.block_pools;
    }

    pub block_on-AllModules : (mods : List (BlockBackend V)) → AllModules groups (map block_on mods)
    block_on-AllModules [] = tt
    block_on-AllModules (b ∷ mods) = (block_on-Shrinks b, block_on-AllModules mods)
