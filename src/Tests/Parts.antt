-- ===== src/Tests/Parts.antt =====
-- A machine of access groups, with what the methods of targetd call of it.
use targetd.Prelude.{arith, true, false, codes, some, none, List, [], ◌∷◌}
use targetd.Utils.Errors.{ok, err, pos, lvm_error}
use targetd.Utils.Invoke.{Process}
use targetd.Utils.Part.{Part}
use targetd.Backends.Zfs.Command as Command
use targetd.Backends.Lvm.Volumes.{BlockDev}
use targetd.Backends.Btrfs.Commands.{Host}
use targetd.Block.Setup.{Modules}
use targetd.Main.Daemon.Laws.{own_parts, own_fs_parts}
use targetd.Utils.Exec.{Exec}
use targetd.Backends.Interface.{BlockBackend, Volume}
use targetd.Block.AccessGroups.{Group}
use targetd.Block.Mappings.{Rtslib}
use targetd.Block.Exports.{NodeAcls}
use targetd.Block.Parts.{Parts}
use targetd.Block.Frame.{Shrinks, RtslibShrinks}
use targetd.Nfs.Exportfs.{Machine}
use targetd.Fs.Methods.{FsParts}
use targetd.Tests.Groups.{target}

abbrev stays : {A : Type 0} → A → Exec (List Group) A
stays a gs = (ok a, gs)

abbrev rtslib : Rtslib (List Group) (Unit {0}) (Unit {0})
rtslib = record {
  get_iscsi_tpg = stays tt;
  enable = stays tt;
  open_so = λ _ _. some tt;
  create_so = λ _ _. stays tt;
  set_wwn = λ _ _. stays tt;
  emulate_model_alias = λ _. stays tt;
  so_name = λ _. codes "v";
  is_block = λ _. true;
  delete_so = λ _. stays tt;
  luns = λ _. [];
  new_lun = λ _. stays tt;
  storage_object = λ _. tt;
  same_lun = λ _ _. true;
  mapped_luns = λ _ _. [];
  delete_lun = λ _. stays tt;
  group_names = λ _. [];
  wwns_of = λ _ _. [];
  mapped_lun_groups = λ _ _. [];
  map_lun = λ _ _ _. stays tt;
  unmap_lun = λ _ _. stays tt;
  save_to_file = stays tt;
}

abbrev node_acls : NodeAcls (List Group) (Unit {0}) (Unit {0})
node_acls = record {
  open_tpg = stays tt;
  lookup_tpg = stays true;
  node_acl = λ _. stays tt;
  node_acls = λ _. [];
  mapped_of = λ _ _. [];
  parents_of = λ _ _. [];
  udev_path = λ _. codes "/dev/vg/v";
  map_lun = λ _ _ _. stays tt;
  delete_mapping = λ _ _. stays tt;
  delete_acl = λ _. stays tt;
  delete_tpg = λ gs. (ok tt, []);
  has_tpgs = λ _. false;
  delete_target = λ gs. (ok tt, []);
  set_chap_userid = λ _ _. stays tt;
  set_chap_password = λ _ _. stays tt;
  set_chap_mutual_userid = λ _ _. stays tt;
  set_chap_mutual_password = λ _ _. stays tt;
}

abbrev pub one_volume : List Volume
one_volume = record { name = codes "v"; size = 8; uuid = codes "u" } ∷ []

abbrev pub backend : BlockBackend (List Group)
backend = record {
  has_pool = λ _. true;
  has_udev_path = λ _. true;
  has_so_name = λ _. ok true;
  split_udev_path = λ _. ok (codes "vg", codes "v");
  pool2dev_name = λ _. ok (codes "vg");
  dev2pool_name = λ dev. ok dev;
  get_so_name = λ pool vol. ok vol;
  so_name2pool_volume = λ so. ok (codes "vg", so);
  get_dev_path = λ pool vol. ok vol;
  volumes = λ pool. stays one_volume;
  create = λ pool name size. stays tt;
  destroy = λ pool name. stays tt;
  copy = λ pool name new size. stays tt;
  resize = λ pool name size. stays tt;
  vol_info = λ pool name. stays none;
  block_pools = stays [];
}

abbrev pub parts : Parts (List Group) (Unit {0}) (Unit {0})
parts = record {
  target = target;
  rtslib = rtslib;
  node_acls = node_acls;
  pool_modules = backend ∷ [];
  luns = λ _. some (codes "v" ∷ []);
  pop = λ _. none;
  max_lun = 255;
}

abbrev pub machine : Machine (List Group)
machine = record {
  run = λ _ gs. (record { code = pos 0; out = []; stderr = [] }, gs);
  matches = λ _. [];
  main_lines = stays [];
  shlex = λ _. ok [];
  remove_config = stays tt;
  create_config = stays tt;
  write_config = λ _. stays tt;
}

abbrev pub fs_parts : FsParts (Unit {0}) (List Group)
fs_parts = record {
  pool_modules = [];
  nfs = machine;
  allow_chown = false;
  chown_to = λ _ _ _. stays tt;
  text_of = λ _. none;
}

-- Programs of the back ends that do nothing, on a part of the machine where nothing is.
abbrev pub no_part : Part (Unit {0}) (List Group)
no_part = record { get = λ _. tt; put = λ _ gs. gs }

abbrev process : Process
process = record { code = pos 0; out = []; stderr = [] }

abbrev pub zfs_machine : Command.Machine (Unit {0})
zfs_machine = record {
  run = λ _ v. (process, v);
  which_zfs = λ _. some (codes "/sbin/zfs");
  time = λ _. 0;
}

abbrev pub bd : BlockDev (Unit {0})
bd = record {
  lvinfo = λ vg lv v. (err lvm_error, v);
  vginfo = λ vg v. (ok (record { size = 9; free = 4; uuid = codes "g" }), v);
  lvs = λ vg v. (ok [], v);
  thlvcreate = λ vg tp lv size v. (ok tt, v);
  lvcreate = λ vg lv size v. (ok tt, v);
  lvremove = λ vg lv v. (ok tt, v);
  thsnapshotcreate = λ vg lv new tp v. (ok tt, v);
  lvresize = λ vg lv size v. (ok tt, v);
}

abbrev pub host : Host (Unit {0})
host = record {
  run = λ _ v. (process, v);
  path_exists = λ _ _. false;
  statvfs = λ _ v. (ok (record { f_bavail = 1; f_blocks = 2; f_frsize = 4096 }), v);
  sleep = λ _ v. v;
  epoch = λ _. ok 0;
}

abbrev pub exportfs : Machine (Unit {0})
exportfs = record {
  run = λ _ v. (process, v);
  matches = λ _. [];
  main_lines = λ v. (ok [], v);
  shlex = λ _. ok [];
  remove_config = λ v. (ok tt, v);
  create_config = λ v. (ok tt, v);
  write_config = λ _ v. (ok tt, v);
}

abbrev pub modules : Modules
modules = (
  record {
    pools = codes "tank" ∷ [];
    pools_fs = [];
    zfs_cmd = codes "/sbin/zfs";
    zfs_enable_copy = true;
  },
  record { pools = codes "vg" ∷ []; vg_name_2_pool_name_dict = (codes "vg", codes "vg") ∷ [] },
)

abbrev pub own : Parts (List Group) (Unit {0}) (Unit {0})
own =
    own_parts {K = Unit {0}} no_part zfs_machine bd host exportfs (λ _ _ _ v. (ok tt, v))
      (λ _ _ _. pos 0) modules (modules.0, codes "/mnt" ∷ []) parts fs_parts

abbrev pub own_fs : FsParts (Unit {0}) (List Group)
own_fs =
    own_fs_parts no_part zfs_machine bd host exportfs (λ _ _ _ v. (ok tt, v)) (λ _ _ _. pos 0)
      modules (modules.0, codes "/mnt" ∷ []) parts fs_parts

stays-Shrinks : {A : Type 0} (a : A) → Shrinks (λ gs. gs) (stays a)
stays-Shrinks a = record { shrinks = λ i gs. omega arith }

clears-Shrinks : Shrinks {A = Unit {0}} (λ gs. gs) (λ gs. (ok tt, []))
clears-Shrinks = record { shrinks = λ i gs. omega arith }

pub rtslib-Shrinks : RtslibShrinks own (λ gs. gs)
rtslib-Shrinks = record {
  get_tpg = stays-Shrinks tt;
  get_iscsi_tpg = stays-Shrinks tt;
  enable = stays-Shrinks tt;
  create_so = λ _ _. stays-Shrinks tt;
  set_wwn = λ _ _. stays-Shrinks tt;
  emulate = λ _. stays-Shrinks tt;
  delete_so = λ _. stays-Shrinks tt;
  new_lun = λ _. stays-Shrinks tt;
  delete_lun = λ _. stays-Shrinks tt;
  map_for_group = λ _ _ _. stays-Shrinks tt;
  unmap_lun = λ _ _. stays-Shrinks tt;
  save_to_file = stays-Shrinks tt;
  open_tpg = stays-Shrinks tt;
  lookup_tpg = stays-Shrinks true;
  node_acl = λ _. stays-Shrinks tt;
  map_lun = λ _ _ _. stays-Shrinks tt;
  delete_mapping = λ _ _. stays-Shrinks tt;
  delete_acl = λ _. stays-Shrinks tt;
  delete_tpg = clears-Shrinks;
  delete_target = clears-Shrinks;
  set_userid = λ _ _. stays-Shrinks tt;
  set_password = λ _ _. stays-Shrinks tt;
  set_mutual_userid = λ _ _. stays-Shrinks tt;
  set_mutual_password = λ _ _. stays-Shrinks tt;
}
