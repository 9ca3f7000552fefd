-- ===== src/Tests/Creation.antt =====
-- export_create of targetd/block.py on a target that keeps the numbers and initiators of one LUN.
use targetd.Prelude.{
  ◌≡◌, refl, sym, ap, arith, true, false, Text, codes, ℕ, some, none, List, [], ◌∷◌,
}
use targetd.Utils.Errors.{ok}
use targetd.Utils.Exec.{Exec, ◌>>◌}
use targetd.Backends.Interface.{BlockBackend}
use targetd.Block.Mappings.{Rtslib, tpg_lun_of}
use targetd.Block.Mappings.Found.{IsNamed, IsLunOf}
use targetd.Block.Exports.{NodeAcls, export_create}
use targetd.Block.Exports.Creation.{ListsMapped, Shows, export_create-ok}

abbrev Shown : Type 0
Shown = List (ℕ × Text)

abbrev quiet : Exec Shown (Unit {0})
quiet s = (ok tt, s)

abbrev one_lun : Rtslib Shown Text Text
one_lun = record {
  get_iscsi_tpg = quiet;
  enable = quiet;
  open_so = λ _ _. none;
  create_so = λ name _ s. (ok name, s);
  set_wwn = λ _ _. quiet;
  emulate_model_alias = λ _. quiet;
  so_name = λ so. so;
  is_block = λ _. true;
  delete_so = λ _ _. (ok tt, []);
  luns = λ _. [];
  new_lun = λ so s. (ok so, s);
  storage_object = λ l. l;
  same_lun = λ _ _. true;
  mapped_luns = λ _ _. [];
  delete_lun = λ _ _. (ok tt, []);
  group_names = λ _. [];
  wwns_of = λ _ _. [];
  mapped_lun_groups = λ _ _. [];
  map_lun = λ _ _ _. quiet;
  unmap_lun = λ _ _. quiet;
  save_to_file = quiet;
}

abbrev shown_target : NodeAcls Shown Text Text
shown_target = record {
  open_tpg = quiet;
  lookup_tpg = λ s. (ok true, s);
  node_acl = λ _. quiet;
  node_acls = λ _. [];
  mapped_of = λ _ _. [];
  parents_of = λ _ s. s;
  udev_path = λ _. codes "/dev/vg/v";
  map_lun = λ a n _ s. (ok tt, (n, a) ∷ s);
  delete_mapping = λ _ _. quiet;
  delete_acl = λ _. quiet;
  delete_tpg = quiet;
  has_tpgs = λ _. false;
  delete_target = quiet;
  set_chap_userid = λ _ _. quiet;
  set_chap_password = λ _ _. quiet;
  set_chap_mutual_userid = λ _ _. quiet;
  set_chap_mutual_password = λ _ _. quiet;
}

abbrev vg : BlockBackend Shown
vg = record {
  has_pool = λ _. true;
  has_udev_path = λ _. true;
  has_so_name = λ _. ok true;
  split_udev_path = λ _. ok (codes "vg", codes "v");
  pool2dev_name = λ _. ok (codes "vg");
  dev2pool_name = λ dev. ok dev;
  get_so_name = λ pool vol. ok vol;
  so_name2pool_volume = λ so. ok (codes "vg", so);
  get_dev_path = λ pool vol. ok vol;
  volumes = λ pool s. (ok [], s);
  create = λ pool name size. quiet;
  destroy = λ pool name. quiet;
  copy = λ pool name new size. quiet;
  resize = λ pool name size. quiet;
  vol_info = λ pool name s. (ok (some (record { uuid = codes "u"; size = 8 })), s);
  block_pools = λ s. (ok [], s);
}

shown_lists : ListsMapped one_lun shown_target (vg ∷ [])
shown_lists = record {
  maps = λ wwn n l w w' h. ([], w, ap (λ x. x.1) (sym h));
  saves = λ l w w' h. ap (λ x. x.1) (sym h);
}

lun-IsNamed : IsNamed one_lun
lun-IsNamed = record {
  opened = λ name w so h. absurd cc;
  made = λ name dev w w' so h. (ground (arith, h), refl);
  new_lun = λ so w w' l h. ground (arith, h);
}

volume_shown :
    (w0 : Shown) × (l : Text) × (w1 : Shown) × ((shown_target.open_tpg
          >> (one_lun.enable >> shown_target.node_acl (codes "i")))
        []
      ≡ (ok tt, w0))
    × (tpg_lun_of one_lun (vg ∷ []) (codes "vg") (codes "v") w0 ≡ (ok l, w1))
    × IsLunOf one_lun (vg ∷ []) (codes "vg") (codes "v") l
    × Shows one_lun shown_target (vg ∷ []) (codes "i") 3 ((3, codes "i") ∷ [])
unfolding export_create tpg_lun_of targetd.Block.Volumes.pool_module
volume_shown =
    export_create-ok one_lun shown_target (vg ∷ []) shown_lists lun-IsNamed (codes "vg") (codes "v")
      (codes "i") 3 [] ((3, codes "i") ∷ []) refl
