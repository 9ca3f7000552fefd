-- ===== src/Tests/Exports.antt =====
-- The exports of targetd/block.py on a target that two initiators see the one LUN of.
use targetd.Prelude.{
  ◌≡◌, refl, sym, ◌∙◌, arith, inl, inr, ◌⊎◌, ℕ, Bool, true, false, not, ◌&&◌, ◌||◌, ◌==◌,
  Bool-cases, Text, codes, text_eq, text_eq_iff, none, some, List, [], ◌∷◌, if◌then◌else◌,
}
use targetd.Utils.Errors.{ok}
use targetd.Utils.Exec.{Exec}
use targetd.Backends.Interface.{BlockBackend}
use targetd.Block.Mappings.{Rtslib}
use targetd.Block.Exports.{NodeAcls, export_destroy}
use targetd.Block.Exports.Mapped.{KeepsMapped, IsVolume, is_mapped_to}
use targetd.Block.Exports.Laws.{export_destroy_keeps}

-- Whether the initiators `i` and `j` see the LUN, each under the number 0.
abbrev Seen : Type 0
Seen = Bool × Bool

abbrev done : Exec Seen (Unit {0})
done s = (ok tt, s)

abbrev seen_by : Text → Seen → Bool
seen_by a s = text_eq a (codes "i") && s.0 || text_eq a (codes "j") && s.1

abbrev sees : Text → Seen → List (ℕ × Unit {0})
sees a s = if seen_by a s then (0, tt) ∷ [] else []

abbrev acls : Seen → List Text
acls s = if s.0 || s.1 then codes "i" ∷ [] else []

abbrev rtslib : Rtslib Seen (Unit {0}) (Unit {0})
rtslib = record {
  get_iscsi_tpg = done;
  enable = done;
  open_so = λ _ _. some tt;
  create_so = λ _ _ s. (ok tt, s);
  set_wwn = λ _ _. done;
  emulate_model_alias = λ _. done;
  so_name = λ _. codes "v";
  is_block = λ _. true;
  delete_so = λ _ _. (ok tt, (false, false));
  luns = λ _. tt ∷ [];
  new_lun = λ _ s. (ok tt, s);
  storage_object = λ _. tt;
  same_lun = λ _ _. true;
  mapped_luns = λ _ s. if s.0 || s.1 then 0 ∷ [] else [];
  delete_lun = λ _ _. (ok tt, (false, false));
  group_names = λ _. [];
  wwns_of = λ _ _. [];
  mapped_lun_groups = λ _ _. [];
  map_lun = λ _ _ _. done;
  unmap_lun = λ _ _. done;
  save_to_file = done;
}

abbrev without : Text → Seen → Seen
without a s = (not (text_eq a (codes "i")) && s.0, not (text_eq a (codes "j")) && s.1)

abbrev target : NodeAcls Seen (Unit {0}) (Unit {0})
target = record {
  open_tpg = done;
  lookup_tpg = λ s. (ok true, s);
  node_acl = λ _. done;
  node_acls = acls;
  mapped_of = sees;
  parents_of = λ _ _. [];
  udev_path = λ _. codes "/dev/vg/v";
  map_lun = λ _ _ _. done;
  delete_mapping = λ a n s. (ok tt, if n == 0 then without a s else s);
  delete_acl = λ a s. (ok tt, without a s);
  delete_tpg = λ _. (ok tt, (false, false));
  has_tpgs = λ _. false;
  delete_target = λ _. (ok tt, (false, false));
  set_chap_userid = λ _ _. done;
  set_chap_password = λ _ _. done;
  set_chap_mutual_userid = λ _ _. done;
  set_chap_mutual_password = λ _ _. done;
}

mapped_seen :
    (a : Text) (n : ℕ) (s : Seen) → is_mapped_to rtslib target a n tt s ≡ (n == 0 && seen_by a s)
mapped_seen a n s = ground arith

no_object : text_eq (codes "v") (codes "v") ≡ false → ⊥
unfolding text_eq
no_object h = ground (arith, h)

seen_without :
    (a b : Text) (s : Seen)
    → text_eq a b ≡ false
    → seen_by a s ≡ true
    → seen_by a (without b s) ≡ true
seen_without a b s other now = ground (
  arith,
  text_eq_iff a b,
  text_eq_iff a (codes "i"),
  text_eq_iff b (codes "i"),
  text_eq_iff a (codes "j"),
  text_eq_iff b (codes "j"),
)

apart :
    (a b : Text) (n m : ℕ)
    → (text_eq a b && n == m) ≡ false
    → (n == 0) ≡ true
    → (m == 0) ≡ true
    → text_eq a b ≡ false
apart a b n m other zero_n zero_m = ground (arith, other, zero_n, zero_m)

mapping_kept :
    (a : Text) (n : ℕ) (b : Text) (m : ℕ) (s : Seen)
    → (text_eq a b && n == m) ≡ false
    → (n == 0 && seen_by a s) ≡ true
    → (n == 0 && seen_by a (if m == 0 then without b s else s)) ≡ true
mapping_kept a n b m s other now = elim (Bool-cases (m == 0)) [
  | inr no_zero ↦ rw no_zero now
  | inl zero_m ↦
      rw zero_m
        (ground (arith, now, seen_without a b s (apart a b n m other (ground (arith, now)) zero_m)))
]

target-KeepsMapped : KeepsMapped rtslib target
target-KeepsMapped = record {
  same = λ l k. (λ _. refl, λ _. refl);
  opens = λ a n l s. refl;
  makes_acl = λ a n l b s. refl;
  saves = λ a n l s. refl;
  deletes_mapping = λ a n l b m s other now.
      mapped_seen a n _ ∙ mapping_kept a n b m s other (sym (mapped_seen a n s) ∙ now);
  deletes_lun = λ a n l k s other now. cc;
  deletes_so = λ a n l o s other now. absurd (no_object other);
  deletes_acl = λ a n l b s other now.
      mapped_seen a n _ ∙ ground (arith, seen_without a b s other, sym (mapped_seen a n s) ∙ now);
  lun_lists = λ a n l s now. ground (arith, sym (mapped_seen a n s) ∙ now);
  acl_listed = λ a n l s now. ground (arith, sym (mapped_seen a n s) ∙ now);
  one_lun = λ a n l k s h h'. refl;
}

-- The module that has the pool, and reads the path of its volume.
abbrev backend : BlockBackend Seen
backend = record {
  has_pool = λ _. true;
  has_udev_path = λ _. true;
  has_so_name = λ _. ok true;
  split_udev_path = λ _. ok (codes "vg", codes "v");
  pool2dev_name = λ _. ok (codes "vg");
  dev2pool_name = λ dev. ok dev;
  get_so_name = λ pool vol. ok vol;
  so_name2pool_volume = λ so. ok (codes "vg", so);
  get_dev_path = λ pool vol. ok vol;
  volumes = λ pool s. (ok [], s);
  create = λ pool name size. done;
  destroy = λ pool name. done;
  copy = λ pool name new size. done;
  resize = λ pool name size. done;
  vol_info = λ pool name s. (ok none, s);
  block_pools = λ s. (ok [], s);
}

other_initiator_kept :
    (is_mapped_to rtslib target
        (codes "j")
        0
        tt
        (export_destroy rtslib target
          (backend ∷ [])
          (codes "vg")
          (codes "v")
          (codes "i")
          (true, true)).1
      ≡ true)
    ⊎ ((codes "j" ≡ codes "i") × IsVolume rtslib target (backend ∷ []) (codes "vg") (codes "v") tt)
unfolding text_eq
other_initiator_kept =
    export_destroy_keeps rtslib target target-KeepsMapped (backend ∷ []) (codes "vg") (codes "v")
      (codes "i") (codes "j") 0 tt (true, true) (λ a b n m l k h h' e. refl) refl

one_initiator_left :
    export_destroy rtslib target (backend ∷ []) (codes "vg") (codes "v") (codes "i") (true, true)
    ≡ (ok tt, (false, true))
unfolding export_destroy targetd.Block.Volumes.pool_module text_eq targetd.Block.Mappings.tidy
one_initiator_left = refl
