-- ===== src/Tests/Groups.antt =====
-- A target of rtslib that is the list of its access groups.
use targetd.Prelude.{
  ◌+◌, ◌≤◌, ◌≡◌, refl, false, Text, codes, text_eq, text_eq_iff, member, none, List, [], ◌∷◌, arith,
  if◌then◌else◌,
}
use targetd.Utils.Errors.{ok}
use targetd.Block.AccessGroups.{Group, NodeAcl, Target, has_acl, in_some_group}
use targetd.Block.AccessGroups.Laws.{count, IsPartition, Groups}

abbrev acls_of : List Text → List NodeAcl
acls_of [] = []
acls_of (w ∷ wwns) = record { node_wwn = w; tag = none } ∷ acls_of wwns

abbrev append_acls : List NodeAcl → List NodeAcl → List NodeAcl
append_acls [] bs = bs
append_acls (a ∷ as') bs = a ∷ append_acls as' bs

abbrev all_acls : List Group → List NodeAcl
all_acls [] = []
all_acls (g ∷ gs) = append_acls (acls_of g.wwns) (all_acls gs)

abbrev dropped : Text → List Group → List Group
dropped ag_name [] = []
dropped ag_name (g ∷ gs) =
    if text_eq g.name ag_name then dropped ag_name gs else g ∷ dropped ag_name gs

abbrev pub target : Target (List Group)
target = record {
  get_iscsi_tpg = λ gs. (ok tt, gs);
  node_acl_groups = λ gs. gs;
  node_acls = all_acls;
  wwns_of = λ _ gs. [];
  add_acl = λ ag_name init_id gs. (ok tt, record { name = ag_name; wwns = init_id ∷ [] } ∷ gs);
  remove_acl = λ ag_name init_id gs. (ok tt, dropped ag_name gs);
  delete_group = λ ag_name gs. (ok tt, dropped ag_name gs);
  save_to_file = λ gs. (ok tt, gs);
}

count-dropped :
    (ag_name other : Text) (gs : List Group) → count other (dropped ag_name gs) ≤ count other gs
count-dropped ag_name other [] = ground arith
count-dropped ag_name other (g ∷ gs) = ground (arith, count-dropped ag_name other gs)

has_acl-append :
    (i : Text) (as' bs : List NodeAcl)
    → has_acl i (append_acls as' bs) ≡ false
    → (has_acl i as' ≡ false) × (has_acl i bs ≡ false)
has_acl-append i [] bs h = (refl, h)
has_acl-append i (a ∷ as') bs h = ground (arith, has_acl-append i as' bs)

has_acl-acls_of : (i : Text) (wwns : List Text) → has_acl i (acls_of wwns) ≡ member i wwns
has_acl-acls_of i [] = refl
has_acl-acls_of i (w ∷ wwns) = ground (arith, has_acl-acls_of i wwns)

members_have_acls :
    (i : Text) (gs : List Group) → has_acl i (all_acls gs) ≡ false → in_some_group i gs ≡ false
members_have_acls i [] h = refl
members_have_acls i (g ∷ gs) h = ground (
  arith,
  has_acl-append i (acls_of g.wwns) (all_acls gs),
  has_acl-acls_of i g.wwns,
  members_have_acls i gs,
)

added_once :
    (ag_name init_id other : Text) (gs : List Group)
    → count other (record { name = ag_name; wwns = init_id ∷ [] } ∷ gs)
      ≤ count other gs + (if text_eq init_id other then 1 else 0)
added_once ag_name init_id other gs =
    ground (arith, text_eq_iff init_id other, text_eq_iff other init_id)

pub target-Groups : Groups target
target-Groups = record {
  of_tpg = λ gs. refl;
  of_save = λ gs. refl;
  of_add = added_once;
  of_remove = λ ag_name init_id. count-dropped ag_name;
  of_delete = count-dropped;
  have_acls = members_have_acls;
}

abbrev pub groups : List Group
groups = record { name = codes "g"; wwns = codes "i" ∷ [] } ∷ []

pub groups-IsPartition : IsPartition groups
groups-IsPartition i = ground arith
