-- ===== src/Block/Exports/Creation.antt =====
-- What export_create of targetd/block.py leaves when it ends well.
use targetd.Prelude.{
  sym, text_eq, eq_of_text_eq, ==_iff, ◌==◌, ◌&&◌, [], ◌∷◌, ◌++◌, ◌≡◌, ◌∙◌, ap, subst, arith, inl,
  inr, true, Bool-cases, Text, ℕ, List, if◌then◌else◌,
}
use targetd.Utils.Errors.{ok}
use targetd.Utils.Exec.{>>=-ok, Exec, gets, skip, ◌>>=◌, ◌>>◌, >>=-Runs}
use targetd.Backends.Interface.{BlockBackend}
use targetd.Block.Mappings.{Rtslib, tpg_lun_of}
use targetd.Block.Mappings.Found.{IsNamed, IsLunOf, tpg_lun_of-IsLunOf}
use targetd.Block.Exports.{NodeAcls, is_mapped, export_create}

module _ {W Storage Lun : Type 0} (r : Rtslib W Storage Lun) (t : NodeAcls W Storage Lun)
    (pool_modules : List (BlockBackend W)) where
  -- The mappings of a LUN have one to the initiator under the number.
  abbrev pub Shows : Text → ℕ → List (ℕ × Text) → Type 0
  Shows wwn n ms =
      (before : List (ℕ × Text)) × (after : List (ℕ × Text)) × (ms ≡ before ++ (n, wwn) ∷ after)

  shown_of_test :
      (wwn : Text) (n : ℕ) (ms : List (ℕ × Text))
      → is_mapped r t pool_modules wwn n ms ≡ true
      → Shows wwn n ms
  shown_of_test wwn n [] h = absurd cc
  shown_of_test wwn n ((k, a) ∷ ms) h = elim (Bool-cases (k == n && text_eq a wwn)) [
    | inl here ↦
        let same : k ≡ n = ground (arith, here, ==_iff k n) in
        let e : a ≡ wwn = eq_of_text_eq a wwn (ground (arith, here)) in
        ([], ms, ap (λ m. (m, a) ∷ ms) same ∙ ap (λ b. (n, b) ∷ ms) e)
    | inr other ↦
        let (before, after, e) = shown_of_test wwn n ms (ground (arith, other, h)) in
        ((k, a) ∷ before, after, ap (λ x. (k, a) ∷ x) e)
  ]

  -- rtslib lists what it has mapped, and saving changes no mapped LUN.
  pub record ListsMapped : Type 0 where
    pub maps :
        (wwn : Text) (n : ℕ) (l : Lun) (w w' : W)
        → t.map_lun wwn n l w ≡ (ok tt, w')
        → Shows wwn n (t.parents_of l w')
    pub saves :
        (l : Lun) (w w' : W) → r.save_to_file w ≡ (ok tt, w') → t.parents_of l w' ≡ t.parents_of l w

  -- The LUN was there or is made now, and only in the second case something is mapped.
  map_missing :
      (laws : ListsMapped) (wwn : Text) (n : ℕ) (l : Lun) (w w' : W)
      → (if is_mapped r t pool_modules wwn n (t.parents_of l w) then skip else t.map_lun wwn n l) w
        ≡ (ok tt, w')
      → Shows wwn n (t.parents_of l w')
  map_missing laws wwn n l w w' h =
      elim (Bool-cases (is_mapped r t pool_modules wwn n (t.parents_of l w))) [
        | inl there ↦
            subst (λ x. Shows wwn n (t.parents_of l x)) {x = w} {y = w'} (ground (arith, there, h))
              (shown_of_test wwn n (t.parents_of l w) there)
        | inr missing ↦ laws.maps wwn n l w w' (ground (arith, missing, h))
      ]

  -- The parts of `export_create`: behind the LUN, behind the node ACL, and the whole.
  abbrev map_in : Text → ℕ → Lun → List (ℕ × Text) → Exec W (Unit {0})
  map_in wwn n l mapped =
      (if is_mapped r t pool_modules wwn n mapped then skip else t.map_lun wwn n l)
      >> r.save_to_file

  abbrev map_lun_of : Text → ℕ → Lun → Exec W (Unit {0})
  map_lun_of wwn n l = gets (t.parents_of l) >>= map_in wwn n l

  abbrev create_in : Text → Text → Text → ℕ → Exec W (Unit {0})
  create_in pool vol wwn n = tpg_lun_of r pool_modules pool vol >>= map_lun_of wwn n

  created_in :
      (laws : ListsMapped) (pool vol wwn : Text) (n : ℕ) (w w' : W)
      → create_in pool vol wwn n w ≡ (ok tt, w')
      → (l : Lun) × (w1 : W) × (tpg_lun_of r pool_modules pool vol w ≡ (ok l, w1))
        × Shows wwn n (t.parents_of l w')
  created_in laws pool vol wwn n w w' h =
      let a = >>=-Runs (tpg_lun_of r pool_modules pool vol) (map_lun_of wwn n) w h in
      let add =
        if is_mapped r t pool_modules wwn n (t.parents_of a.value a.state)
        then skip
        else t.map_lun wwn n a.value in
      let b = >>=-Runs add (λ _. r.save_to_file) a.state a.second in
      let there = map_missing laws wwn n a.value a.state b.state b.first in
      (
        a.value,
        a.state,
        a.first,
        subst (Shows wwn n) (sym (laws.saves a.value b.state w' b.second)) there,
      )

  -- For an rtslib that lists what it has mapped, changes no mapped LUN when it saves, and names
  -- storage objects as it is asked: if `export_create` ends well, then the target, its attributes and
  -- the node ACL of the initiator were made, behind them `_tpg_lun_of` has found or made a LUN whose
  -- storage object is a block storage object with the name that the back end of the pool gives to
  -- the volume, and in the end the mappings of that LUN have one to the initiator under the given
  -- number, whether they had it before the call or not.
  pub export_create-ok :
      (laws : ListsMapped) (named : IsNamed r) (pool vol wwn : Text) (n : ℕ) (w w' : W)
      → export_create r t pool_modules pool vol wwn n w ≡ (ok tt, w')
      → (w0 : W) × (l : Lun) × (w1 : W) × ((t.open_tpg >> (r.enable >> t.node_acl wwn)) w
          ≡ (ok tt, w0))
        × (tpg_lun_of r pool_modules pool vol w0 ≡ (ok l, w1))
        × IsLunOf r pool_modules pool vol l
        × Shows wwn n (t.parents_of l w')
  unfolding export_create
  export_create-ok laws named pool vol wwn n w w' h =
      let make = create_in pool vol wwn n in
      let a = >>=-Runs t.open_tpg (λ _. r.enable >> (t.node_acl wwn >> make)) w h in
      let b = >>=-Runs r.enable (λ _. t.node_acl wwn >> make) a.state a.second in
      let c = >>=-Runs (t.node_acl wwn) (λ _. make) b.state b.second in
      let (l, w1, found, mapped) = created_in laws pool vol wwn n c.state w' c.second in
      (
        c.state,
        l,
        w1,
        >>=-ok t.open_tpg (λ _. r.enable >> t.node_acl wwn) a.first
            ∙ (>>=-ok r.enable (λ _. t.node_acl wwn) b.first ∙ c.first),
        found,
        tpg_lun_of-IsLunOf r named pool_modules pool vol c.state w1 l found,
        mapped,
      )
