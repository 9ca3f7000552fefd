-- ===== src/Block/Exports/Laws.antt =====
-- What export_destroy of targetd/block.py leaves of the other exports.
use targetd.Prelude.{
  ◌≡◌, sym, ◌∙◌, subst, arith, ◌⊎◌, inl, inr, ℕ, true, ◌&&◌, ◌==◌, Text, text_eq, text_eq_iff,
  Bool-cases, Option, none, some, List,
}
use targetd.Utils.Errors.{ok}
use targetd.Utils.Exec.{Exec, lift, gets, ◌>>=◌, ◌>>◌, >>=-state}
use targetd.Backends.Interface.{BlockBackend}
use targetd.Block.Volumes.{pool_module}
use targetd.Block.Mappings.{Rtslib, tidy}
use targetd.Block.Exports.{NodeAcls, find_export, unmap, prune, export_destroy}
use targetd.Block.Exports.Mapped.{is_mapped_to, KeepsMapped, HasOwnObjects, IsVolume}
use targetd.Block.Exports.Search.{find_export-some}
use targetd.Block.Exports.Tidied.{Mapped, tidy-Mapped, prune-Mapped}

module _ {W Storage Lun : Type 0} (r : Rtslib W Storage Lun) (t : NodeAcls W Storage Lun)
    (laws : KeepsMapped r t) (pool_modules : List (BlockBackend W)) (a : Text) (n : ℕ)
    (l : Lun) where
  module _ (pool vol wwn : Text) where
    -- The mapped LUN is there, or it is the one that the call is about.
    abbrev pub Kept : W → Type 0
    Kept w =
        (Mapped r t laws pool_modules a n l w) ⊎ ((a ≡ wwn) × IsVolume r t pool_modules pool vol l)

    rest-Kept : (w : W) → Kept w → Kept ((prune r t pool_modules wwn >> r.save_to_file) w).1
    rest-Kept w (inr gone) = inr gone
    rest-Kept w (inl now) =
        let pruned = prune-Mapped r t laws pool_modules a n l wwn w now in
        inl (
          >>=-state (prune r t pool_modules wwn) (λ _. r.save_to_file) w
            (Mapped r t laws pool_modules a n l) pruned
            (λ _ _. laws.saves a n l (prune r t pool_modules wwn w).1 ∙ pruned))

    unmap-Kept :
        (m : ℕ) (k : Lun) (w : W)
        → HasOwnObjects r t w
        → Mapped r t laws pool_modules a n l w
        → is_mapped_to r t wwn m k w ≡ true
        → IsVolume r t pool_modules pool vol k
        → Kept (unmap r t pool_modules wwn (some (m, k)) w).1
    unfolding unmap
    unmap-Kept m k w own now was volume = elim (Bool-cases (text_eq a wwn && n == m)) [
      | inl hit ↦ inr (
        (text_eq_iff a wwn).0 (ground (arith, hit)),
        subst (IsVolume r t pool_modules pool vol)
            (laws.one_lun wwn m k l w was (same_place (ground (arith, hit)) (ground (arith, hit))))
            volume,
      )
      | inr other ↦
          let kept = laws.deletes_mapping a n l wwn m w other now in
          inl (
            >>=-state (t.delete_mapping wwn m) (λ _. tidy r pool_modules k) w
              (Mapped r t laws pool_modules a n l) kept
              (λ _ _.
                tidy-Mapped r t laws pool_modules a n l k w (t.delete_mapping wwn m w).1 own now
                  (wwn, m, was) kept))
    ]
      where
        same_place : text_eq a wwn ≡ true → n ≡ m → is_mapped_to r t wwn m l w ≡ true
        same_place e f =
            subst (λ x. is_mapped_to r t x m l w ≡ true) ((text_eq_iff a wwn).0 e)
              (subst (λ x. is_mapped_to r t a x l w ≡ true) f now)

    -- The parts of `export_destroy` behind the search and behind the node ACL.
    abbrev act : Option (ℕ × Lun) → Exec W (Unit {0})
    act found = unmap r t pool_modules wwn found >> (prune r t pool_modules wwn >> r.save_to_file)

    abbrev look : BlockBackend W → Text → Exec W (Unit {0})
    look mod' dev = gets (t.mapped_of wwn) >>= λ mapped.
        lift (find_export r t pool_modules mod' dev vol mapped) >>= act

    abbrev pub search : BlockBackend W → Exec W (Unit {0})
    search mod' = lift (mod'.pool2dev_name pool) >>= look mod'

    found-Kept :
        (mod' : BlockBackend W) (dev : Text) (found : Option (ℕ × Lun)) (w : W)
        → HasOwnObjects r t w
        → Mapped r t laws pool_modules a n l w
        → pool_module pool_modules pool ≡ ok mod'
        → mod'.pool2dev_name pool ≡ ok dev
        → find_export r t pool_modules mod' dev vol (t.mapped_of wwn w) ≡ ok found
        → Kept (act found w).1
    unfolding unmap
    found-Kept mod' dev none w own now em ed ef = inl now
    found-Kept mod' dev (some (m, k)) w own now em ed ef =
        let (was, volume) =
          find_export-some r t laws pool_modules mod' dev vol (t.mapped_of wwn w) m k ef in
        let kept = unmap-Kept m k w own now was (mod', dev, em, ed, volume) in
        >>=-state (unmap r t pool_modules wwn (some (m, k)))
          (λ _. prune r t pool_modules wwn >> r.save_to_file) w Kept kept
          (λ _ _. rest-Kept (unmap r t pool_modules wwn (some (m, k)) w).1 kept)

    pub search-Kept :
        (mod' : BlockBackend W) (w : W)
        → HasOwnObjects r t w
        → Mapped r t laws pool_modules a n l w
        → pool_module pool_modules pool ≡ ok mod'
        → Kept (search mod' w).1
    search-Kept mod' w own now em =
        >>=-state (lift (mod'.pool2dev_name pool)) (look mod') w Kept (inl now) (λ dev ed.
          >>=-state (lift (find_export r t pool_modules mod' dev vol (t.mapped_of wwn w))) act w
            Kept (inl now) (λ found ef. found-Kept mod' dev found w own now em ed ef))

module _ {W Storage Lun : Type 0} (r : Rtslib W Storage Lun) (t : NodeAcls W Storage Lun) where
  module _ (laws : KeepsMapped r t) (pool_modules : List (BlockBackend W)) where
    HasOwnObjects-stays :
        (w w' : W)
        → ((a : Text) (n : ℕ) (l : Lun) → is_mapped_to r t a n l w' ≡ is_mapped_to r t a n l w)
        → HasOwnObjects r t w
        → HasOwnObjects r t w'
    HasOwnObjects-stays w w' e own a b n m l k h h' =
        own a b n m l k (sym (e a n l) ∙ h) (sym (e b m k) ∙ h')

    -- For an rtslib that obeys the laws of `KeepsMapped`, and a target in which no two mapped LUNs
    -- are of one storage object: whatever `export_destroy` ends with, each mapped LUN of each
    -- initiator is still there afterwards, unless it is one of the given initiator for the given
    -- volume.
    pub export_destroy_keeps :
        (pool vol wwn a : Text) (n : ℕ) (l : Lun) (w : W)
        → HasOwnObjects r t w
        → is_mapped_to r t a n l w ≡ true
        → (is_mapped_to r t a n l (export_destroy r t pool_modules pool vol wwn w).1 ≡ true)
          ⊎ ((a ≡ wwn) × IsVolume r t pool_modules pool vol l)
    unfolding export_destroy
    export_destroy_keeps pool vol wwn a n l w own now =
        >>=-state (lift (pool_module pool_modules pool))
          (λ mod'.
            t.open_tpg >> (t.node_acl wwn >> search r t laws pool_modules a n l pool vol wwn mod'))
          w (Kept r t laws pool_modules a n l pool vol wwn) (inl now)
          (λ mod' em.
            >>=-state t.open_tpg
              (λ _. t.node_acl wwn >> search r t laws pool_modules a n l pool vol wwn mod') w
              (Kept r t laws pool_modules a n l pool vol wwn) (inl (laws.opens a n l w ∙ now))
              (λ _ _.
                let w1 = (t.open_tpg w).1 in
                let w2 = (t.node_acl wwn w1).1 in
                let there = laws.makes_acl a n l wwn w1 ∙ laws.opens a n l w ∙ now in
                >>=-state (t.node_acl wwn)
                  (λ _. search r t laws pool_modules a n l pool vol wwn mod') w1
                  (Kept r t laws pool_modules a n l pool vol wwn) (inl there)
                  (λ _ _.
                    search-Kept r t laws pool_modules a n l pool vol wwn mod' w2
                      (HasOwnObjects-stays w w2
                        (λ b m k. laws.makes_acl b m k wwn w1 ∙ laws.opens b m k w) own)
                      there em)))
