-- ===== src/Block/Exports/Tidied.antt =====
-- The tidying of export_destroy in targetd/block.py.
use targetd.Prelude.{
  ◌≡◌, refl, sym, subst, arith, inl, inr, ℕ, Bool, true, false, ◌&&◌, ◌==◌, Text, text_eq,
  text_eq_iff, any, Bool-cases, List, [], ◌∷◌,
}
use targetd.Utils.Exec.{>>=-state}
use targetd.Backends.Interface.{BlockBackend}
use targetd.Block.Mappings.{Rtslib, is_empty, tidy}
use targetd.Block.Exports.{NodeAcls, prune_tpg, prune}
use targetd.Block.Exports.Mapped.{is_mapped_to, object_name, KeepsMapped, HasOwnObjects}

any_empty {ℓ} :
    {A : Type ℓ} (test : A → Bool) (xs : List A) → is_empty xs ≡ true → any test xs ≡ false
any_empty test [] h = refl
any_empty test (x ∷ xs) h = cc

module _ {W Storage Lun : Type 0} (r : Rtslib W Storage Lun) (t : NodeAcls W Storage Lun)
    (laws : KeepsMapped r t) (pool_modules : List (BlockBackend W)) (a : Text) (n : ℕ)
    (l : Lun) where
  abbrev pub Mapped : W → Type 0
  Mapped w = is_mapped_to r t a n l w ≡ true

  pub tidy-Mapped :
      (k : Lun) (w0 w : W)
      → HasOwnObjects r t w0
      → Mapped w0
      → ((b : Text) × (m : ℕ) × (is_mapped_to r t b m k w0 ≡ true))
      → Mapped w
      → Mapped (tidy r pool_modules k w).1
  unfolding tidy
  tidy-Mapped k w0 w own was (b, m, k_was) now = elim (Bool-cases (is_empty (r.mapped_luns k w))) [
    | inr used ↦ rw used now
    | inl unused ↦ rw unused (
        >>=-state (r.delete_lun k) (λ _. r.delete_so (r.storage_object k)) w Mapped
          (laws.deletes_lun a n l k w (other unused) now)
          (λ _ _.
            laws.deletes_so a n l (r.storage_object k) (r.delete_lun k w).1 (other_object unused)
              (laws.deletes_lun a n l k w (other unused) now)))
  ]
    where
      other : is_empty (r.mapped_luns k w) ≡ true → r.same_lun k l ≡ false
      other unused = elim (Bool-cases (r.same_lun k l)) [
        | inr no_lun ↦ no_lun
        | inl same ↦ absurd (
            ground (
              arith,
              unused,
              laws.lun_lists a n k w
                  (subst (λ x. is_mapped_to r t a n x w ≡ true) (sym ((laws.same k l).0 same)) now),
            ))
      ]

      other_object :
          is_empty (r.mapped_luns k w) ≡ true
          → text_eq (object_name r t k) (object_name r t l) ≡ false
      other_object unused = elim (Bool-cases (text_eq (object_name r t k) (object_name r t l))) [
        | inr differ ↦ differ
        | inl same ↦
            absurd
              (ground (arith, other unused, (laws.same k l).1 (own a b n m l k was k_was same)))
      ]

  prune_tpg-Mapped : (w : W) → Mapped w → Mapped (prune_tpg r t pool_modules w).1
  unfolding prune_tpg
  prune_tpg-Mapped w now = rw (laws.acl_listed a n l w now) now

  pub prune-Mapped : (wwn : Text) (w : W) → Mapped w → Mapped (prune r t pool_modules wwn w).1
  unfolding prune
  prune-Mapped wwn w now = elim (Bool-cases (is_empty (t.mapped_of wwn w))) [
    | inr used ↦ rw used now
    | inl unused ↦ rw unused (
        >>=-state (t.delete_acl wwn) (λ _. prune_tpg r t pool_modules) w Mapped
          (laws.deletes_acl a n l wwn w (other unused) now)
          (λ _ _.
            prune_tpg-Mapped (t.delete_acl wwn w).1
              (laws.deletes_acl a n l wwn w (other unused) now)))
  ]
    where
      other : is_empty (t.mapped_of wwn w) ≡ true → text_eq a wwn ≡ false
      other unused = elim (Bool-cases (text_eq a wwn)) [
        | inr differ ↦ differ
        | inl same ↦ absurd (
            ground (
              arith,
              any_empty (λ m. m.0 == n && r.same_lun m.1 l) (t.mapped_of wwn w) unused,
              subst (λ x. is_mapped_to r t x n l w ≡ true) ((text_eq_iff a wwn).0 same) now,
            ))
      ]
