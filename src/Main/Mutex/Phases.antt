-- ===== src/Main/Mutex/Phases.antt =====
-- What the threads of targetd/main.py are about, when that of one of them changes.
use targetd.Prelude.{
  ◌≡◌, refl, sym, ap, ◌∙◌, arith, ◌⊎◌, inl, inr, ℕ, ◌==◌, ==_iff, ==_refl, Bool-cases,
}
use targetd.Utils.Errors.{Result}
use targetd.Main.Mutex.{Work, Phase, inside, released, set}

pub set_same {ℓ} : {A : Type ℓ} (i : ℕ) (a : A) (f : ℕ → A) → set i a f i ≡ a
unfolding set
set_same i a f = rw (==_refl i) refl

-- What is at a place that was not the one that is set, by its value.
pub set_kept {ℓ} :
    {A : Type ℓ} (i j : ℕ) (a b : A) (f : ℕ → A) → f j ≡ b → (f i ≡ b → ⊥) → set i a f j ≡ b
unfolding set
set_kept i j a b f e n = elim (Bool-cases (i == j)) [
  | inl same ↦ absurd (n (ap f ((==_iff i j).0 same) ∙ e))
  | inr other ↦ rw other e
]

pub set_other {ℓ} : {A : Type ℓ} (i j : ℕ) (a : A) (f : ℕ → A) → (i ≡ j → ⊥) → set i a f j ≡ f j
unfolding set
set_other i j a f n = elim (Bool-cases (i == j)) [
  | inl same ↦ absurd (n ((==_iff i j).0 same))
  | inr other ↦ rw other refl
]

pub set-cases {ℓ} :
    {A : Type ℓ} (i j : ℕ) (a b : A) (f : ℕ → A)
    → set i a f j ≡ b
    → ((i ≡ j) × (a ≡ b)) ⊎ ((i ≡ j → ⊥) × (f j ≡ b))
unfolding set
set-cases i j a b f e = elim (Bool-cases (i == j)) [
  | inl same ↦ inl ((==_iff i j).0 same, ground (arith, same, e))
  | inr other ↦ inr ((λ h. ground (arith, other, h)), ground (arith, other, e))
]

-- The constructors are injective.
abbrev work_of : {J W R : Type 0} → Phase J W R → Work W R → Work W R
work_of (inside k) _ = k
work_of _ k = k

pub inside_same :
    {J W R : Type 0} (p : Phase J W R) (k k' : Work W R) → p ≡ inside k → p ≡ inside k' → k ≡ k'
inside_same p k k' e e' = sym (ap (λ q. work_of q k) e) ∙ ap (λ q. work_of q k) e'

abbrev pub result_of : {J W R : Type 0} → Phase J W R → Result R → Result R
result_of (released r) _ = r
result_of _ r = r
