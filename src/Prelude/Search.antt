-- ===== src/Prelude/Search.antt =====
-- The first element of a list with a property.
use targetd.Prelude.{
  ◌≡◌, refl, ap, arith, inl, inr, Bool, true, false, Bool-cases, List, [], ◌∷◌, ◌++◌, All, any,
}

pub record First {ℓ} {A : Type 0} (P : A → Type ℓ) (xs : List A) : Type ℓ where
  pub found : A
  pub before : List A
  pub after : List A
  pub parts : xs ≡ before ++ found ∷ after
  pub is_good : P found
  pub earlier : All (λ a. P a → ⊥) before

module _ {ℓ} {A : Type 0} {P : A → Type ℓ} where
  abbrev pub here : (a : A) (xs : List A) → P a → First P (a ∷ xs)
  here a xs p = record {
    found = a;
    before = [];
    after = xs;
    parts = refl;
    is_good = p;
    earlier = tt;
  }

  abbrev pub there : (a : A) (xs : List A) → (P a → ⊥) → First P xs → First P (a ∷ xs)
  there a xs n x = record {
    found = x.found;
    before = a ∷ x.before;
    after = x.after;
    parts = ap (λ ys. a ∷ ys) x.parts;
    is_good = x.is_good;
    earlier = (n, x.earlier);
  }

  -- By a Boolean test of the property.
  pub any-First :
      (f : A → Bool) (xs : List A)
      → ((a : A) → f a ≡ true → P a)
      → ((a : A) → P a → f a ≡ true)
      → any f xs ≡ true
      → First P xs
  any-First f [] sound complete h = absurd cc
  any-First f (a ∷ xs) sound complete h = elim (Bool-cases (f a)) [
    | inl e ↦ here a xs (sound a e)
    | inr e ↦
        there a xs (λ p. absurd (ground (arith, complete a p, e)))
          (any-First f xs sound complete (ground (arith, e, h)))
  ]

  pub any-NoneOf :
      (f : A → Bool) (xs : List A)
      → ((a : A) → P a → f a ≡ true)
      → any f xs ≡ false
      → All (λ a. P a → ⊥) xs
  any-NoneOf f [] complete h = tt
  any-NoneOf f (a ∷ xs) complete h =
      (λ p. absurd (ground (arith, complete a p, h)), any-NoneOf f xs complete (ground (arith, h)))
