-- ===== src/Utils/Exec.antt =====
-- Code that reads and changes a state, and may raise. What was changed before a raise stays
-- changed, so the state comes back beside the exception too.
use targetd.Prelude.{◌≡◌, refl, ap}
use targetd.Prelude.{Bool, true, false}
use targetd.Utils.Errors.{Exception, Result, ok, err}

abbrev pub Exec {ℓ} : Type ℓ → Type ℓ → Type ℓ
Exec S A = S → Result A × S

module _ {ℓ} {S A : Type ℓ} where
  abbrev pub pure : A → Exec S A
  pure a s = (ok a, s)

  abbrev pub raise : Exception → Exec S A
  raise e s = (err e, s)

  abbrev pub lift : Result A → Exec S A
  lift r s = (r, s)

  abbrev pub gets : (S → A) → Exec S A
  gets f s = (ok (f s), s)

  -- The handler of `except` clauses takes the exception and the state that it found.
  abbrev pub catch : Exec S A → (Exception → Exec S A) → Exec S A
  catch m handler s = let (r, s') = m s in elim r [ ok a ↦ (ok a, s') | err e ↦ handler e s' ]

module _ {ℓ} {S A B : Type ℓ} where
  infixl 5 ◌>>=◌ ◌>>◌
  abbrev pub ◌>>=◌ : Exec S A → (A → Exec S B) → Exec S B
  ◌>>=◌ m f s = let (r, s') = m s in elim r [ ok a ↦ f a s' | err e ↦ (err e, s') ]

  abbrev pub ◌>>◌ : Exec S A → Exec S B → Exec S B
  m >> k = m >>= λ _. k

-- `if b: raise e`, and nothing else.
module _ {S : Type 0} where
  abbrev pub raise_if : Bool → Exception → Exec S (Unit {0})
  raise_if true e s = (err e, s)
  raise_if false e s = (ok tt, s)

  abbrev pub modify : (S → S) → Exec S (Unit {0})
  modify f s = (ok tt, f s)

  abbrev pub skip : Exec S (Unit {0})
  skip s = (ok tt, s)

-- What a run of two actions that ends well has done.
pub record Runs {S A B : Type 0} (m : Exec S A) (f : A → Exec S B) (s : S) (b : B) (s'' : S)
    : Type 0 where
  pub value : A
  pub state : S
  pub first : m s ≡ (ok value, state)
  pub second : f value state ≡ (ok b, s'')

module _ {S A B : Type 0} where
  Runs-pair :
      (m : Exec S A) (f : A → Exec S B) (s : S) (b : B) (s'' : S) (r : Result A) (s' : S)
      → m s ≡ (r, s')
      → elim r as (λ _. Result B × S) [ ok a ↦ f a s' | err e ↦ (err e, s') ] ≡ (ok b, s'')
      → Runs m f s b s''
  Runs-pair m f s b s'' (ok a) s' e h = record { value = a; state = s'; first = e; second = h }
  Runs-pair m f s b s'' (err x) s' e h = cc

  pub >>=-Runs :
      (m : Exec S A) (f : A → Exec S B) (s : S) {b : B} {s'' : S}
      → (m >>= f) s ≡ (ok b, s'')
      → Runs m f s b s''
  >>=-Runs m f s {b} {s''} h = Runs-pair m f s b s'' (m s).0 (m s).1 refl h

  pub >>=-ok :
      (m : Exec S A) (f : A → Exec S B) {s s' : S} {a : A} → m s ≡ (ok a, s') → (m >>= f) s ≡ f a s'
  >>=-ok m f h =
      ap (λ r. elim r.0 as (λ _. Result B × S) [ ok a ↦ f a r.1 | err e ↦ (err e, r.1) ]) h

  pub >>=-err :
      (m : Exec S A) (f : A → Exec S B) {s s' : S} {e : Exception}
      → m s ≡ (err e, s')
      → (m >>= f) s ≡ (err e, s')
  >>=-err m f h =
      ap (λ r. elim r.0 as (λ _. Result B × S) [ ok a ↦ f a r.1 | err x ↦ (err x, r.1) ]) h

  -- What holds of the state behind the first action and behind the second holds behind both.
  pub >>=-state {κ} :
      (m : Exec S A) (f : A → Exec S B) (s : S) (P : S → Type κ)
      → P (m s).1
      → ((a : A) → (m s).0 ≡ ok a → P (f a (m s).1).1)
      → P ((m >>= f) s).1
  >>=-state m f s P first second = go (m s).0 (m s).1 first second
    where
      go :
          (r : Result A) (s' : S)
          → P s'
          → ((a : A) → r ≡ ok a → P (f a s').1)
          → P (elim r as (λ _. Result B × S) [ ok a ↦ f a s' | err e ↦ (err e, s') ]).1
      go (ok a) s' p q = q a refl
      go (err e) s' p q = p
