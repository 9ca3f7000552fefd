-- ===== src/Utils/Keeps.antt =====
-- What holds of the state before code that reads and changes it, and also behind it, whether it
-- ends well or raises.
use targetd.Prelude.{Bool, true, false, if◌then◌else◌}
use targetd.Utils.Errors.{Exception, Result, ok, err}
use targetd.Utils.Exec.{
  Exec, pure, raise, lift, gets, catch, ◌>>=◌, ◌>>◌, raise_if, skip, >>=-state,
}

pub record Keeps {S A : Type 0} (P : S → Type 0) (m : Exec S A) : Type 0 where
  pub keeps : (s : S) → P s → P (m s).1

module _ {S A : Type 0} {P : S → Type 0} where
  pub pure-Keeps : (a : A) → Keeps P (pure {S = S} a)
  pure-Keeps a = record { keeps = λ s h. h }

  pub raise-Keeps : (e : Exception) → Keeps P (raise {S = S} {A = A} e)
  raise-Keeps e = record { keeps = λ s h. h }

  pub lift-Keeps : (r : Result A) → Keeps P (lift {S = S} r)
  lift-Keeps r = record { keeps = λ s h. h }

  pub gets-Keeps : (f : S → A) → Keeps P (gets f)
  gets-Keeps f = record { keeps = λ s h. h }

  pub if-Keeps : (b : Bool) {m k : Exec S A} → Keeps P m → Keeps P k → Keeps P (if b then m else k)
  if-Keeps true x y = x
  if-Keeps false x y = y

  -- A handler that keeps what the code kept.
  pub catch-Keeps :
      {m : Exec S A} {handler : Exception → Exec S A}
      → Keeps P m
      → ((e : Exception) → Keeps P (handler e))
      → Keeps P (catch m handler)
  catch-Keeps {m} {handler} x y = record { keeps = λ s h. go (m s).0 (m s).1 (x.keeps s h) }
    where
      go :
          (r : Result A) (s' : S)
          → P s'
          → P (elim r as (λ _. Result A × S) [ ok a ↦ (ok a, s') | err e ↦ handler e s' ]).1
      go (ok a) s' h = h
      go (err e) s' h = (y e).keeps s' h

module _ {S : Type 0} {P : S → Type 0} where
  pub raise_if-Keeps : (b : Bool) (e : Exception) → Keeps P (raise_if {S = S} b e)
  raise_if-Keeps true e = record { keeps = λ s h. h }
  raise_if-Keeps false e = record { keeps = λ s h. h }

  pub skip-Keeps : Keeps P (skip {S = S})
  skip-Keeps = record { keeps = λ s h. h }

module _ {S A B : Type 0} {P : S → Type 0} where
  pub >>=-Keeps :
      {m : Exec S A} {f : A → Exec S B} → Keeps P m → ((a : A) → Keeps P (f a)) → Keeps P (m >>= f)
  >>=-Keeps {m} {f} x y = record {
    keeps = λ s h. >>=-state m f s P (x.keeps s h) (λ a _. (y a).keeps (m s).1 (x.keeps s h));
  }

  pub >>-Keeps : {m : Exec S A} {k : Exec S B} → Keeps P m → Keeps P k → Keeps P (m >> k)
  >>-Keeps x y = >>=-Keeps x (λ _. y)

pub ruleset keeps_rules = (
  pure-Keeps, raise-Keeps, lift-Keeps, gets-Keeps, if-Keeps, raise_if-Keeps, skip-Keeps, >>=-Keeps,
)
