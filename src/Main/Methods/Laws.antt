-- ===== src/Main/Methods/Laws.antt =====
-- What the functions of a dict of methods keep, and so does a call of any of them.
use targetd.Prelude.{
  ◌≡◌, refl, not, ◌||◌, subst, ap, sym, arith, true, Text, text_eq, Option, none, some, [], ◌∷◌,
  Bool-cases, Option-cases, inl, inr,
}
use targetd.Prelude.Dict.{Dict, lookup, insert, update}
use targetd.Utils.Exec.{Exec, pure, ◌>>=◌}
use targetd.Utils.Keeps.{Keeps, pure-Keeps, >>=-Keeps}
use targetd.Main.Rpc.{Value}
use targetd.Main.Methods.{Answer, Method, fits, call_method, callable, is_some, ◌>>=?◌}

-- What the arguments are read to keeps it, if they are of the expected types.
pub record ActKeeps {W : Type 0} (P : W → Type 0) (o : Option (Exec W Answer)) : Type 0 where
  pub act_keeps : (act : Exec W Answer) → o ≡ some act → Keeps P act

module _ {W : Type 0} {P : W → Type 0} where
  pub answers-ActKeeps :
      {A : Type 0} (f : A → Answer) {m : Exec W A}
      → Keeps P m
      → ActKeeps P (some (m >>= λ a. pure (f a)))
  answers-ActKeeps f x = record {
    act_keeps = λ act e.
        subst (Keeps P) (ap (λ o. elim o as (λ _. Exec W Answer) [ some a ↦ a | none ↦ act ]) e)
          (>>=-Keeps x (λ a. pure-Keeps (f a)));
  }

  pub >>=?-ActKeeps :
      {A : Type 0} (o : Option A) {f : A → Option (Exec W Answer)}
      → ((a : A) → ActKeeps P (f a))
      → ActKeeps P (o >>=? f)
  >>=?-ActKeeps none x = record { act_keeps = λ act e. cc }
  >>=?-ActKeeps (some a) x = x a

pub ruleset act_rules = (answers-ActKeeps, >>=?-ActKeeps)

-- Every function of the dict, with arguments of the expected types.
abbrev pub AllKeep : {K W : Type 0} → (W → Type 0) → Dict (Method K W) → Type 0
AllKeep P [] = Unit {0}
AllKeep {K} P ((name, m) ∷ methods) =
    ((d : Dict (Value K)) → ActKeeps P (m.body d)) × AllKeep P methods

same_act : {A : Type 0} (a b : A) → some a ≡ some b → b ≡ a
same_act {A} a b e = sym (ap (λ o. elim o as (λ _. A) [ some x ↦ x | none ↦ a ]) e)

module _ {K W : Type 0} (P : W → Type 0) where
  pub insert-AllKeep :
      (name : Text) (m : Method K W) (methods : Dict (Method K W))
      → ((d : Dict (Value K)) → ActKeeps P (m.body d))
      → AllKeep P methods
      → AllKeep P (insert name m methods)
  unfolding insert
  insert-AllKeep name m [] x all = (x, tt)
  insert-AllKeep name m ((key, m') ∷ methods) x (first, all) =
      elim (Bool-cases (text_eq key name)) [
        | inl same ↦ rw same (x, all)
        | inr other ↦ rw other (first, insert-AllKeep name m methods x all)
      ]

  pub update-AllKeep :
      (methods more : Dict (Method K W))
      → AllKeep P methods
      → AllKeep P more
      → AllKeep P (update methods more)
  unfolding update
  update-AllKeep methods [] all _ = all
  update-AllKeep methods ((name, m) ∷ more) all (x, rest) =
      update-AllKeep (insert name m methods) more (insert-AllKeep name m methods x all) rest

  -- A function that is called is one of the dict.
  pub record Callee (other : Text → Dict (Value K) → Exec W Answer) (methods : Dict (Method K W))
      (name : Text) (f : Dict (Value K) → Exec W Answer) : Type 0 where
    pub method : Method K W
    pub key : Text
    pub found : lookup name methods ≡ some method
    pub called : f ≡ call_method method (other key)
    pub acts : (d : Dict (Value K)) → ActKeeps P (method.body d)

  pub callee :
      (other : Text → Dict (Value K) → Exec W Answer) (methods : Dict (Method K W)) (name : Text)
      (f : Dict (Value K) → Exec W Answer)
      → AllKeep P methods
      → lookup name (callable other methods) ≡ some f
      → Callee other methods name f
  unfolding callable lookup
  callee other [] name f all h = absurd (ground (arith, h))
  callee other ((key, m) ∷ methods) name f (x, all) h = elim (Bool-cases (text_eq key name)) [
    | inl same ↦ record {
      method = m;
      key = key;
      found = rw same refl;
      called = same_act (call_method m (other key)) f (ground (arith, same, h));
      acts = x;
    }
    | inr different ↦
        let c = callee other methods name f all (ground (arith, different, h)) in
        record {
          method = c.method;
          key = c.key;
          found = rw different c.found;
          called = c.called;
          acts = c.acts;
        }
  ]

  -- A call of a function, with arguments of the expected types, keeps what its acts keep.
  pub call_method-Keeps :
      (m : Method K W) (other : Dict (Value K) → Exec W Answer) (d : Dict (Value K))
      → ActKeeps P (m.body d)
      → not (fits m d) || is_some (m.body d) ≡ true
      → Keeps P (call_method m other d)
  unfolding call_method
  call_method-Keeps m other d x typed = record {
    keeps = λ w h. elim (Bool-cases (fits m d)) [
      | inr refused ↦ rw (refused, call_method) h
      | inl fit ↦ elim (Option-cases (m.body d)) [
        | inl bad ↦ absurd (ground (arith, fit, bad, typed))
        | inr (act, good) ↦ rw (fit, good, call_method) ((x.act_keeps act good).keeps w h)
      ]
    ];
  }
