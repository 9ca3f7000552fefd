-- ===== src/Prelude/Dict.antt =====
-- A Python `dict` with text keys, in insertion order.
use mathlib.Core.Path.{◌≡◌, refl, ◌∙◌}
use mathlib.Core.Bool.{Bool, true, false}
use mathlib.Core.List.{List, [], ◌∷◌, ◌++◌, map, append-nil, append_assoc}
use mathlib.Core.Option.{Option, none, some}
use native.Mathlib.Omega.{arith}
use targetd.Prelude.Tests.{if◌then◌else◌}
use targetd.Prelude.Texts.{Text, text_eq, text_eq_iff}

abbrev pub Dict {ℓ} : Type ℓ → Type ℓ
Dict V = List (Text × V)

module _ {ℓ} {V : Type ℓ} where
  -- `d.get(k)`
  unfoldable pub lookup : Text → Dict V → Option V
  lookup k [] = none
  lookup k ((j, v) ∷ d) = if text_eq j k then some v else lookup k d

  -- `k in d`
  abbrev pub contains : Text → Dict V → Bool
  contains k d = elim (lookup k d) [ none ↦ false | some _ ↦ true ]

  -- `d[k] = v`
  unfoldable pub insert : Text → V → Dict V → Dict V
  insert k v [] = (k, v) ∷ []
  insert k v ((j, w) ∷ d) = if text_eq j k then (j, v) ∷ d else (j, w) ∷ insert k v d

  -- `d.update(e)`
  unfoldable pub update : Dict V → Dict V → Dict V
  unfolding insert
  update d [] = d
  update d ((k, v) ∷ e) = update (insert k v d) e

  -- `del d[k]`, for a key that is there
  unfoldable pub erase : Text → Dict V → Dict V
  erase k [] = []
  erase k ((j, w) ∷ d) = if text_eq j k then d else (j, w) ∷ erase k d

  abbrev pub keys : Dict V → List Text
  keys = map (λ e. e.0)

  abbrev pub values : Dict V → List V
  values = map (λ e. e.1)

  -- No key is listed twice.
  abbrev pub NodupKeys : Dict V → Type ℓ
  NodupKeys [] = Unit
  NodupKeys ((k, _) ∷ d) = (lookup k d ≡ none) × NodupKeys d

  pub lookup-insert :
      (k j : Text) (v : V) (d : Dict V)
      → lookup j (insert k v d) ≡ (if text_eq k j then some v else lookup j d)
  unfolding lookup insert
  lookup-insert k j v [] = refl
  lookup-insert k j v ((i, w) ∷ d) =
      ground (arith, text_eq_iff k j, text_eq_iff i k, text_eq_iff i j, lookup-insert k j v d)

  -- A new key goes to the end.
  pub insert_new :
      (k : Text) (v : V) (d : Dict V) → lookup k d ≡ none → insert k v d ≡ d ++ (k, v) ∷ []
  unfolding insert lookup
  insert_new k v [] h = refl
  insert_new k v ((i, w) ∷ d) h = ground (arith, insert_new k v d)

  pub lookup-append_new :
      (k j : Text) (v : V) (d : Dict V)
      → lookup j (d ++ (k, v) ∷ [])
        ≡ elim (lookup j d) [ some w ↦ some w | none ↦ if text_eq k j then some v else none ]
  unfolding lookup
  lookup-append_new k j v [] = refl
  lookup-append_new k j v ((i, w) ∷ d) = ground (arith, lookup-append_new k j v d)

  lookup_behind :
      (p : Dict V) (i k : Text) (v : V) (d : Dict V)
      → lookup i (p ++ (k, v) ∷ d) ≡ none
      → text_eq k i ≡ false
  unfolding lookup
  lookup_behind [] i k v d h = ground arith
  lookup_behind ((j, w) ∷ p) i k v d h = ground (arith, lookup_behind p i k v d)

  -- The key behind a part of the dict is not in that part.
  absent_before :
      (p : Dict V) (k : Text) (v : V) (d : Dict V) → NodupKeys (p ++ (k, v) ∷ d) → lookup k p ≡ none
  unfolding lookup
  absent_before [] k v d h = refl
  absent_before ((i, w) ∷ p) k v d h =
      ground (
        arith,
        absent_before p k v d h.1,
        text_eq_iff i k,
        text_eq_iff k i,
        lookup_behind p i k v d,
      )

  regroup : (p : Dict V) (k : Text) (v : V) (d : Dict V) → (p ++ (k, v) ∷ []) ++ d ≡ p ++ (k, v) ∷ d
  regroup p k v d = append_assoc p ((k, v) ∷ []) d

  -- Updating by keys that are all new appends them.
  pub update_new : (p d : Dict V) → NodupKeys (p ++ d) → update p d ≡ p ++ d
  unfolding update
  update_new p [] h = rw append-nil
  update_new p ((k, v) ∷ d) h =
      rw (insert_new k v p (absent_before p k v d h))
        (update_new (p ++ (k, v) ∷ []) d (rw regroup h) ∙ regroup p k v d)

  pub insert-NodupKeys : (k : Text) (v : V) (d : Dict V) → NodupKeys d → NodupKeys (insert k v d)
  unfolding insert lookup
  insert-NodupKeys k v [] h = (refl, tt)
  insert-NodupKeys k v ((j, w) ∷ d) h =
      ground
        (arith, lookup-insert k j v d, text_eq_iff j k, text_eq_iff k j, insert-NodupKeys k v d)

  pub lookup-erase :
      (k j : Text) (d : Dict V)
      → NodupKeys d
      → lookup j (erase k d) ≡ (if text_eq k j then none else lookup j d)
  unfolding erase lookup
  lookup-erase k j [] h = ground arith
  lookup-erase k j ((i, w) ∷ d) h =
      ground (arith, text_eq_iff i k, text_eq_iff i j, text_eq_iff k j, lookup-erase k j d h.1)

  pub erase-NodupKeys : (k : Text) (d : Dict V) → NodupKeys d → NodupKeys (erase k d)
  unfolding erase lookup
  erase-NodupKeys k [] h = tt
  erase-NodupKeys k ((j, w) ∷ d) h =
      ground (arith, lookup-erase k j d h.1, text_eq_iff j k, erase-NodupKeys k d h.1)
