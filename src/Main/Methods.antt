-- ===== src/Main/Methods.antt =====
-- The values of `mapping` of targetd/main.py: Python functions that are called with keyword
-- arguments, and what they return.
pub mod Laws
use targetd.Prelude.{
  ℕ, Bool, true, false, ◌&&◌, Text, member, map, Option, none, some, List, [], ◌∷◌, ◌++◌,
  if◌then◌else◌,
}
use targetd.Prelude.Dict.{Dict, lookup, keys}
use targetd.Utils.Errors.{pos, err, type_error}
use targetd.Utils.Exec.{Exec, pure, ◌>>=◌}
use targetd.Backends.Interface.{Volume, PoolInfo, FileSystem, Snapshot}
use targetd.Block.Mappings.{Mapping}
use targetd.Block.AccessGroups.{Group}
use targetd.Block.Exports.{Export}
use targetd.Fs.Exports.{Entry}
use targetd.Main.Rpc.{Value, null, truth, number, text}

pub data Answer : Type 0 where
  nothing : Answer
  volume_list : List Volume → Answer
  export_list_of : List Export → Answer
  initiators : List Text → Answer
  group_list : List Group → Answer
  mapping_list : List Mapping → Answer
  pool_infos : List PoolInfo → Answer
  file_systems : List FileSystem → Answer
  snapshots : List Snapshot → Answer
  security_list : List Text → Answer
  entry_list : List Entry → Answer
  exported : Text × Text → Answer

-- The parameters of a function behind `req`, those without and those with a default, and what it
-- does with arguments of the types that it is written for.
pub record Method (K W : Type 0) : Type 0 where
  pub required : List Text
  pub optional : List Text
  pub body : Dict (Value K) → Option (Exec W Answer)

abbrev pub is_some : {A : Type 0} → Option A → Bool
is_some none = false
is_some (some _) = true

abbrev pub all_in : List Text → List Text → Bool
all_in [] names = true
all_in (k ∷ ks) names = member k names && all_in ks names

-- The arguments, by the types that the functions are written for.
module _ {K : Type 0} where
  unfoldable pub text_arg : Dict (Value K) → Text → Option Text
  text_arg kwargs key = elim (lookup key kwargs) [
    | some v ↦ elim v [ text s ↦ some s | _ ↦ none ]
    | none ↦ none
  ]

  unfoldable pub nat_arg : Dict (Value K) → Text → Option ℕ
  nat_arg kwargs key = elim (lookup key kwargs) [
    | some v ↦ elim v [ number z ↦ elim z [ pos n ↦ some n | _ ↦ none ] | _ ↦ none ]
    | none ↦ none
  ]

  -- A text, or `None`, which is also the default
  unfoldable pub text_or_none : Dict (Value K) → Text → Option (Option Text)
  text_or_none kwargs key = elim (lookup key kwargs) [
    | some v ↦ elim v [ text s ↦ some (some s) | null ↦ some none | _ ↦ none ]
    | none ↦ some none
  ]

  unfoldable pub nat_or_none : Dict (Value K) → Text → Option (Option ℕ)
  nat_or_none kwargs key = elim (lookup key kwargs) [
    | some v ↦ elim v [
      | number z ↦ elim z [ pos n ↦ some (some n) | _ ↦ none ]
      | null ↦ some none
      | _ ↦ none
    ]
    | none ↦ some none
  ]

  -- The default `False`
  unfoldable pub truth_arg : Dict (Value K) → Text → Option Bool
  truth_arg kwargs key = elim (lookup key kwargs) [
    | some v ↦ elim v [ truth b ↦ some b | _ ↦ none ]
    | none ↦ some false
  ]

module _ {K W : Type 0} where
  -- Each parameter without a default is given, and nothing else than parameters is.
  abbrev pub fits : Method K W → Dict (Value K) → Bool
  fits m kwargs = all_in m.required (keys kwargs) && all_in (keys kwargs) (m.required ++ m.optional)

  -- `f(self, **params)`; `other` is what it does with arguments of other types.
  unfoldable pub call_method :
      Method K W → (Dict (Value K) → Exec W Answer) → Dict (Value K) → Exec W Answer
  call_method m other kwargs w =
      if fits m kwargs
      then elim (m.body kwargs) [ some act ↦ act w | none ↦ other kwargs w ]
      else (err type_error, w)

  -- The dict as `do_POST` calls it.
  unfoldable pub callable :
      (Text → Dict (Value K) → Exec W Answer)
      → Dict (Method K W)
      → Dict (Dict (Value K) → Exec W Answer)
  unfolding call_method
  callable other [] = []
  callable other ((name, m) ∷ methods) = (name, call_method m (other name)) ∷ callable other methods

module _ {W A : Type 0} where
  abbrev pub answers : (A → Answer) → Exec W A → Option (Exec W Answer)
  answers f m = some (m >>= λ a. pure (f a))

  abbrev pub done : Exec W A → Option (Exec W Answer)
  done = answers (λ _. nothing)

module _ {A B : Type 0} where
  infixl 5 ◌>>=?◌
  -- The next argument.
  abbrev pub ◌>>=?◌ : Option A → (A → Option B) → Option B
  none >>=? f = none
  some a >>=? f = f a
