-- ===== src/Tests/Mutex.antt =====
-- Two requests at once to targetd/main.py.
use targetd.Prelude.{
  ◌≡◌, refl, sym, ap, ◌∙◌, arith, true, false, ℕ, ◌+◌, Text, codes, [], ◌∷◌, Bool-cases, inl, inr,
  text_eq,
}
use targetd.Prelude.Dict.{Dict, lookup}
use targetd.Utils.Errors.{Result, ok, err, pos}
use targetd.Utils.Exec.{Exec}
use targetd.Main.Rpc.{
  Value, Rpc, truth, number, array, object, text, null, call, find_method, arguments,
}
use targetd.Main.Mutex.{
  Work, ended, change, run, idle, waiting, inside, released, Threads, set, receives, acquires,
  works, releases, Reach, start, next, serial, Answered,
}
use targetd.Main.Mutex.Laws.{Reach-serial}
use targetd.Main.Mutex.Progress.{ComesToEnd, Reach-served}

-- A method that adds one to the machine twice.
abbrev twice : Dict (Unit {0}) → Exec ℕ ℕ
twice _ n = (ok n, n + 1 + 1)

abbrev mapping : Dict (Dict (Unit {0}) → Exec ℕ ℕ)
mapping = (codes "twice", twice) ∷ []

-- It in two steps, behind the search for it and for its arguments.
abbrev steps : Work ℕ ℕ
steps = change (λ n. n + 1) (λ n. change (λ m. m + 1) (λ _. ended (ok n)))

abbrev work_of : Result (Dict (Unit {0}) → Exec ℕ ℕ) → Result (Dict (Unit {0})) → Work ℕ ℕ
work_of (err e) _ = ended (err e)
work_of (ok _) (err e) = ended (err e)
work_of (ok _) (ok _) = steps

abbrev work : Rpc (Unit {0}) → Work ℕ ℕ
work rpc = work_of (find_method mapping rpc.method) (arguments rpc.params)

none_found :
    (name : Text) (f : Dict (Unit {0}) → Exec ℕ ℕ)
    → text_eq (codes "twice") name ≡ false
    → find_method mapping (text name) ≡ ok f
    → ⊥
unfolding find_method lookup
none_found name f other h = ground (arith, other, h)

ok_same : {A : Type 0} {f g : A} → ok g ≡ ok f → f ≡ g
ok_same h = cc

twice_found :
    (name : Text) → text_eq (codes "twice") name ≡ true → find_method mapping (text name) ≡ ok twice
unfolding find_method lookup text_eq
twice_found name same = rw same refl

found_twice :
    (v : Value (Unit {0})) (f : Dict (Unit {0}) → Exec ℕ ℕ)
    → find_method mapping v ≡ ok f
    → f ≡ twice
unfolding find_method lookup
found_twice (text name) f h = elim (Bool-cases (text_eq (codes "twice") name)) [
  | inl same ↦ ok_same (sym (twice_found name same) ∙ h)
  | inr other ↦ absurd (none_found name f other h)
]
found_twice null f h = cc
found_twice (truth _) f h = cc
found_twice (number _) f h = cc
found_twice (array _) f h = cc
found_twice (object _) f h = cc

same_run :
    (r : Result (Dict (Unit {0}) → Exec ℕ ℕ)) (a : Result (Dict (Unit {0}))) (n : ℕ)
    → ((f : Dict (Unit {0}) → Exec ℕ ℕ) → r ≡ ok f → f ≡ twice)
    → run (work_of r a) n ≡ elim r as (λ _. Result ℕ × ℕ) [
      | err e ↦ (err e, n)
      | ok f ↦ elim a [ err e ↦ (err e, n) | ok kwargs ↦ f kwargs n ]
    ]
unfolding run
same_run (err e) a n h = refl
same_run (ok f) (err e) n h = refl
same_run (ok f) (ok kwargs) n h = ap (λ g. g kwargs n) (sym (h f refl))

work_carries_out : (rpc : Rpc (Unit {0})) (n : ℕ) → run (work rpc) n ≡ call mapping rpc n
unfolding call
work_carries_out rpc n =
    same_run (find_method mapping rpc.method) (arguments rpc.params) n (found_twice rpc.method)

abbrev request : Rpc (Unit {0})
request = record { method = text (codes "twice"); id_num = pos 1; params = null }

-- The second thread takes the mutex while the first one waits.
abbrev s0 : Threads (Unit {0}) ℕ ℕ
s0 = record { machine = 5; locked = false; phase = λ _. idle }

abbrev s1 : Threads (Unit {0}) ℕ ℕ
s1 = record s0 { phase = set 1 (waiting request) s0.phase }

abbrev s2 : Threads (Unit {0}) ℕ ℕ
s2 = record s1 { phase = set 2 (waiting request) s1.phase }

abbrev s3 : Threads (Unit {0}) ℕ ℕ
s3 = record s2 { locked = true; phase = set 2 (inside (work request)) s2.phase }

abbrev s4 : Threads (Unit {0}) ℕ ℕ
s4 = record s3 {
  machine = 6;
  phase = set 2 (inside (change (λ m. m + 1) (λ _. ended (ok 5)))) s3.phase;
}

abbrev s5 : Threads (Unit {0}) ℕ ℕ
s5 = record s4 { machine = 7; phase = set 2 (inside (ended (ok 5))) s4.phase }

abbrev s6 : Threads (Unit {0}) ℕ ℕ
s6 = record s5 { locked = false; phase = set 2 (released (ok 5)) s5.phase }

s6-Reach : Reach work 5 s6 ((2, request) ∷ [])
unfolding set find_method lookup text_eq arguments
s6-Reach =
    next
      (next
        (next
          (next (next (next start (receives s0 1 request refl)) (receives s1 2 request refl))
            (acquires s2 2 request refl refl))
          (works s3 2 (λ n. n + 1) (λ n. change (λ m. m + 1) (λ _. ended (ok n))) refl))
        (works s4 2 (λ m. m + 1) (λ _. ended (ok 5)) refl))
      (releases s5 2 (ok 5) refl)

served_in_order :
    ((i j : ℕ) (k l : Work ℕ ℕ) → s6.phase i ≡ inside k → s6.phase j ≡ inside l → i ≡ j)
    × (s6.locked ≡ false → s6.machine ≡ serial mapping ((2, request) ∷ []) 5)
    × ((i : ℕ) (r : Result ℕ)
        → s6.phase i ≡ released r
        → Answered mapping 5 i r ((2, request) ∷ []))
served_in_order = Reach-serial mapping work work_carries_out s6-Reach

-- Thread 1 waits while thread 2 is inside.
s3-Reach : Reach work 5 s3 ((2, request) ∷ [])
unfolding set
s3-Reach =
    next (next (next start (receives s0 1 request refl)) (receives s1 2 request refl))
      (acquires s2 2 request refl refl)

waiting_served :
    ComesToEnd mapping work work_carries_out (serial mapping ((2, request) ∷ []) 5) s3 1 request
unfolding set
waiting_served = Reach-served mapping work work_carries_out 1 request s3-Reach refl
