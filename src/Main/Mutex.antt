-- ===== src/Main/Mutex.antt =====
-- The threads of targetd/main.py that serve requests at once, and the `mutex` around the methods.
pub mod Phases
pub mod Laws
pub mod Progress
use targetd.Prelude.{◌≡◌, ℕ, Bool, true, false, ◌==◌, ◌⊎◌, List, [], ◌∷◌, ◌++◌, if◌then◌else◌}
use targetd.Prelude.Dict.{Dict}
use targetd.Utils.Errors.{Result}
use targetd.Utils.Exec.{Exec}
use targetd.Main.Rpc.{Rpc, call}

-- A method under way: it has ended, or the machine changes and the rest depends on what was found.
pub data Work (W R : Type 0) : Type 0 where
  ended : Result R → Work W R
  change : (W → W) → (W → Work W R) → Work W R

unfoldable pub run : {W R : Type 0} → Work W R → W → Result R × W
run (ended r) w = (r, w)
run (change f rest) w = run (rest w) (f w)

-- Where a thread is in `do_POST`: it has no request, it waits in `mutex.acquire()`, it is between
-- `acquire` and `release`, or it has released with the result or the exception of the method.
pub data Phase (J W R : Type 0) : Type 0 where
  idle : Phase J W R
  waiting : Rpc J → Phase J W R
  inside : Work W R → Phase J W R
  released : Result R → Phase J W R

pub record Threads (J W R : Type 0) : Type 0 where
  pub machine : W
  pub locked : Bool
  pub phase : ℕ → Phase J W R

unfoldable pub set {ℓ} : {A : Type ℓ} → ℕ → A → (ℕ → A) → ℕ → A
set i a f j = if i == j then a else f j

module _ {J W R : Type 0} (work : Rpc J → Work W R) where
  -- A step of one thread, with the request that takes the mutex by it. Only `acquire` waits;
  -- `finally` releases behind a result and behind an exception.
  pub data Step : Threads J W R → List (ℕ × Rpc J) → Threads J W R → Type 0 where
    receives :
        (s : Threads J W R) (i : ℕ) (rpc : Rpc J)
        → s.phase i ≡ idle
        → Step s [] (record s { phase = set i (waiting rpc) s.phase })
    acquires :
        (s : Threads J W R) (i : ℕ) (rpc : Rpc J)
        → s.phase i ≡ waiting rpc
        → s.locked ≡ false
        → Step s
            ((i, rpc) ∷ [])
            (record s { locked = true; phase = set i (inside (work rpc)) s.phase })
    works :
        (s : Threads J W R) (i : ℕ) (f : W → W) (rest : W → Work W R)
        → s.phase i ≡ inside (change f rest)
        → Step s []
            (record s { machine = f s.machine; phase = set i (inside (rest s.machine)) s.phase })
    releases :
        (s : Threads J W R) (i : ℕ) (r : Result R)
        → s.phase i ≡ inside (ended r)
        → Step s [] (record s { locked = false; phase = set i (released r) s.phase })

  -- The threads that a run from the machine `w` comes to, with the requests that took the mutex,
  -- the last one first.
  pub data Reach (w : W) : Threads J W R → List (ℕ × Rpc J) → Type 0 where
    start : Reach w (record { machine = w; locked = false; phase = λ _. idle }) []
    next :
        {s t : Threads J W R} {taken order : List (ℕ × Rpc J)}
        → Reach w s order
        → Step s taken t
        → Reach w t (taken ++ order)

-- The same requests, one after the other.
module _ {J W R : Type 0} (mapping : Dict (Dict J → Exec W R)) where
  unfoldable pub serial : List (ℕ × Rpc J) → W → W
  unfolding call
  serial [] w = w
  serial ((_, rpc) ∷ earlier) w = (call mapping rpc (serial earlier w)).1

  -- The result is that of a request of the thread, called behind the earlier ones.
  unfoldable pub Answered : W → ℕ → Result R → List (ℕ × Rpc J) → Type 0
  unfolding serial
  Answered w i r [] = ⊥
  Answered w i r ((j, rpc) ∷ earlier) =
      ((i ≡ j) × (r ≡ (call mapping rpc (serial earlier w)).0)) ⊎ Answered w i r earlier
