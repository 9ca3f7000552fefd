-- ===== src/Main/Mutex/Progress.antt =====
-- What the requests that targetd/main.py serves at once come to.
use targetd.Prelude.{◌≡◌, refl, sym, ap, ◌∙◌, ℕ, true, false, inl, inr, List}
use targetd.Prelude.Dict.{Dict}
use targetd.Utils.Exec.{Exec}
use targetd.Main.Rpc.{Rpc, call}
use targetd.Main.Mutex.{
  Work, ended, change, run, waiting, inside, released, Threads, set, Step, receives, acquires,
  works, releases, Reach, serial,
}
use targetd.Main.Mutex.Phases.{set_same, set_other}
use targetd.Main.Mutex.Laws.{IsHeld, Reach-IsSerial}

module _ {J W R : Type 0} (work : Rpc J → Work W R) where
  -- All steps but those by which a thread receives a request.
  abbrev pub IsServing :
      {s t : Threads J W R} {taken : List (ℕ × Rpc J)} → Step work s taken t → Type 0
  IsServing (receives s i rpc e) = ⊥
  IsServing (acquires s i rpc e free) = Unit {0}
  IsServing (works s i f rest e) = Unit {0}
  IsServing (releases s i r e) = Unit {0}

  -- Steps that receive no request.
  pub data Served : Threads J W R → Threads J W R → Type 0 where
    here : {s : Threads J W R} → Served s s
    then :
        {s t u : Threads J W R} {taken : List (ℕ × Rpc J)} (step : Step work s taken t)
        → IsServing step
        → Served t u
        → Served s u

  Served-trans : {s t u : Threads J W R} → Served s t → Served t u → Served s u
  Served-trans here q = q
  Served-trans (then step i p) q = then step i (Served-trans p q)

  -- The thread has released, the mutex is free, and the other threads are where they were.
  pub record Ended (s : Threads J W R) (i : ℕ) (k : Work W R) : Type 0 where
    pub last : Threads J W R
    pub served : Served s last
    pub is_free : last.locked ≡ false
    pub is_released : last.phase i ≡ released (run k s.machine).0
    pub machine : last.machine ≡ (run k s.machine).1
    pub others : (j : ℕ) → (i ≡ j → ⊥) → last.phase j ≡ s.phase j

  -- What is inside comes to its end.
  finish : (k : Work W R) (s : Threads J W R) (i : ℕ) → s.phase i ≡ inside k → Ended s i k
  unfolding run
  finish (ended r) s i e = record {
    last = record s { locked = false; phase = set i (released r) s.phase };
    served = then (releases s i r e) tt here;
    is_free = refl;
    is_released = set_same i (released r) s.phase;
    machine = refl;
    others = λ j n. set_other i j (released r) s.phase n;
  }
  finish (change f rest) s i e =
      let s' : Threads J W R = record s {
        machine = f s.machine;
        phase = set i (inside (rest s.machine)) s.phase;
      } in
      let x = finish (rest s.machine) s' i (set_same i (inside (rest s.machine)) s.phase) in
      record {
        last = x.last;
        served = then (works s i f rest e) tt x.served;
        is_free = x.is_free;
        is_released = x.is_released;
        machine = x.machine;
        others = λ j n. x.others j n ∙ set_other i j (inside (rest s.machine)) s.phase n;
      }

  -- What waits at a free mutex comes to its end.
  serve :
      (s : Threads J W R) (i : ℕ) (rpc : Rpc J)
      → s.phase i ≡ waiting rpc
      → s.locked ≡ false
      → Ended s i (work rpc)
  serve s i rpc e free =
      let s' : Threads J W R = record s {
        locked = true;
        phase = set i (inside (work rpc)) s.phase;
      } in
      let x = finish (work rpc) s' i (set_same i (inside (work rpc)) s.phase) in
      record {
        last = x.last;
        served = then (acquires s i rpc e free) tt x.served;
        is_free = x.is_free;
        is_released = x.is_released;
        machine = x.machine;
        others = λ j n. x.others j n ∙ set_other i j (inside (work rpc)) s.phase n;
      }

module _ {J W R : Type 0} (mapping : Dict (Dict J → Exec W R)) (work : Rpc J → Work W R)
    (carries_out : (rpc : Rpc J) (w : W) → run (work rpc) w ≡ call mapping rpc w) where
  -- The thread ends with the result of its request at the machine that the earlier ones leave.
  abbrev pub ComesToEnd : W → Threads J W R → ℕ → Rpc J → Type 0
  ComesToEnd m s i rpc =
      (t : Threads J W R) × (Served work s t)
      × (t.locked ≡ false)
      × (t.phase i ≡ released (call mapping rpc m).0)
      × (t.machine ≡ (call mapping rpc m).1)

  serve-ComesToEnd :
      (m : W) (s : Threads J W R) (i : ℕ) (rpc : Rpc J)
      → s.phase i ≡ waiting rpc
      → s.locked ≡ false
      → s.machine ≡ m
      → ComesToEnd m s i rpc
  serve-ComesToEnd m s i rpc e free same =
      let x = serve work s i rpc e free in
      let led = carries_out rpc s.machine ∙ ap (call mapping rpc) same in
      (
        x.last,
        x.served,
        x.is_free,
        x.is_released ∙ ap (λ p. released p.0) led,
        x.machine ∙ ap (λ p. p.1) led,
      )

  held-ComesToEnd :
      {w : W} {s : Threads J W R} {order : List (ℕ × Rpc J)} (i : ℕ) (rpc : Rpc J)
      → s.phase i ≡ waiting rpc
      → IsHeld mapping work carries_out w s order
      → ComesToEnd (serial mapping order w) s i rpc
  unfolding serial
  held-ComesToEnd {w} {s} {order} i rpc e x =
      let y = finish work x.rest s x.holder x.is_inside in
      let (t, served, free, result, machine) =
        serve-ComesToEnd (serial mapping order w) y.last i rpc
          (y.others i (λ h. cc (ap s.phase h)) ∙ e) y.is_free
          (y.machine ∙ (ap (λ p. p.1) x.leads ∙ ap (λ o. serial mapping o w) (sym x.last))) in
      (t, Served-trans work y.served served, free, result, machine)

  -- If every request is carried out in the steps of its `work`: from every state that the threads
  -- can come to, a request that waits for the mutex can be served by steps of threads that have one
  -- already; then the mutex is free, and the thread has released with the result of its request,
  -- called on the machine that the requests which had taken the mutex leave.
  pub Reach-served :
      {w : W} {s : Threads J W R} {order : List (ℕ × Rpc J)} (i : ℕ) (rpc : Rpc J)
      → Reach work w s order
      → s.phase i ≡ waiting rpc
      → ComesToEnd (serial mapping order w) s i rpc
  Reach-served {w} {s} {order} i rpc reach e =
      let (held, _) = Reach-IsSerial mapping work carries_out reach in
      elim held [
        | inl (free, nobody, machine) ↦
            serve-ComesToEnd (serial mapping order w) s i rpc e free machine
        | inr x ↦ held-ComesToEnd i rpc e x
      ]
