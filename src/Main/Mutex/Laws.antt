-- ===== src/Main/Mutex/Laws.antt =====
-- The requests that targetd/main.py serves at once.
use targetd.Prelude.{
  ◌≡◌, refl, sym, ap, subst, ◌∙◌, arith, ◌⊎◌, inl, inr, ℕ, true, false, List, ◌∷◌, ◌++◌,
}
use targetd.Prelude.Dict.{Dict}
use targetd.Utils.Errors.{Result}
use targetd.Utils.Exec.{Exec}
use targetd.Main.Rpc.{Rpc, call}
use targetd.Main.Mutex.{
  Work, ended, change, run, idle, waiting, inside, released, Threads, set, Step, receives, acquires,
  works, releases, Reach, start, next, serial, Answered,
}
use targetd.Main.Mutex.Phases.{set_same, set_kept, set-cases, inside_same, result_of}

module _ {J W R : Type 0} (mapping : Dict (Dict J → Exec W R)) (work : Rpc J → Work W R)
    (carries_out : (rpc : Rpc J) (w : W) → run (work rpc) w ≡ call mapping rpc w) where
  -- The mutex is free, and the machine is that of the requests one after the other.
  abbrev pub IsFree : W → Threads J W R → List (ℕ × Rpc J) → Type 0
  IsFree w s order =
      (s.locked ≡ false)
      × ((i : ℕ) (k : Work W R) → s.phase i ≡ inside k → ⊥)
      × (s.machine ≡ serial mapping order w)

  -- One thread has it, and what it has still to do leads to where its request leads at once.
  pub record IsHeld (w : W) (s : Threads J W R) (order : List (ℕ × Rpc J)) : Type 0 where
    pub holder : ℕ
    pub rpc : Rpc J
    pub earlier : List (ℕ × Rpc J)
    pub rest : Work W R
    pub is_locked : s.locked ≡ true
    pub last : order ≡ (holder, rpc) ∷ earlier
    pub is_inside : s.phase holder ≡ inside rest
    pub alone : (i : ℕ) (k : Work W R) → s.phase i ≡ inside k → i ≡ holder
    pub leads : run rest s.machine ≡ call mapping rpc (serial mapping earlier w)

  -- The results that threads have released with are those of their requests.
  abbrev pub AreAnswered : W → Threads J W R → List (ℕ × Rpc J) → Type 0
  AreAnswered w s order =
      (i : ℕ) (r : Result R) → s.phase i ≡ released r → Answered mapping w i r order

  abbrev pub IsSerial : W → Threads J W R → List (ℕ × Rpc J) → Type 0
  IsSerial w s order = (IsFree w s order ⊎ IsHeld w s order) × AreAnswered w s order

  module _ (w : W) (s : Threads J W R) (order : List (ℕ × Rpc J)) (i : ℕ) where
    receives-IsSerial :
        (rpc : Rpc J)
        → s.phase i ≡ idle
        → IsSerial w s order
        → IsSerial w (record s { phase = set i (waiting rpc) s.phase }) order
    receives-IsSerial rpc e (held, answers) = (
      elim held [
        | inl (unlocked, nobody, machine) ↦ inl (
          unlocked,
          λ j k h. elim (set-cases i j (waiting rpc) (inside k) s.phase h) [
            | inl (_, bad) ↦ absurd cc
            | inr (_, old) ↦ nobody j k old
          ],
          machine,
        )
        | inr x ↦ inr (record {
          holder = x.holder;
          rpc = x.rpc;
          earlier = x.earlier;
          rest = x.rest;
          is_locked = x.is_locked;
          last = x.last;
          is_inside =
              set_kept i x.holder (waiting rpc) (inside x.rest) s.phase x.is_inside
                (λ h. idle_outside e h);
          alone = λ j k h. elim (set-cases i j (waiting rpc) (inside k) s.phase h) [
            | inl (_, bad) ↦ absurd cc
            | inr (_, old) ↦ x.alone j k old
          ];
          leads = x.leads;
        })
      ],
      λ j r h. elim (set-cases i j (waiting rpc) (released r) s.phase h) [
        | inl (_, bad) ↦ absurd cc
        | inr (_, old) ↦ answers j r old
      ],
    )
      where
        idle_outside : {k : Work W R} → s.phase i ≡ idle → s.phase i ≡ inside k → ⊥
        idle_outside e h = cc

    acquires-IsSerial :
        (rpc : Rpc J)
        → s.locked ≡ false
        → IsSerial w s order
        → IsSerial w
            (record s { locked = true; phase = set i (inside (work rpc)) s.phase })
            ((i, rpc) ∷ order)
    unfolding Answered
    acquires-IsSerial rpc unlocked (inr x, answers) = absurd (ground (arith, unlocked, x.is_locked))
    acquires-IsSerial rpc unlocked (inl (_, nobody, machine), answers) = (
      inr (record {
        holder = i;
        rpc = rpc;
        earlier = order;
        rest = work rpc;
        is_locked = refl;
        last = refl;
        is_inside = set_same i (inside (work rpc)) s.phase;
        alone = λ j k h. elim (set-cases i j (inside (work rpc)) (inside k) s.phase h) [
          | inl (same, _) ↦ sym same
          | inr (_, old) ↦ absurd (nobody j k old)
        ];
        leads = carries_out rpc s.machine ∙ ap (call mapping rpc) machine;
      }),
      λ j r h. elim (set-cases i j (inside (work rpc)) (released r) s.phase h) [
        | inl (_, bad) ↦ absurd cc
        | inr (_, old) ↦ inr (answers j r old)
      ],
    )

    -- What the thread that holds the mutex has still to do.
    holder_rest :
        (k : Work W R)
        → s.phase i ≡ inside k
        → IsSerial w s order
        → (x : IsHeld w s order) × (i ≡ x.holder) × (x.rest ≡ k)
    holder_rest k e (inl (_, nobody, _), answers) = absurd (nobody i k e)
    holder_rest k e (inr x, answers) =
        let here = x.alone i k e in
        (x, here, inside_same (s.phase i) x.rest k (ap s.phase here ∙ x.is_inside) e)

    works-IsSerial :
        (f : W → W) (rest : W → Work W R)
        → s.phase i ≡ inside (change f rest)
        → IsSerial w s order
        → IsSerial w
            (record s { machine = f s.machine; phase = set i (inside (rest s.machine)) s.phase })
            order
    unfolding run
    works-IsSerial f rest e inv =
        let (x, here, same) = holder_rest (change f rest) e inv in
        (
          inr (record {
            holder = i;
            rpc = x.rpc;
            earlier = x.earlier;
            rest = rest s.machine;
            is_locked = x.is_locked;
            last = x.last ∙ ap (λ j. (j, x.rpc) ∷ x.earlier) (sym here);
            is_inside = set_same i (inside (rest s.machine)) s.phase;
            alone = λ j k h. elim (set-cases i j (inside (rest s.machine)) (inside k) s.phase h) [
              | inl (same, _) ↦ sym same
              | inr (_, old) ↦ x.alone j k old ∙ sym here
            ];
            leads = ap (λ k. run k s.machine) (sym same) ∙ x.leads;
          }),
          λ j r h. elim (set-cases i j (inside (rest s.machine)) (released r) s.phase h) [
            | inl (_, bad) ↦ absurd cc
            | inr (_, old) ↦ inv.1 j r old
          ],
        )

    releases-IsSerial :
        (r : Result R)
        → s.phase i ≡ inside (ended r)
        → IsSerial w s order
        → IsSerial w (record s { locked = false; phase = set i (released r) s.phase }) order
    unfolding run serial Answered
    releases-IsSerial r e inv =
        let (x, here, same) = holder_rest (ended r) e inv in
        let led = ap (λ k. run k s.machine) (sym same) ∙ x.leads in
        (
          inl (
            refl,
            λ j k h. elim (set-cases i j (released r) (inside k) s.phase h) [
              | inl (_, bad) ↦ absurd cc
              | inr (other, old) ↦ absurd (other (here ∙ sym (x.alone j k old)))
            ],
            ap (λ p. p.1) led ∙ ap (λ o. serial mapping o w) (sym x.last),
          ),
          λ j q h. elim (set-cases i j (released r) (released q) s.phase h) [
            | inl (j_is_i, same_result) ↦ subst (Answered mapping w j q) (sym x.last) (
                inl (
                  sym j_is_i ∙ here,
                  sym (ap (λ p. result_of p r) same_result) ∙ ap (λ p. p.0) led,
                ))
            | inr (_, old) ↦ inv.1 j q old
          ],
        )

  Step-IsSerial :
      {w : W} {s t : Threads J W R} {taken order : List (ℕ × Rpc J)}
      → Step work s taken t
      → IsSerial w s order
      → IsSerial w t (taken ++ order)
  Step-IsSerial {w} {order = order} (receives s i rpc e) inv =
      receives-IsSerial w s order i rpc e inv
  Step-IsSerial {w} {order = order} (acquires s i rpc e free) inv =
      acquires-IsSerial w s order i rpc free inv
  Step-IsSerial {w} {order = order} (works s i f rest e) inv =
      works-IsSerial w s order i f rest e inv
  Step-IsSerial {w} {order = order} (releases s i r e) inv = releases-IsSerial w s order i r e inv

  pub Reach-IsSerial :
      {w : W} {s : Threads J W R} {order : List (ℕ × Rpc J)}
      → Reach work w s order
      → IsSerial w s order
  unfolding serial
  Reach-IsSerial start = (inl (refl, (λ i k h. cc), refl), λ i r h. absurd cc)
  Reach-IsSerial (next reach step) = Step-IsSerial step (Reach-IsSerial reach)

  -- If every request is carried out in the steps of its `work` and by nothing else: in whatever way
  -- the threads are interleaved, at most one is between `acquire` and `release`; whenever none is,
  -- the machine is that of the requests called one after the other, in the order in which they took
  -- the mutex; and the result that a thread has released with is that of a request of the thread in
  -- that order.
  pub Reach-serial :
      {w : W} {s : Threads J W R} {order : List (ℕ × Rpc J)}
      → Reach work w s order
      → ((i j : ℕ) (k l : Work W R) → s.phase i ≡ inside k → s.phase j ≡ inside l → i ≡ j)
        × (s.locked ≡ false → s.machine ≡ serial mapping order w)
        × ((i : ℕ) (r : Result R) → s.phase i ≡ released r → Answered mapping w i r order)
  Reach-serial {w} {s} {order} reach = conclude (Reach-IsSerial reach)
    where
      conclude :
          IsSerial w s order
          → ((i j : ℕ) (k l : Work W R) → s.phase i ≡ inside k → s.phase j ≡ inside l → i ≡ j)
            × (s.locked ≡ false → s.machine ≡ serial mapping order w)
            × ((i : ℕ) (r : Result R) → s.phase i ≡ released r → Answered mapping w i r order)
      conclude (inl (unlocked, nobody, machine), answers) =
          ((λ i j k l h h'. absurd (nobody i k h)), (λ _. machine), answers)
      conclude (inr x, answers) = (
        (λ i j k l h h'. x.alone i k h ∙ sym (x.alone j l h')),
        (λ free. absurd (ground (arith, free, x.is_locked))),
        answers,
      )
