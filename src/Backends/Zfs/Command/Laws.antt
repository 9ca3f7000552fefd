-- ===== src/Backends/Zfs/Command/Laws.antt =====
-- The retries of targetd/backends/zfs.py: when they end, and with what.
use targetd.Prelude.{
  ◌<◌, ℕ, zero, suc, ◌≡◌, refl, Bool, true, false, ◌&&◌, arith, Text, Option, none, some, List, ◌∷◌,
  Bool-cases, inl, inr,
}
use targetd.Backends.Zfs.Command.{Process, Machine, is_busy, zfs_exec_command}

module _ {W : Type 0} (m : Machine W) where
  -- The machine behind `n` runs of the command.
  abbrev pub after : ℕ → List Text → W → W
  after zero command w = w
  after (suc n) command w = after n command (m.run command w).1

  -- The run number `n`, counted from 0.
  abbrev pub run_at : ℕ → List Text → W → Process
  run_at n command w = (m.run command (after n command w)).0

  -- The first `n` runs are all busy.
  abbrev pub all_busy : ℕ → List Text → W → Bool
  all_busy zero command w = true
  all_busy (suc n) command w = is_busy (m.run command w).0 && all_busy n command (m.run command w).1

  -- How three attempts at a command end.
  pub data Ended (c : List Text) (w : W) (r : Option Process × W) : Type 0 where
    exhausted : all_busy 3 c w ≡ true → r ≡ (none, after 3 c w) → Ended c w r
    done :
        (k : ℕ)
        → k < 3
        → all_busy k c w ≡ true
        → is_busy (run_at k c w) ≡ false
        → r ≡ (some (run_at k c w), after (suc k) c w)
        → Ended c w r

  -- The zfs program is run until a run is not busy, and the result is that run's; after three busy
  -- runs there is no result. In each case the machine is left as the runs so far left it.
  pub zfs_exec_command-Ended :
      (zfs_cmd : Text) (args : List Text) (w : W)
      → Ended (zfs_cmd ∷ args) w (zfs_exec_command m zfs_cmd args w)
  unfolding zfs_exec_command
  zfs_exec_command-Ended zfs_cmd args w =
      let c : List Text = zfs_cmd ∷ args in
      elim (Bool-cases (is_busy (run_at 0 c w))) [
        | inr b0 ↦ done 0 (omega arith) refl b0 (rw b0)
        | inl b0 ↦ elim (Bool-cases (is_busy (run_at 1 c w))) [
          | inr b1 ↦ done 1 (omega arith) (rw b0) b1 (rw (b0, b1))
          | inl b1 ↦ elim (Bool-cases (is_busy (run_at 2 c w))) [
            | inr b2 ↦ done 2 (omega arith) (rw (b0, b1)) b2 (rw (b0, b1, b2))
            | inl b2 ↦ exhausted (rw (b0, b1, b2)) (rw (b0, b1, b2))
          ]
        ]
      ]
