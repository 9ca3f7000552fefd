-- ===== src/Backends/Zfs/Command.antt =====
-- `_zfs_exec_command` of targetd/backends/zfs.py. The zfs program is a parameter.
pub mod Laws
use targetd.Prelude.{
  ℕ, zero, suc, Bool, true, false, not, ◌&&◌, ◌==◌, Text, codes, has_text, Option, none, some, List,
  ◌∷◌, if◌then◌else◌,
}
use targetd.Utils.Errors.{ℤ, pos, negsuc, ok, err, type_error}
use targetd.Utils.Exec.{Exec}
pub use targetd.Utils.Invoke.{Process, succeeded}

-- The machine as the module sees it: a process, the search for a program, and the clock in seconds.
pub record Machine (W : Type 0) : Type 0 where
  pub run : List Text → W → Process × W
  pub which_zfs : W → Option Text
  pub time : W → ℕ

-- A failure that is tried again.
abbrev pub is_busy : Process → Bool
is_busy p = not (succeeded p) && has_text (codes "dataset is busy") p.stderr

module _ {W : Type 0} (m : Machine W) where
  -- The loop over the attempts that are left; behind the last one the function returns `None`.
  unfoldable pub attempts : ℕ → List Text → W → Option Process × W
  attempts zero command w = (none, w)
  attempts (suc left) command w =
      let (p, w') = m.run command w in
      let again = attempts left command w' in if is_busy p then again else (some p, w')

  unfoldable pub zfs_exec_command : Text → List Text → W → Option Process × W
  unfolding attempts
  zfs_exec_command zfs_cmd args = attempts 3 (zfs_cmd ∷ args)

  -- `code, out, err = _zfs_exec_command(args)`: `None` cannot be unpacked.
  unfoldable pub unpacked_exec : Text → List Text → Exec W Process
  unpacked_exec zfs_cmd args w =
      let (result, w') = zfs_exec_command zfs_cmd args w in
      elim result [ some p ↦ (ok p, w') | none ↦ (err type_error, w') ]

  -- A call of `_zfs_exec_command` whose result is not looked at.
  unfoldable pub run_and_ignore : Text → List Text → Exec W (Unit {0})
  run_and_ignore zfs_cmd args w = (ok tt, (zfs_exec_command zfs_cmd args w).1)
