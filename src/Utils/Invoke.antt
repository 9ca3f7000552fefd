-- ===== src/Utils/Invoke.antt =====
-- `invoke` of targetd/utils.py, and the processes it runs.
use targetd.Prelude.{Bool, false, not, ◌&&◌, ◌==◌, List, Text, if◌then◌else◌}
use targetd.Utils.Errors.{ℤ, pos, negsuc, ok, err, targetd_error, unexpected_exit_code}
use targetd.Utils.Exec.{Exec}

-- What a finished process leaves: its return code and its two outputs.
pub record Process : Type 0 where
  pub code : ℤ
  pub out : Text
  pub stderr : Text

abbrev pub succeeded : Process → Bool
succeeded p = elim p.code [ pos n ↦ n == 0 | negsuc _ ↦ false ]

-- `run` starts a program by `Popen` and waits for its end.
unfoldable pub invoke :
    {W : Type 0} → (List Text → W → Process × W) → List Text → Bool → Exec W Process
invoke run cmd raise_exception w =
    let (p, w') = run cmd w in
    if raise_exception && not (succeeded p)
    then (err (targetd_error unexpected_exit_code), w')
    else (ok p, w')
