-- ===== src/Utils/Tarpit.antt =====
-- `Tar` and `Pit` of targetd/utils.py: the clients whose failed log-in is being delayed.
pub mod Laws
use targetd.Prelude.{◌≡◌, Bool, true, false, Text, text_eq, member, List, [], ◌∷◌, if◌then◌else◌}
use targetd.Prelude.Dict.{Dict, contains, insert, erase}
use targetd.Utils.Errors.{key_error, ok, err}
use targetd.Utils.Exec.{Exec, pure, raise, modify}

-- `Tar.client`.
abbrev pub Clients : Type 0
Clients = Dict Bool

unfoldable pub is_stuck : Text → Clients → Bool
is_stuck client_id client = contains client_id client

-- `Pit.__enter__`.
unfoldable pub enter : Text → Exec Clients (Unit {0})
enter client_id = modify (insert client_id true)

-- `Pit.__exit__`.
unfoldable pub exit : Text → Exec Clients (Unit {0})
exit client_id client =
    if contains client_id client then (ok tt, erase client_id client) else (err key_error, client)

-- The threads of the server: those that have asked `is_stuck` and are going to be pitted, and those
-- inside the `with` block of the log-in that failed.
pub record Pits : Type 0 where
  pub client : Clients
  pub asked : List Text
  pub inside : List Text

-- One occurrence less.
unfoldable pub without : Text → List Text → List Text
without c [] = []
without c (d ∷ ds) = if text_eq d c then ds else d ∷ without c ds

-- A step of one thread, which holds the lock throughout.
pub data Step : Pits → Pits → Type 0 where
  asks :
      (s : Pits) (c : Text)
      → is_stuck c s.client ≡ false
      → Step s (record s { asked = c ∷ s.asked })
  enters :
      (s : Pits) (c : Text)
      → member c s.asked ≡ true
      → Step s (record {
        client = (enter c s.client).1;
        asked = without c s.asked;
        inside = c ∷ s.inside;
      })
  leaves :
      (s : Pits) (c : Text)
      → member c s.inside ≡ true
      → Step s (record s { client = (exit c s.client).1; inside = without c s.inside })

pub data Reach : Pits → Type 0 where
  start : Reach (record { client = []; asked = []; inside = [] })
  next : {s t : Pits} → Reach s → Step s t → Reach t
