-- ===== src/Tests/Requests.antt =====
-- The theorems on targetd/main.py and the tar pit at a concrete server.
use targetd.Prelude.{
  ℕ, ◌+◌, ◌≡◌, ◌≢◌, ◌⊎◌, refl, false, Text, codes, text_eq, arith, some, [], ◌∷◌, strip, parse_nat,
}
use targetd.Prelude.Split.{split}
use targetd.Prelude.Dict.{Dict, lookup}
use targetd.Utils.Errors.{pos, ok, err, key_error}
use targetd.Utils.Exec.{Exec}
use targetd.Utils.Tarpit.{is_stuck, enter, exit, Pits, asks, enters, Reach, start, next, without}
use targetd.Utils.Tarpit.Laws.{not_stuck_outside, second_exit_raises}
use targetd.Main.Rpc.{
  Value, number, text, object, Request, answer, Config, Server, in_credentials, do_post,
}
use targetd.Main.Rpc.Laws.{Ran, Refused, do_post_unauthorized, do_post_changes}

abbrev config : Config
config = record { user = codes "admin"; password = codes "pw" }

-- One method, which adds one to the machine.
abbrev mapping : Dict (Dict (Unit {0}) → Exec ℕ ℕ)
mapping = (codes "bump", λ _ n. (ok n, n + 1)) ∷ []

abbrev body : Value (Value (Unit {0}))
body = object (
    (codes "jsonrpc", text (codes "2.0"))
    ∷ (codes "method", text (codes "bump"))
    ∷ (codes "id", number (pos 7))
    ∷ [])

abbrev request : Text → Request (Unit {0})
request credentials = record {
  client_address = codes "c";
  credentials = some credentials;
  path = codes "/targetrpc";
  content_length = some (codes "60");
  content = λ _. ok body;
}

abbrev server : Server ℕ
server = record { client = []; machine = 5 }

bumped :
    do_post config mapping (request (codes "admin:pw")) server
    ≡ (answer 5 (pos 7), record { client = []; machine = 6 })
unfolding do_post split lookup text_eq strip parse_nat
bumped = refl

bumped-Ran :
    ((do_post config mapping (request (codes "admin:pw")) server).1.machine ≡ 5)
    ⊎ ((in_credentials (request (codes "admin:pw")) ≡ some (codes "admin", codes "pw"))
        × (codes "/targetrpc" ≡ codes "/targetrpc")
        × Ran mapping 5 (do_post config mapping (request (codes "admin:pw")) server).1.machine)
bumped-Ran = do_post_changes config mapping (request (codes "admin:pw")) server

wrong_password : in_credentials (request (codes "admin:no")) ≢ some (codes "admin", codes "pw")
unfolding in_credentials split
wrong_password e = ground arith

refused :
    Refused (do_post config mapping (request (codes "admin:no")) server).0
    × ((do_post config mapping (request (codes "admin:no")) server).1.machine ≡ 5)
refused = do_post_unauthorized config mapping (request (codes "admin:no")) server wrong_password

abbrev asked : Pits
asked = record { client = []; asked = codes "c" ∷ []; inside = [] }

abbrev inside : Pits
inside = record {
  client = (enter (codes "c") []).1;
  asked = without (codes "c") (codes "c" ∷ []);
  inside = codes "c" ∷ [];
}

inside-Reach : Reach inside
unfolding is_stuck lookup text_eq
inside-Reach =
    next (next start (asks (record { client = []; asked = []; inside = [] }) (codes "c") refl))
      (enters asked (codes "c") refl)

other_not_stuck : is_stuck (codes "d") inside.client ≡ false
unfolding text_eq
other_not_stuck = not_stuck_outside inside-Reach (codes "d") refl

two_pits :
    (exit (codes "c") (exit (codes "c") (enter (codes "c") (enter (codes "c") []).1).1).1).0
    ≡ err key_error
two_pits = second_exit_raises (codes "c") [] tt
