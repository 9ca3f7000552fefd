-- ===== src/Tests/Destroy.antt =====
-- A request to targetd/main.py for the removal of a volume that is exported.
use targetd.Prelude.{◌≡◌, refl, Text, codes, true, text_eq, some, List, [], ◌∷◌}
use targetd.Utils.Errors.{neg, pos, ok}
use targetd.Block.AccessGroups.{Group}
use targetd.Main.Rpc.{Value, number, text, object, Request, failure, Config, Server, do_post}
use targetd.Main.Methods.{callable}
use targetd.Main.Daemon.{mapping}
use targetd.Main.Daemon.Destroy.{AsksDestroy, do_post_destroy}
use targetd.Tests.Groups.{groups}
use targetd.Tests.Parts.{one_volume, backend, parts, fs_parts}
use targetd.Tests.Daemon.{other}

abbrev config : Config
config = record { user = codes "admin"; password = codes "pw" }

abbrev body : Value (Value (Value (Unit {0})))
body = object (
    (codes "jsonrpc", text (codes "2.0"))
    ∷ (codes "method", text (codes "vol_destroy"))
    ∷ (codes "id", number (pos 7))
    ∷ (
      codes "params",
      object ((codes "name", text (codes "v")) ∷ (codes "pool", text (codes "vg")) ∷ []),
    )
    ∷ [])

abbrev request : Request (Value (Unit {0}))
request = record {
  client_address = codes "c";
  credentials = some (codes "admin:pw");
  path = codes "/targetrpc";
  content_length = some (codes "90");
  content = λ _. ok body;
}

abbrev server : Server (List Group)
server = record { client = []; machine = groups }

asks : AsksDestroy parts fs_parts other config request server (pos 7) (codes "vg") (codes "v")
unfolding targetd.Main.Rpc.in_credentials targetd.Prelude.Split.split targetd.Utils.Tarpit.is_stuck
    targetd.Prelude.Dict.lookup targetd.Main.Rpc.read_content targetd.Prelude.strip
    targetd.Prelude.parse_nat targetd.Main.Rpc.parse_request text_eq targetd.Main.Methods.text_arg
asks = record {
  content = body;
  kwargs = (codes "name", text (codes "v")) ∷ (codes "pool", text (codes "vg")) ∷ [];
  accepted = record { user = refl; free = refl; url = refl; is_read = refl };
  parsed = refl;
  complete = refl;
  of_pool = refl;
  of_name = refl;
}

exported_refused :
    do_post config (callable other (mapping parts fs_parts)) request server
    ≡ (failure true (neg 303) (pos 7), server)
unfolding text_eq targetd.Block.Volumes.pool_module
exported_refused =
    do_post_destroy parts fs_parts other config backend one_volume (codes "v") (codes "v" ∷ []) refl
      refl refl refl asks
