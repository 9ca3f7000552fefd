-- ===== src/Tests/Client.antt =====
-- A request of client to targetd/main.py, for the removal of a volume that is exported.
use targetd.Prelude.{
  ◌≡◌, refl, ◌∙◌, ap, Bool, true, false, Text, text_eq, codes, some, List, [], ◌∷◌, if◌then◌else◌,
}
use targetd.Utils.Errors.{ok}
use targetd.Block.AccessGroups.{Group}
use targetd.Main.Rpc.{Value, text, object, Request, Config, Server, do_post}
use targetd.Main.Methods.{Answer, callable}
use targetd.Main.Daemon.{mapping}
use targetd.Client.{Post, Outcome, socket_error, method_raised, url_for, jsonrequest}
use targetd.Client.Responses.{outcome_of}
use targetd.Client.Laws.{IsNetwork, jsonrequest-call}
use targetd.Tests.Groups.{groups}
use targetd.Tests.Parts.{parts, fs_parts}
use targetd.Tests.Daemon.{other}

abbrev config : Config
config = record { user = codes "admin"; password = codes "targetd" }

abbrev received : Post (Value (Unit {0})) → Request (Value (Unit {0}))
received p = record {
  client_address = codes "c";
  credentials = some p.auth;
  path = codes "/targetrpc";
  content_length = some (codes "90");
  content = λ _. ok p.data';
}

-- The server has TLS.
abbrev urlopen :
    Post (Value (Unit {0})) → Server (List Group) → Outcome Answer × Server (List Group)
urlopen p s =
    if text_eq p.url (url_for true)
    then (let x = do_post config (callable other (mapping parts fs_parts)) (received p) s in
        (outcome_of x.0, x.1))
    else (socket_error, s)

network : IsNetwork config (callable other (mapping parts fs_parts)) true received urlopen
unfolding text_eq
network = record {
  answered = λ p s e. rw e refl;
  refused = λ p s e. rw e refl;
  credentials = λ p. refl;
  path_read = λ p use_ssl e. refl;
}

abbrev server : Server (List Group)
server = record { client = []; machine = groups }

abbrev params : Value (Value (Unit {0}))
params = object ((codes "pool", text (codes "vg")) ∷ (codes "name", text (codes "v")) ∷ [])

-- The client has TLS only after the first attempt.
client_is_told :
    jsonrequest urlopen (codes "vol_destroy") params (record { id_num = 1; use_ssl = false }) server
    ≡ ((method_raised, record { id_num = 2; use_ssl = true }), server)
unfolding targetd.Utils.Tarpit.is_stuck targetd.Prelude.Dict.lookup targetd.Main.Rpc.read_content
    targetd.Prelude.strip targetd.Prelude.parse_nat targetd.Main.Rpc.call callable mapping
    targetd.Prelude.Dict.insert targetd.Prelude.Dict.update text_eq targetd.Main.Methods.text_arg
    targetd.Block.Volumes.destroy targetd.Block.Volumes.pool_module
    targetd.Block.Volumes.get_so_name
client_is_told =
    jsonrequest-call config (callable other (mapping parts fs_parts)) true received urlopen network
      refl refl (codes "vol_destroy") params (record { id_num = 1; use_ssl = false }) server refl
      refl (λ e. refl)
