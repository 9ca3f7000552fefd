-- ===== src/Main/Rpc/Laws.antt =====
-- Who can change the machine by a request to targetd/main.py.
use targetd.Prelude.{
  ◌≡◌, ◌⊎◌, ◌≢◌, inl, inr, subst, false, not, ◌||◌, Bool-cases, Option-cases, Text, text_eq,
  text_eq_iff, codes, none, some, arith,
}
use targetd.Prelude.Dict.{Dict, lookup, NodupKeys}
use targetd.Utils.Errors.{ok, Result-cases}
use targetd.Utils.Exec.{Exec}
use targetd.Utils.Tarpit.{Clients, is_stuck, enter}
use targetd.Utils.Tarpit.Laws.{left_once, enter-NodupKeys}
use targetd.Main.Rpc.{
  Value, null, truth, number, text, array, object, Request, Reply, http_error, Config, Server, Rpc,
  in_credentials, parse_request, arguments, find_method, call, answer_content, read_content, tarpit,
  do_post,
}

-- After a failed log-in that no other one of the client overlaps, the client can log in again.
pub tarpit_lets_go :
    (c : Text) (client : Clients) → NodupKeys client → is_stuck c (tarpit c client) ≡ false
unfolding tarpit
tarpit_lets_go c client h = left_once c (enter c client).1 (enter-NodupKeys c client h)

abbrev pub Refused : {R : Type 0} → Reply R → Type 0
Refused reply = (reply ≡ http_error 400) ⊎ (reply ≡ http_error 503) ⊎ (reply ≡ http_error 401)

module _ {J R W : Type 0} (mapping : Dict (Dict J → Exec W R)) where
  -- A method of the mapping that was called on the machine, and how it left the machine.
  pub record Ran (w w' : W) : Type 0 where
    pub name : Text
    pub method : Dict J → Exec W R
    pub kwargs : Dict J
    pub found : lookup name mapping ≡ some method
    pub changed : (method kwargs w).1 ≡ w'

  find_method-found :
      (v : Value J) (f : Dict J → Exec W R)
      → find_method mapping v ≡ ok f
      → (name : Text) × (lookup name mapping ≡ some f)
  unfolding find_method
  find_method-found (text name) f h = (name, ground arith)
  find_method-found null f h = cc
  find_method-found (truth _) f h = cc
  find_method-found (number _) f h = cc
  find_method-found (array _) f h = cc
  find_method-found (object _) f h = cc

  call-Ran : (rpc : Rpc J) (w : W) → ((call mapping rpc w).1 ≡ w) ⊎ Ran w (call mapping rpc w).1
  unfolding call
  call-Ran rpc w = elim (Result-cases (find_method mapping rpc.method)) [
    | inl e ↦ inl (ground arith)
    | inr (f, found) ↦ elim (Result-cases (arguments rpc.params)) [
      | inl e ↦ inl (ground arith)
      | inr (kwargs, passed) ↦ inr (record {
        name = (find_method-found rpc.method f found).0;
        method = f;
        kwargs = kwargs;
        found = (find_method-found rpc.method f found).1;
        changed = ground arith;
      })
    ]
  ]

  answer_content-Ran :
      (content : Value (Value J)) (w : W)
      → ((answer_content mapping content w).1 ≡ w) ⊎ Ran w (answer_content mapping content w).1
  unfolding answer_content
  answer_content-Ran content w = elim (Result-cases (parse_request content)) [
    | inl e ↦ inl (ground arith)
    | inr (rpc, parsed) ↦ elim (call-Ran rpc w) [
      | inl same ↦ inl (ground arith)
      | inr ran ↦ inr (subst (Ran w) (ground arith) ran)
    ]
  ]

module _ {J R W : Type 0} (config : Config) (mapping : Dict (Dict J → Exec W R)) where
  -- Without the configured user and password, a request gets one of three HTTP errors and the
  -- machine is left as it is.
  pub do_post_unauthorized :
      (req : Request J) (server : Server W)
      → in_credentials req ≢ some (config.user, config.password)
      → Refused (do_post config mapping req server).0
        × ((do_post config mapping req server).1.machine ≡ server.machine)
  unfolding do_post
  do_post_unauthorized req server h = elim (Option-cases (in_credentials req)) [
    | inl e ↦ ground arith
    | inr ((u, p), e) ↦ ground (arith, text_eq_iff u config.user, text_eq_iff p config.password)
  ]

  -- Whatever is sent, the machine is left as it is, or one method of the mapping was called on it,
  -- for a request with the configured user and password at the right URL.
  pub do_post_changes :
      (req : Request J) (server : Server W)
      → ((do_post config mapping req server).1.machine ≡ server.machine)
        ⊎ ((in_credentials req ≡ some (config.user, config.password))
            × (req.path ≡ codes "/targetrpc")
            × Ran mapping server.machine (do_post config mapping req server).1.machine)
  unfolding do_post
  do_post_changes req server = elim (Option-cases (in_credentials req)) [
    | inl e ↦ inl (ground arith)
    | inr ((u, p), e) ↦
        elim (Bool-cases (
          is_stuck req.client_address server.client
          || not (text_eq u config.user)
          || not (text_eq p config.password)
          || not (text_eq req.path (codes "/targetrpc")))) [
            | inl stopped ↦ inl (ground arith)
            | inr passed ↦ elim (Result-cases (read_content req)) [
              | inl failed ↦ inl (ground arith)
              | inr (none, long) ↦ inl (ground arith)
              | inr (some content, read) ↦
                  elim (answer_content-Ran mapping content server.machine) [
                    | inl same ↦ inl (ground arith)
                    | inr ran ↦ inr (
                      ground (arith, text_eq_iff u config.user, text_eq_iff p config.password),
                      ground (arith, text_eq_iff req.path (codes "/targetrpc")),
                      subst (Ran mapping server.machine) (ground arith) ran,
                    )
                  ]
            ]
          ]
  ]
