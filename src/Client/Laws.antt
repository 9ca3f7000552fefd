-- ===== src/Client/Laws.antt =====
-- `jsonrequest` of client, answered by `do_POST` of targetd/main.py.
use targetd.Client.Responses.{outcome_of, ended_as, response_of, read_response_lem}
use targetd.Prelude.{
  ◌≡◌, refl, ap, sym, ◌∙◌, inl, inr, Bool-cases, ℕ, suc, Bool, true, false, not, Text, text_eq,
  some,
}
use targetd.Prelude.Split.{split}
use targetd.Prelude.Dict.{Dict, lookup}
use targetd.Utils.Errors.{Result, ok, err, pos}
use targetd.Utils.Exec.{Exec}
use targetd.Utils.Tarpit.{is_stuck}
use targetd.Main.Rpc.{
  Value, text, Request, Config, Server, Rpc, in_credentials, read_content, parse_request, call,
  do_post,
}
use targetd.Main.Rpc.Accepted.{IsAccepted, do_post_lem, reply_to}
use targetd.Client.{
  user, password, path, Client, Post, Response, Outcome, socket_error, response, Ended, url_for,
  post_of, request_data, read_response, after_retry, retry, after_first, jsonrequest,
}

-- What the attempts come to, by what `urlopen` does.
module _ {J R W : Type 0} (urlopen : Post J → W → Outcome R × W) (method : Text) (params : Value J)
    (c : Client) {w w' : W} {r : Response R} where
  jsonrequest_response :
      urlopen (post_of c.use_ssl c.id_num method params) w ≡ (response r, w')
      → jsonrequest urlopen method params c w
        ≡ ((read_response r, record c { id_num = suc c.id_num }), w')
  unfolding jsonrequest after_first
  jsonrequest_response h =
      ap (after_first urlopen method params c.id_num (record c { id_num = suc c.id_num })) h

  jsonrequest_retry :
      urlopen (post_of c.use_ssl c.id_num method params) w ≡ (socket_error, w)
      → urlopen (post_of true c.id_num method params) w ≡ (response r, w')
      → jsonrequest urlopen method params c w
        ≡ ((read_response r, record { id_num = suc c.id_num; use_ssl = true }), w')
  unfolding jsonrequest after_first retry
  jsonrequest_retry h k =
      ap (after_first urlopen method params c.id_num (record c { id_num = suc c.id_num })) h
      ∙ ap (after_retry (record c { id_num = suc c.id_num })) k

-- `urlopen` over a network that brings what is sent for one scheme to a server with the
-- configuration, and nothing that is sent for the other; `received` is the request that the server
-- reads.
module _ {J R W : Type 0} (config : Config) (mapping : Dict (Dict J → Exec W R)) (tls : Bool)
    (received : Post J → Request J) (urlopen : Post J → Server W → Outcome R × Server W) where
  pub record IsNetwork : Type 0 where
    pub answered :
        (p : Post J) (s : Server W)
        → p.url ≡ url_for tls
        → urlopen p s ≡ (let x = do_post config mapping (received p) s in (outcome_of x.0, x.1))
    pub refused :
        (p : Post J) (s : Server W) → p.url ≡ url_for (not tls) → urlopen p s ≡ (socket_error, s)
    pub credentials : (p : Post J) → (received p).credentials ≡ some p.auth
    pub path_read :
        (p : Post J) (use_ssl : Bool) → p.url ≡ url_for use_ssl → (received p).path ≡ path

  -- The call that a request asks for.
  abbrev pub call_of : ℕ → Text → Value J → Rpc J
  call_of id_num method params = record {
    method = text method;
    id_num = pos id_num;
    params = params;
  }

  parse_request-data :
      (id_num : ℕ) (method : Text) (params : Value J)
      → parse_request (request_data id_num method params) ≡ ok (call_of id_num method params)
  unfolding parse_request lookup text_eq
  parse_request-data id_num method params = refl

  -- The request with the scheme of the server.
  abbrev pub sent : Client → Text → Value J → Post J
  sent c method params = post_of tls c.id_num method params

  module _ (net : IsNetwork) (of_user : config.user ≡ user)
      (of_password : config.password ≡ password) (method : Text) (params : Value J) (c : Client)
      (s : Server W)
      (free : is_stuck (received (sent c method params)).client_address s.client ≡ false)
      (is_read : read_content (received (sent c method params))
        ≡ ok (some (request_data c.id_num method params))) where
    sent-IsAccepted :
        IsAccepted config (received (sent c method params)) s (request_data c.id_num method params)
    unfolding in_credentials split
    sent-IsAccepted = record {
      user = rw (net.credentials (sent c method params), of_user, of_password, in_credentials) refl;
      free = free;
      url = net.path_read (sent c method params) tls refl;
      is_read = is_read;
    }

    -- What the call comes to on the machine of the server.
    abbrev pub made : Result R × W
    made = call mapping (call_of c.id_num method params) s.machine

    -- The end with a value of `use_ssl`.
    abbrev with_ssl : Ended R → Bool → (Ended R × Client) × Server W
    with_ssl v use_ssl =
        ((v, record { id_num = suc c.id_num; use_ssl = use_ssl }), record s { machine = made.1 })

    urlopen_lem :
        urlopen (sent c method params) s
        ≡ (response (response_of made.0), record s { machine = made.1 })
    urlopen_lem =
        net.answered (sent c method params) s refl
        ∙ (ap (λ x. (outcome_of x.0, x.1))
              (do_post_lem mapping config (call_of c.id_num method params) sent-IsAccepted
                (parse_request-data c.id_num method params))
            ∙ outcome made)
      where
        outcome :
            (x : Result R × W)
            → ◌≡◌ {A = Outcome R × Server W}
                (let y = reply_to (pos c.id_num) x in (outcome_of y.0, record s { machine = y.1 }))
                (response (response_of x.0), record s { machine = x.1 })
        outcome (ok a, w) = refl
        outcome (err e, w) = refl

    posted :
        (b : Bool)
        → b ≡ tls
        → urlopen (post_of b c.id_num method params) s
          ≡ (response (response_of made.0), record s { machine = made.1 })
    posted b e = ap (λ v. urlopen (post_of v c.id_num method params) s) e ∙ urlopen_lem

    by_one_attempt :
        c.use_ssl ≡ tls
        → jsonrequest urlopen method params c s ≡ with_ssl (read_response (response_of made.0)) tls
    by_one_attempt e =
        jsonrequest_response urlopen method params c (posted c.use_ssl e)
        ∙ ap (with_ssl (read_response (response_of made.0))) e

    by_two_attempts :
        c.use_ssl ≡ false
        → tls ≡ true
        → jsonrequest urlopen method params c s ≡ with_ssl (read_response (response_of made.0)) tls
    by_two_attempts e f =
        jsonrequest_retry urlopen method params c
          (net.refused (post_of c.use_ssl c.id_num method params) s
            (ap url_for (e ∙ sym (ap not f))))
          (posted true (sym f))
        ∙ ap (with_ssl (read_response (response_of made.0))) (sym f)

    -- Over a network that brings what is sent with the scheme of the server to `do_POST`, and
    -- refuses the other scheme: if the server has the credentials of the client, has no thread of
    -- its address in the tar pit and can read the content, and if it has TLS where the client uses
    -- it, `jsonrequest` has its method called exactly once on the machine of the server. It returns
    -- the result of that call, or raises if the call raises, and leaves the next id, with `use_ssl`
    -- as the server has it.
    pub jsonrequest-call :
        (c.use_ssl ≡ true → tls ≡ true)
        → jsonrequest urlopen method params c s ≡ (
          (ended_as made.0, record { id_num = suc c.id_num; use_ssl = tls }),
          record s { machine = made.1 },
        )
    jsonrequest-call h = attempts ∙ ap (λ v. with_ssl v tls) (read_response_lem made.0)
      where
        attempts :
            jsonrequest urlopen method params c s
            ≡ with_ssl (read_response (response_of made.0)) tls
        attempts = elim (Bool-cases c.use_ssl) [
          | inl e ↦ by_one_attempt (e ∙ sym (h e))
          | inr e ↦ elim (Bool-cases tls) [
            | inl f ↦ by_two_attempts e f
            | inr f ↦ by_one_attempt (e ∙ sym f)
          ]
        ]
