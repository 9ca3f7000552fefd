-- ===== src/Main/Rpc/Accepted.antt =====
-- Requests that `do_POST` of targetd/main.py accepts: what is behind the authentication.
use targetd.Prelude.{◌≡◌, refl, ◌∙◌, ap, arith, true, false, text_eq_iff, codes, some}
use targetd.Prelude.Dict.{Dict}
use targetd.Utils.Errors.{ℤ, Result, ok, err}
use targetd.Utils.Exec.{Exec}
use targetd.Utils.Tarpit.{is_stuck}
use targetd.Main.Rpc.{
  Value, Request, Reply, answer, failure, Config, Server, Rpc, method_error, in_credentials,
  read_content, parse_request, call, answer_content, do_post,
}

-- The reply to a call, by what the call comes to.
abbrev pub reply_to : {R W : Type 0} → ℤ → Result R × W → Reply R × W
reply_to id (ok a, w) = (answer a id, w)
reply_to id (err e, w) = (failure true (method_error e) id, w)

-- A request of the configured user for the content.
pub record IsAccepted {J W : Type 0} (config : Config) (req : Request J) (server : Server W)
    (content : Value (Value J)) : Type 0 where
  pub user : in_credentials req ≡ some (config.user, config.password)
  pub free : is_stuck req.client_address server.client ≡ false
  pub url : req.path ≡ codes "/targetrpc"
  pub is_read : read_content req ≡ ok (some content)

module _ {J R W : Type 0} (mapping : Dict (Dict J → Exec W R)) where
  answer_content_lem :
      (content : Value (Value J)) (rpc : Rpc J) (w : W)
      → parse_request content ≡ ok rpc
      → answer_content mapping content w ≡ reply_to rpc.id_num (call mapping rpc w)
  unfolding answer_content
  answer_content_lem content rpc w parsed = rw (parsed, answer_content) (split (call mapping rpc w))
    where
      split :
          (x : Result R × W)
          → elim x.0 as (λ _. Reply R × W) [
            | err e ↦ (failure true (method_error e) rpc.id_num, x.1)
            | ok result ↦ (answer result rpc.id_num, x.1)
          ]
            ≡ reply_to rpc.id_num x
      split (ok a, w') = refl
      split (err e, w') = refl

  do_post_content :
      (config : Config) {req : Request J} {server : Server W} {content : Value (Value J)}
      → IsAccepted config req server content
      → do_post config mapping req server ≡ (
          let x = answer_content mapping content server.machine in
          (x.0, record server { machine = x.1 }))
  unfolding do_post
  do_post_content config {req} {server} a = ground (
    arith,
    a.user,
    a.free,
    text_eq_iff req.path (codes "/targetrpc"),
    a.url,
    a.is_read,
    text_eq_iff config.user config.user,
    text_eq_iff config.password config.password,
  )

  -- What an accepted request for a call leaves and is answered.
  pub do_post_lem :
      (config : Config) {req : Request J} {server : Server W} {content : Value (Value J)}
      (rpc : Rpc J)
      → IsAccepted config req server content
      → parse_request content ≡ ok rpc
      → do_post config mapping req server ≡ (
          let x = reply_to rpc.id_num (call mapping rpc server.machine) in
          (x.0, record server { machine = x.1 }))
  do_post_lem config {server = server} {content = content} rpc a parsed =
      do_post_content config a
      ∙ ap (λ x. (x.0, record server { machine = x.1 }))
          (answer_content_lem content rpc server.machine parsed)
