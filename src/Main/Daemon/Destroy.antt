-- ===== src/Main/Daemon/Destroy.antt =====
-- A request to targetd/main.py for `destroy` of targetd/block.py.
use targetd.Prelude.{
  Bool, ◌≡◌, refl, ap, ◌∙◌, true, false, Text, text_eq, codes, member, some, List, if◌then◌else◌,
}
use targetd.Prelude.Dict.{Dict, lookup, insert, update}
use targetd.Utils.Errors.{
  ℤ, neg, error_number, targetd_error, volume_masked, not_found_volume, Result, ok, err,
}
use targetd.Utils.Exec.{Exec, pure, ◌>>=◌}
use targetd.Backends.Interface.{BlockBackend, Volume}
use targetd.Block.Parts.{Parts}
use targetd.Block.Volumes.{pool_module, has_volume, destroy}
use targetd.Block.Volumes.Laws.{destroy_outcome}
use targetd.Block.Methods.Volumes.{vol_destroy}
use targetd.Fs.Methods.{FsParts}
use targetd.Main.Rpc.{
  Value, text, object, Request, Reply, answer, failure, Config, Server, method_error, parse_request,
  find_method, arguments, call, do_post,
}
use targetd.Main.Rpc.Accepted.{IsAccepted, reply_to, do_post_lem}
use targetd.Main.Methods.{Answer, nothing, fits, text_arg, callable, call_method}
use targetd.Main.Daemon.{mapping}

-- What the client is sent for what a method that returns nothing has come to.
abbrev pub reply_of : {W A : Type 0} → ℤ → Result A × W → Reply Answer × W
reply_of id (ok _, w) = (answer nothing id, w)
reply_of id (err e, w) = (failure true (method_error e) id, w)

module _ {K W Storage Lun : Type 0} (p : Parts W Storage Lun) (q : FsParts K W)
    (other : Text → Dict (Value K) → Exec W Answer) (config : Config) where
  -- An authenticated request to destroy the volume of the pool, in any order of its arguments.
  pub record AsksDestroy (req : Request (Value K)) (server : Server W) (id : ℤ) (pool name : Text)
      : Type 0 where
    pub content : Value (Value (Value K))
    pub kwargs : Dict (Value K)
    pub accepted : IsAccepted config req server content
    pub parsed :
        parse_request content
        ≡ ok (record { method = text (codes "vol_destroy"); id_num = id; params = object kwargs })
    pub complete : fits (vol_destroy {K = K} p) kwargs ≡ true
    pub of_pool : text_arg kwargs (codes "pool") ≡ some pool
    pub of_name : text_arg kwargs (codes "name") ≡ some name

  destroy_found :
      lookup (codes "vol_destroy") (callable other (mapping p q))
      ≡ some (call_method (vol_destroy p) (other (codes "vol_destroy")))
  unfolding lookup callable mapping insert update text_eq
  destroy_found = refl

  call_destroy :
      (id : ℤ) (pool name : Text) (kwargs : Dict (Value K)) (w : W)
      → fits (vol_destroy {K = K} p) kwargs ≡ true
      → text_arg kwargs (codes "pool") ≡ some pool
      → text_arg kwargs (codes "name") ≡ some name
      → call_method (vol_destroy p) (other (codes "vol_destroy")) kwargs w
        ≡ (destroy p.pool_modules p.luns pool name >>= λ _. pure nothing) w
  unfolding call_method
  call_destroy id pool name kwargs w fit e f = rw (fit, e, f, call_method) refl

  reply_to-done :
      (id : ℤ) (x : Result (Unit {0}) × W)
      → reply_to id
          (elim x.0 as (λ _. Result Answer × W) [ ok _ ↦ (ok nothing, x.1) | err e ↦ (err e, x.1) ])
        ≡ reply_of id x
  reply_to-done id (ok a, w) = refl
  reply_to-done id (err e, w) = refl

  -- The call that the request asks for.
  asked :
      {req : Request (Value K)} {server : Server W} {id : ℤ} {pool name : Text} (w : W)
      (a : AsksDestroy req server id pool name)
      → reply_to id (
          call
            (callable other (mapping p q))
            (record { method = text (codes "vol_destroy"); id_num = id; params = object a.kwargs })
            w)
        ≡ reply_of id (destroy p.pool_modules p.luns pool name w)
  unfolding call find_method arguments
  asked {id = id} {pool = pool} {name = name} w a =
      rw (destroy_found, call, find_method)
        (ap (reply_to id) (call_destroy id pool name a.kwargs w a.complete a.of_pool a.of_name))
      ∙ reply_to-done id (destroy p.pool_modules p.luns pool name w)

  -- What the server sends and keeps for a call of `destroy`.
  abbrev pub sent : Server W → ℤ → Result (Unit {0}) × W → Reply Answer × Server W
  sent server id x = ((reply_of id x).0, record server { machine = (reply_of id x).1 })

  module _ {req : Request (Value K)} {server : Server W} {id : ℤ} {pool name : Text}
      (mod' : BlockBackend W) (vs : List Volume) (so_name : Text) (names : List Text)
      (found : pool_module p.pool_modules pool ≡ ok mod')
      (listed : mod'.volumes pool server.machine ≡ (ok vs, server.machine))
      (exported : p.luns server.machine ≡ some names)
      (named : mod'.get_so_name pool name ≡ ok so_name) where
    -- For an authenticated request to destroy a volume, in a pool that a back end has and lists
    -- without changing the machine, and if the target is there and the volume has a name as a
    -- storage object: if the pool has no such volume the reply is the error -103, and if the target
    -- exports the volume it is the error -303, each with the id of the request and nothing changed;
    -- otherwise the back end destroys the volume, and the reply and the machine are what it comes to.
    pub do_post_destroy :
        AsksDestroy req server id pool name
        → do_post config (callable other (mapping p q)) req server ≡ (
            if has_volume name vs
            then (if member so_name names
                then (failure true (neg 303) id, server)
                else sent server id (mod'.destroy pool name server.machine))
            else (failure true (neg 103) id, server))
    unfolding error_number
    do_post_destroy a =
        do_post_lem (callable other (mapping p q)) config _ a.accepted a.parsed
        ∙ (ap (λ x. (x.0, record server { machine = x.1 })) (asked server.machine a)
            ∙ (ap (sent server id) (
                  destroy_outcome p.pool_modules mod' pool server.machine vs found listed p.luns
                    name so_name names exported named)
                ∙ by_cases (has_volume name vs) (member so_name names)))
      where
        by_cases :
            (b c : Bool)
            → sent server id (
                if b
                then (if c
                    then (err (targetd_error volume_masked), server.machine)
                    else mod'.destroy pool name server.machine)
                else (err (targetd_error not_found_volume), server.machine))
              ≡ (if b
                  then (if c
                      then (failure true (neg 303) id, server)
                      else sent server id (mod'.destroy pool name server.machine))
                  else (failure true (neg 103) id, server))
        by_cases true true = refl
        by_cases true false = refl
        by_cases false c = refl
