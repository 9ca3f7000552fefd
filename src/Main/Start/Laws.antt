-- ===== src/Main/Start/Laws.antt =====
-- When the daemon of targetd/main.py serves requests.
use targetd.Prelude.{
  ◌≡◌, refl, ap, ◌∙◌, arith, Bool, true, false, Text, codes, Option, none, some, if◌then◌else◌,
}
use targetd.Prelude.Dict.{Dict, lookup}
use targetd.Utils.Errors.{Exception, Result, ok, err}
use targetd.Utils.Exec.{Exec, pure, lift, ◌>>=◌, >>=-Runs}
use targetd.Main.Config.{Setting, File, value_of, load_config}
use targetd.Main.Start.{
  Stat, verify_ssl_file, is_true, is_attribute_error, Started, exits, serves, verify_file,
  verify_certificates, update_mapping, choose_server, started, main,
}
use targetd.Main.Start.Safe.{IsSafe, verified-IsSafe}

value_of-some : (o : Option Setting) (f : Setting) → value_of o ≡ ok f → o ≡ some f
value_of-some none f h = cc
value_of-some (some v) f h = cc

module _ {W : Type 0} where
  both_true :
      (b : Bool) (m : Exec W Bool) (w w' : W)
      → (if b then m else pure false) w ≡ (ok true, w')
      → (b ≡ true) × (m w ≡ (ok true, w'))
  both_true true m w w' h = (refl, h)
  both_true false m w w' h = absurd (ground (arith, h))

  good_serves :
      (good tls : Bool) (w w' : W)
      → (if good then pure (serves true) else pure exits) w ≡ (ok (serves tls), w')
      → (true ≡ tls) × (good ≡ true)
  good_serves true tls w w' h = (ground (arith, h), refl)
  good_serves false tls w w' h = absurd (ground (arith, h))

  -- Which server a run has chosen, by the setting and the check.
  chosen :
      (ssl tls : Bool) (verify : Exec W Bool) (w w' : W)
      → (if ssl
            then (verify >>= λ good. if good then pure (serves true) else pure exits)
            else pure (serves false))
          w
        ≡ (ok (serves tls), w')
      → (ssl ≡ tls) × (tls ≡ true → (w'' : W) × (verify w ≡ (ok true, w'')))
  chosen false tls verify w w' h = (ground (arith, h), λ t. absurd (ground (arith, h, t)))
  chosen true tls verify w w' h =
      let a = >>=-Runs verify (λ good. if good then pure (serves true) else pure exits) w h in
      let (same, good) = good_serves a.value tls a.state w' a.second in
      (same, λ _. (a.state, a.first ∙ ap (λ b. (ok b, a.state)) good))

module _ {W : Type 0} (stat_of : Setting → Exec W (Option Stat))
    (initialize_block initialize_fs : Dict Setting → Exec W (Unit {0})) where
  -- The file that the key of the configuration names was found to be safe.
  pub record WasSafe (key : Text) (config : Dict Setting) : Type 0 where
    pub path : Setting
    pub stat : Stat
    pub before : W
    pub behind : W
    pub configured : lookup key config ≡ some path
    pub found : stat_of path before ≡ (ok (some stat), behind)
    pub safe : IsSafe stat

  ok_pair : {A : Type 0} (a b : A) (w w' : W) → pure a w ≡ (ok b, w') → a ≡ b
  ok_pair a b w w' h = cc

  lifted : {A : Type 0} (r : Result A) (a : A) (w w' : W) → lift r w ≡ (ok a, w') → r ≡ ok a
  lifted r a w w' h = cc

  verify_file-WasSafe :
      (key : Text) (config : Dict Setting) (w w' : W)
      → verify_file stat_of initialize_block initialize_fs key config w ≡ (ok true, w')
      → WasSafe key config
  unfolding verify_file
  verify_file-WasSafe key config w w' h =
      let a =
        >>=-Runs (lift (value_of (lookup key config)))
          (λ f. stat_of f >>= λ ss. pure (verify_ssl_file ss)) w h in
      let b = >>=-Runs (stat_of a.value) (λ ss. pure (verify_ssl_file ss)) a.state a.second in
      let (ss, e, safe) =
        verified-IsSafe b.value (ok_pair (verify_ssl_file b.value) true b.state w' b.second) in
      record {
        path = a.value;
        stat = ss;
        before = a.state;
        behind = b.state;
        configured =
            value_of-some (lookup key config) a.value
              (lifted (value_of (lookup key config)) a.value w a.state a.first);
        found = b.first ∙ ap (λ o. (ok o, b.state)) e;
        safe = safe;
      }

  verify_certificates-WasSafe :
      (config : Dict Setting) (w w' : W)
      → verify_certificates stat_of initialize_block initialize_fs config w ≡ (ok true, w')
      → WasSafe (codes "ssl_key") config × WasSafe (codes "ssl_cert") config
  unfolding verify_certificates
  verify_certificates-WasSafe config w w' h =
      let cert = verify_file stat_of initialize_block initialize_fs (codes "ssl_cert") config in
      let a =
        >>=-Runs (verify_file stat_of initialize_block initialize_fs (codes "ssl_key") config)
          (λ key. if key then cert else pure false) w h in
      let (key, run) = both_true a.value cert a.state w' a.second in
      (
        verify_file-WasSafe (codes "ssl_key") config w a.state
            (a.first ∙ ap (λ b. (ok b, a.state)) key),
        verify_file-WasSafe (codes "ssl_cert") config a.state w' run,
      )

  choose_server-WasSafe :
      (config : Dict Setting) (tls : Bool) (w w' : W)
      → choose_server stat_of initialize_block initialize_fs config w ≡ (ok (serves tls), w')
      → (ssl : Setting) × (lookup (codes "ssl") config ≡ some ssl)
        × (is_true ssl ≡ tls)
        × (tls ≡ true → WasSafe (codes "ssl_key") config × WasSafe (codes "ssl_cert") config)
  unfolding choose_server
  choose_server-WasSafe config tls w w' h =
      let verify = verify_certificates stat_of initialize_block initialize_fs config in
      let a =
        >>=-Runs (lift (value_of (lookup (codes "ssl") config)))
          (λ ssl.
            if is_true ssl
            then (verify >>= λ good. if good then pure (serves true) else pure exits)
            else pure (serves false))
          w h in
      let found =
        value_of-some (lookup (codes "ssl") config) a.value
          (lifted (value_of (lookup (codes "ssl") config)) a.value w a.state a.first) in
      let (same, checked) = chosen (is_true a.value) tls verify a.state w' a.second in
      (
        a.value,
        found,
        same,
        λ t. verify_certificates-WasSafe config a.state (checked t).0 (checked t).1,
      )

  -- What comes before the choice of the server.
  record WasStarted (r : Result (Dict Setting)) (tls : Bool) (w w' : W) : Type 0 where
    config : Dict Setting
    state1 : W
    state2 : W
    loaded : r ≡ ok config
    block : initialize_block config w ≡ (ok tt, state1)
    fs : initialize_fs config state1 ≡ (ok tt, state2)
    rest :
        choose_server stat_of initialize_block initialize_fs config state2 ≡ (ok (serves tls), w')

  no_error :
      (e : Exception) (b tls : Bool) (w w' : W)
      → ◌≡◌ {A = Result Started × W} (if b then ok exits else err e, w) (ok (serves tls), w')
      → ⊥
  no_error e true tls w w' h = cc
  no_error e false tls w w' h = cc

  updated :
      (config : Dict Setting) (tls : Bool) (w w' : W) (r : Result (Unit {0})) (w2 : W)
      → update_mapping stat_of initialize_block initialize_fs config w ≡ (r, w2)
      → elim r as (λ _. Result Started × W) [
        | err e ↦ (ok exits, w2)
        | ok _ ↦ choose_server stat_of initialize_block initialize_fs config w2
      ]
        ≡ (ok (serves tls), w')
      → WasStarted (ok config) tls w w'
  unfolding update_mapping
  updated config tls w w' (err e) w2 u h = absurd cc
  updated config tls w w' (ok _) w2 u h =
      let a = >>=-Runs (initialize_block config) (λ _. initialize_fs config) w u in
      record {
        config = config;
        state1 = a.state;
        state2 = w2;
        loaded = refl;
        block = a.first;
        fs = a.second;
        rest = h;
      }

  started-WasStarted :
      (r : Result (Dict Setting)) (tls : Bool) (w w' : W)
      → started stat_of initialize_block initialize_fs r w ≡ (ok (serves tls), w')
      → WasStarted r tls w w'
  unfolding started
  started-WasStarted (err e) tls w w' h = absurd (no_error e (is_attribute_error e) tls w w' h)
  started-WasStarted (ok config) tls w w' h =
      let u = update_mapping stat_of initialize_block initialize_fs config w in
      updated config tls w w' u.0 u.1 refl h

  -- If `main` comes to serve requests, `load_config` has ended well, and so have the initialisations
  -- of targetd/block.py and targetd/fs.py with that configuration; TLS is used exactly if the
  -- configuration says so; and if it is used, the configured key and certificate were found to be
  -- regular files of root, which their owner may read and nobody else may use.
  pub main-serves :
      (levels : Text → Setting) (target_name : Text) (file : File) (tls : Bool) (w w' : W)
      → main stat_of initialize_block initialize_fs levels target_name file w
        ≡ (ok (serves tls), w')
      → (config : Dict Setting) × (w1 : W) × (w2 : W) × (ssl : Setting) × (load_config levels
            target_name file
          ≡ ok config)
        × (initialize_block config w ≡ (ok tt, w1))
        × (initialize_fs config w1 ≡ (ok tt, w2))
        × (lookup (codes "ssl") config ≡ some ssl)
        × (is_true ssl ≡ tls)
        × (tls ≡ true → WasSafe (codes "ssl_key") config × WasSafe (codes "ssl_cert") config)
  unfolding main
  main-serves levels target_name file tls w w' h =
      let x = started-WasStarted (load_config levels target_name file) tls w w' h in
      let (ssl, found, same, safe) = choose_server-WasSafe x.config tls x.state2 w' x.rest in
      (x.config, x.state1, x.state2, ssl, x.loaded, x.block, x.fs, found, same, safe)
