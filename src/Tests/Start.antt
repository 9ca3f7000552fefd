-- ===== src/Tests/Start.antt =====
-- The start of targetd/main.py at a concrete configuration.
use targetd.Prelude.{
  ℕ, ◌+◌, ◌≡◌, refl, true, false, Text, codes, text_eq, member, Option, none, some, List, [], ◌∷◌,
}
use targetd.Prelude.Dict.{Dict, lookup, insert}
use targetd.Utils.Errors.{pos, ok, err, attribute_error}
use targetd.Utils.Exec.{Exec}
use targetd.Main.Config.{
  Setting, scalar, items, truth, number, text, File, string, settings, read_file, default_config,
  load_config,
}
use targetd.Main.Config.Laws.{or_else, changed_keys, load_config-ok}
use targetd.Main.Start.{Stat, is_true, serves, main}
use targetd.Main.Start.Laws.{WasSafe, main-serves}

abbrev levels : Text → Setting
levels _ = scalar (number (pos 20))

abbrev file : File
file = some (
    ok (
      settings (
        (codes "password", scalar (text (codes "secret")))
        ∷ (codes "ssl", scalar (truth true))
        ∷ (codes "pool_name", scalar (text (codes "vg")))
        ∷ [])))

abbrev loaded : Dict Setting
loaded =
    (codes "password", scalar (text (codes "secret")))
    ∷ (codes "ssl", scalar (truth true))
    ∷ (codes "block_pools", items (text (codes "vg") ∷ []))
    ∷ (codes "fs_pools", items [])
    ∷ (codes "zfs_block_pools", items [])
    ∷ (codes "zfs_enable_copy", scalar (truth false))
    ∷ (codes "user", scalar (text (codes "admin")))
    ∷ (codes "log_level", scalar (number (pos 20)))
    ∷ (codes "target_name", scalar (text (codes "t")))
    ∷ (codes "ssl_cert", scalar (text (codes "/etc/target/targetd_cert.pem")))
    ∷ (codes "ssl_key", scalar (text (codes "/etc/target/targetd_key.pem")))
    ∷ (codes "portal_addresses", items (text (codes "0.0.0.0") ∷ []))
    ∷ (codes "allow_chown", scalar (truth false))
    ∷ []

is_loaded : load_config levels (codes "t") file ≡ ok loaded
unfolding load_config lookup text_eq insert targetd.Prelude.Dict.erase
is_loaded = refl

no_password :
    load_config levels (codes "t") (some (ok (string (codes "password:secret"))))
    ≡ err attribute_error
unfolding load_config lookup insert text_eq
no_password = refl

file_kept :
    (config : Dict Setting) × (read_file file ≡ ok config)
    × ((c : ℕ) × (s : Text) × (lookup (codes "password") config ≡ some (scalar (text (c ∷ s))))
        × (lookup (codes "password") loaded ≡ some (scalar (text (c ∷ s)))))
    × ((k : Text)
        → member k changed_keys ≡ false
        → lookup k loaded ≡ or_else (lookup k config) (lookup k (default_config (codes "t"))))
file_kept = load_config-ok levels (codes "t") file loaded is_loaded

-- A machine that counts what it is asked, where each file is one of root with mode 0600.
abbrev stat_of : Setting → Exec ℕ (Option Stat)
stat_of _ n = (ok (some (record { st_mode = 0o100600; st_uid = 0 })), n + 1)

abbrev initialize : Dict Setting → Exec ℕ (Unit {0})
initialize _ n = (ok tt, n + 1)

started_with_tls :
    main stat_of initialize initialize levels (codes "t") file 0 ≡ (ok (serves true), 4)
unfolding main load_config lookup text_eq insert targetd.Prelude.Dict.erase
started_with_tls = refl

checked_for_tls :
    (config : Dict Setting) × (w1 : ℕ) × (w2 : ℕ) × (ssl : Setting) × (load_config levels
        (codes "t")
        file
      ≡ ok config)
    × (initialize config 0 ≡ (ok tt, w1))
    × (initialize config w1 ≡ (ok tt, w2))
    × (lookup (codes "ssl") config ≡ some ssl)
    × (is_true ssl ≡ true)
    × (true ≡ true
        → WasSafe stat_of initialize initialize (codes "ssl_key") config
          × WasSafe stat_of initialize initialize (codes "ssl_cert") config)
checked_for_tls =
    main-serves stat_of initialize initialize levels (codes "t") file true 0 4 started_with_tls
