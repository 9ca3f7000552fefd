-- ===== src/Main/Start.antt =====
-- The start of the daemon in targetd/main.py, up to the loop that serves requests.
pub mod Safe
pub mod Laws
use targetd.Prelude.{
  ℕ, Bool, true, false, not, ◌&&◌, ◌==◌, Text, codes, Option, none, some, List, [], ◌∷◌, ◌++◌,
  bit_and, if◌then◌else◌,
}
use targetd.Prelude.Dict.{Dict, lookup}
use targetd.Utils.Errors.{pos, Exception, Result, ok, err, key_error, attribute_error}
use targetd.Utils.Exec.{Exec, pure, lift, ◌>>=◌, ◌>>◌}
use targetd.Backends.Interface.{PoolInfo, BlockBackend, FsBackend}
use targetd.Block.Volumes.{block_pools}
use targetd.Fs.Systems.{fs_pools}
use targetd.Main.Config.{
  Setting, scalar, items, other, null, truth, number, text, File, value_of, load_config,
}

-- What `os.stat` tells of a file.
pub record Stat : Type 0 where
  pub st_mode : ℕ
  pub st_uid : ℕ

-- `stat.S_ISREG(mode)`
abbrev pub is_regular : ℕ → Bool
is_regular mode = bit_and mode 0o170000 == 0o100000

-- `mode & 0o077 == 0 and bool(mode & stat.S_IRUSR)`
abbrev pub is_private : ℕ → Bool
is_private mode = bit_and mode 0o077 == 0 && not (bit_and mode 0o400 == 0)

-- `_verify_ssl_file` of what is known of the file, which is nothing if it does not exist.
unfoldable pub verify_ssl_file : Option Stat → Bool
verify_ssl_file none = false
verify_ssl_file (some ss) = is_regular ss.st_mode && (ss.st_uid == 0 && is_private ss.st_mode)

-- `if config["ssl"]`
abbrev pub is_true : Setting → Bool
is_true (scalar null) = false
is_true (scalar (truth b)) = b
is_true (scalar (number (pos n))) = not (n == 0)
is_true (scalar (number _)) = true
is_true (scalar (text [])) = false
is_true (scalar (text (_ ∷ _))) = true
is_true (items []) = false
is_true (items (_ ∷ _)) = true
is_true other = true

-- `except AttributeError`
abbrev pub is_attribute_error : Exception → Bool
is_attribute_error attribute_error = true
is_attribute_error _ = false

-- How `main` goes on: it returns -1, or it serves requests, with TLS or without.
pub data Started : Type 0 where
  exits : Started
  serves : Bool → Started

module _ {W : Type 0} (stat_of : Setting → Exec W (Option Stat))
    (initialize_block initialize_fs : Dict Setting → Exec W (Unit {0})) where
  unfoldable pub verify_file : Text → Dict Setting → Exec W Bool
  unfolding verify_ssl_file
  verify_file key config = do
    f ← lift (value_of (lookup key config))
    ss ← stat_of f
    pure (verify_ssl_file ss)

  -- The certificate is looked at only if the key is good.
  unfoldable pub verify_certificates : Dict Setting → Exec W Bool
  unfolding verify_file
  verify_certificates config = do
    key ← verify_file (codes "ssl_key") config
    if key then verify_file (codes "ssl_cert") config else pure false

  unfoldable pub update_mapping : Dict Setting → Exec W (Unit {0})
  update_mapping config = initialize_block config >> initialize_fs config

  -- The choice of the server.
  unfoldable pub choose_server : Dict Setting → Exec W Started
  unfolding verify_certificates
  choose_server config = do
    ssl ← lift (value_of (lookup (codes "ssl") config))
    if is_true ssl
        then (verify_certificates config >>= λ good.
            if good then pure (serves true) else pure exits)
        else pure (serves false)

  -- `main` behind `load_config`.
  unfoldable pub started : Result (Dict Setting) → Exec W Started
  unfolding update_mapping choose_server
  started (err e) w = (if is_attribute_error e then ok exits else err e, w)
  started (ok config) w =
      let (r, w') = update_mapping config w in
      elim r [ err e ↦ (ok exits, w') | ok _ ↦ choose_server config w' ]

  unfoldable pub main : (Text → Setting) → Text → File → Exec W Started
  unfolding started
  main levels target_name file = started (load_config levels target_name file)

-- The method that `update_mapping` adds to those of the two modules.
unfoldable pub pool_list :
    {W : Type 0} → List (BlockBackend W) → List (FsBackend W) → Exec W (List PoolInfo)
pool_list block_modules fs_modules = do
  block ← block_pools block_modules
  fs ← fs_pools fs_modules
  pure (block ++ fs)
