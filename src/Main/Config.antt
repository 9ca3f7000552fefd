-- ===== src/Main/Config.antt =====
-- The configuration of targetd/main.py: `load_config` over the parsed file.
pub mod Laws
use targetd.Prelude.{
  ◌≡◌, ℕ, Bool, true, false, not, ◌&&◌, ◌||◌, ◌==◌, Text, codes, text_eq, any, Option, none, some,
  List, [], ◌∷◌, map, if◌then◌else◌,
}
use targetd.Prelude.Dict.{Dict, lookup, insert, erase, contains}
use targetd.Utils.Errors.{
  ℤ, pos, neg, Result, ok, err, ◌>>=◌, key_error, type_error, attribute_error,
}

-- A value of the configuration that is no list and no mapping.
pub data Scalar : Type 0 where
  null : Scalar
  truth : Bool → Scalar
  number : ℤ → Scalar
  text : Text → Scalar

-- A value: a scalar; a list of scalars, or a mapping as the list of its keys; or a list with another
-- member, which no set can have.
pub data Setting : Type 0 where
  scalar : Scalar → Setting
  items : List Scalar → Setting
  other : Setting

-- What `yaml.safe_load` gives of the whole file.
pub data Content : Type 0 where
  nothing : Content
  string : Text → Content
  settings : Dict Setting → Content
  no_mapping : Content

-- What `read` and `yaml.safe_load` do where there is a file.
abbrev pub File : Type 0
File = Option (Result Content)

abbrev word : Text → Setting
word s = scalar (text s)

-- `default_config`, with the name of the host.
abbrev pub default_config : Text → Dict Setting
default_config target_name =
    (codes "block_pools", items (text (codes "vg-targetd") ∷ []))
    ∷ (codes "fs_pools", items [])
    ∷ (codes "zfs_block_pools", items [])
    ∷ (codes "zfs_enable_copy", scalar (truth false))
    ∷ (codes "user", word (codes "admin"))
    ∷ (codes "log_level", word (codes "info"))
    ∷ (codes "target_name", word target_name)
    ∷ (codes "ssl", scalar (truth false))
    ∷ (codes "ssl_cert", word (codes "/etc/target/targetd_cert.pem"))
    ∷ (codes "ssl_key", word (codes "/etc/target/targetd_key.pem"))
    ∷ (codes "portal_addresses", items (text (codes "0.0.0.0") ∷ []))
    ∷ (codes "allow_chown", scalar (truth false))
    ∷ []

-- The configuration behind the file; a text, as for `password:whatever`, counts as none.
unfoldable pub read_file : File → Result (Dict Setting)
read_file none = ok []
read_file (some (err e)) = err e
read_file (some (ok nothing)) = ok []
read_file (some (ok (string _))) = ok []
read_file (some (ok (settings config))) = ok config
read_file (some (ok no_mapping)) = err type_error

-- The loop over the defaults.
unfoldable pub fill : Dict Setting → Dict Setting → Dict Setting
fill [] config = config
fill ((key, value) ∷ defaults) config =
    fill defaults (if contains key config then config else insert key value config)

-- `[config["pool_name"]]`
abbrev pub single : Setting → Setting
single (scalar s) = items (s ∷ [])
single _ = other

unfoldable pub renamed : Option Setting → Dict Setting → Dict Setting
renamed none config = config
renamed (some pool) config =
    erase (codes "pool_name") (insert (codes "block_pools") (single pool) config)

unfoldable pub old_pool_name : Dict Setting → Dict Setting
unfolding renamed
old_pool_name config = renamed (lookup (codes "pool_name") config) config

-- Equality of the members of a set; `True` is 1 and `False` is 0.
abbrev pub same_int : ℤ → ℤ → Bool
same_int (pos n) (pos m) = n == m
same_int (ℤ.negsuc n) (ℤ.negsuc m) = n == m
same_int _ _ = false

abbrev pub int_of : Bool → ℤ
int_of b = if b then pos 1 else pos 0

unfoldable pub same_member : Scalar → Scalar → Bool
same_member null null = true
same_member (text s) (text t) = text_eq s t
same_member (truth a) (truth b) = same_int (int_of a) (int_of b)
same_member (truth a) (number m) = same_int (int_of a) m
same_member (number n) (truth b) = same_int n (int_of b)
same_member (number n) (number m) = same_int n m
same_member _ _ = false

-- The members of a set, each once.
unfoldable pub distinct : List Scalar → List Scalar
distinct [] = []
distinct (x ∷ xs) = let rest = distinct xs in if any (same_member x) rest then rest else x ∷ rest

-- `set(value)`; a text gives its characters.
unfoldable pub set_of : Setting → Result (List Scalar)
unfolding distinct same_member
set_of (items xs) = ok (distinct xs)
set_of (scalar (text s)) = ok (distinct (map (λ c. text (c ∷ [])) s))
set_of _ = err type_error

-- `config[key]`
abbrev pub value_of : Option Setting → Result Setting
value_of none = err key_error
value_of (some value) = ok value

-- `config[key] = set(config[key])`
unfoldable pub make_unique : Text → Dict Setting → Result (Dict Setting)
unfolding set_of
make_unique key config = do
  value ← value_of (lookup key config)
  xs ← set_of value
  ok (insert key (items xs) config)

-- `if not passwd or type(passwd) is not str: raise AttributeError`
abbrev pub check_password : Option Setting → Result (Unit {0})
check_password (some (scalar (text (_ ∷ _)))) = ok tt
check_password _ = err attribute_error

-- `config["log_level"].upper()` is a method of texts; the levels of the log are a parameter.
unfoldable pub level_of : (Text → Setting) → Option Setting → Result Setting
level_of levels none = err key_error
level_of levels (some (scalar (text s))) = ok (levels s)
level_of levels (some _) = err attribute_error

unfoldable pub load_config : (Text → Setting) → Text → File → Result (Dict Setting)
unfolding read_file fill old_pool_name make_unique level_of
load_config levels target_name file = do
  config ← read_file file
  let filled = old_pool_name (fill (default_config target_name) config)
  block ← make_unique (codes "block_pools") filled
  fs ← make_unique (codes "fs_pools") block
  zfs ← make_unique (codes "zfs_block_pools") fs
  check_password (lookup (codes "password") zfs) >>= λ _.
      level_of levels (lookup (codes "log_level") zfs) >>= λ level.
      ok (insert (codes "log_level") level zfs)
