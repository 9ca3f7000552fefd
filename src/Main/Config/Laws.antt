-- ===== src/Main/Config/Laws.antt =====
-- What `load_config` of targetd/main.py keeps of the file.
use targetd.Prelude.{
  ◌≡◌, refl, sym, ap, ◌∙◌, arith, ℕ, true, false, Text, codes, text_eq, text_eq_iff, member, Option,
  none, some, List, [], ◌∷◌, if◌then◌else◌,
}
use targetd.Prelude.Dict.{Dict, lookup, insert, erase, contains, lookup-insert}
use targetd.Utils.Errors.{ok, >>=-values}
use targetd.Main.Config.{
  Setting, scalar, items, other, null, truth, number, text, File, default_config, read_file, fill,
  single, renamed, old_pool_name, value_of, set_of, make_unique, check_password, level_of,
  load_config,
}

abbrev pub or_else : Option Setting → Option Setting → Option Setting
or_else (some v) _ = some v
or_else none d = d

lookup_same : (k j : Text) (d : Dict Setting) → text_eq k j ≡ true → lookup k d ≡ lookup j d
lookup_same k j d h = ap (λ x. lookup x d) ((text_eq_iff k j).0 h)

fill_step :
    (k key : Text) (value : Setting) (defaults config : Dict Setting)
    → or_else
        (lookup k (if contains key config then config else insert key value config))
        (lookup k defaults)
      ≡ or_else (lookup k config) (lookup k ((key, value) ∷ defaults))
unfolding lookup
fill_step k key value defaults config =
    ground (arith, lookup-insert key k value config, lookup_same key k config)

lookup-fill :
    (k : Text) (defaults config : Dict Setting)
    → lookup k (fill defaults config) ≡ or_else (lookup k config) (lookup k defaults)
unfolding fill lookup
lookup-fill k [] config = ground arith
lookup-fill k ((key, value) ∷ defaults) config =
    lookup-fill k defaults (if contains key config then config else insert key value config)
    ∙ fill_step k key value defaults config

erase_other :
    (j k : Text) (d : Dict Setting) → text_eq k j ≡ false → lookup j (erase k d) ≡ lookup j d
unfolding lookup erase
erase_other j k [] h = refl
erase_other j k ((i, v) ∷ d) h =
    ground (arith, h, text_eq_iff i k, text_eq_iff i j, text_eq_iff k j, erase_other j k d)

insert_other :
    (j k : Text) (v : Setting) (d : Dict Setting)
    → text_eq k j ≡ false
    → lookup j (insert k v d) ≡ lookup j d
insert_other j k v d h = ground (arith, h, lookup-insert k j v d)

renamed_other :
    (k : Text) (o : Option Setting) (config : Dict Setting)
    → text_eq (codes "pool_name") k ≡ false
    → text_eq (codes "block_pools") k ≡ false
    → lookup k (renamed o config) ≡ lookup k config
unfolding renamed
renamed_other k none config p b = refl
renamed_other k (some pool) config p b =
    erase_other k (codes "pool_name") (insert (codes "block_pools") (single pool) config) p
    ∙ insert_other k (codes "block_pools") (single pool) config b

ok_same : {A : Type 0} (x y : A) → ok x ≡ ok y → x ≡ y
ok_same x y h = cc

make_unique_other :
    (key k : Text) (config config' : Dict Setting)
    → text_eq key k ≡ false
    → make_unique key config ≡ ok config'
    → lookup k config' ≡ lookup k config
unfolding make_unique
make_unique_other key k config config' n h =
    let (value, _, h1) = >>=-values (value_of (lookup key config)) _ h in
    let (xs, _, h2) = >>=-values (set_of value) _ h1 in
    ap (lookup k) (sym (ok_same (insert key (items xs) config) config' h2))
    ∙ insert_other k key (items xs) config n

-- The keys whose values are changed.
abbrev pub changed_keys : List Text
changed_keys =
    codes "pool_name"
    ∷ codes "block_pools"
    ∷ codes "fs_pools"
    ∷ codes "zfs_block_pools"
    ∷ codes "log_level"
    ∷ []

not_changed :
    (k : Text)
    → member k changed_keys ≡ false
    → (text_eq (codes "pool_name") k ≡ false)
      × (text_eq (codes "block_pools") k ≡ false)
      × (text_eq (codes "fs_pools") k ≡ false)
      × (text_eq (codes "zfs_block_pools") k ≡ false)
      × (text_eq (codes "log_level") k ≡ false)
not_changed k n = (
  differs (codes "pool_name") k (ground (arith, n)),
  differs (codes "block_pools") k (ground (arith, n)),
  differs (codes "fs_pools") k (ground (arith, n)),
  differs (codes "zfs_block_pools") k (ground (arith, n)),
  differs (codes "log_level") k (ground (arith, n)),
)
  where
    differs : (s t : Text) → text_eq t s ≡ false → text_eq s t ≡ false
    differs s t h = ground (arith, h, text_eq_iff s t, text_eq_iff t s)

module _ (levels : Text → Setting) (target_name : Text) where
  abbrev filled : Dict Setting → Dict Setting
  filled config = old_pool_name (fill (default_config target_name) config)

  -- A configuration that is loaded is that of the file with the defaults.
  load_config-lookup :
      (file : File) (r : Dict Setting)
      → load_config levels target_name file ≡ ok r
      → (config : Dict Setting) × (zfs : Dict Setting) × (read_file file ≡ ok config)
        × (check_password (lookup (codes "password") zfs) ≡ ok tt)
        × ((k : Text)
            → member k changed_keys ≡ false
            → (lookup k zfs ≡ or_else (lookup k config) (lookup k (default_config target_name)))
              × (lookup k r ≡ lookup k zfs))
  unfolding load_config old_pool_name
  load_config-lookup file r h =
      let (config, read, h1) = >>=-values (read_file file) _ h in
      let (block, e1, h2) = >>=-values (make_unique (codes "block_pools") (filled config)) _ h1 in
      let (fs, e2, h3) = >>=-values (make_unique (codes "fs_pools") block) _ h2 in
      let (zfs, e3, h4) = >>=-values (make_unique (codes "zfs_block_pools") fs) _ h3 in
      let (_, good, h5) = >>=-values (check_password (lookup (codes "password") zfs)) _ h4 in
      let (level, _, h6) = >>=-values (level_of levels (lookup (codes "log_level") zfs)) _ h5 in
      (
        config,
        zfs,
        read,
        good,
        λ k n.
            let (pool, bp, fp, zp, log) = not_changed k n in
            (
              make_unique_other (codes "zfs_block_pools") k fs zfs zp e3
                  ∙ make_unique_other (codes "fs_pools") k block fs fp e2
                  ∙ make_unique_other (codes "block_pools") k (filled config) block bp e1
                  ∙ renamed_other k _ (fill (default_config target_name) config) pool bp
                  ∙ lookup-fill k (default_config target_name) config,
              ap (lookup k) (sym (ok_same (insert (codes "log_level") level zfs) r h6))
                  ∙ insert_other k (codes "log_level") level zfs log,
            ),
      )

  password_text :
      (o : Option Setting)
      → check_password o ≡ ok tt
      → (c : ℕ) × (s : Text) × (o ≡ some (scalar (text (c ∷ s))))
  password_text (some (scalar (text (c ∷ s)))) h = (c, s, refl)
  password_text (some (scalar (text []))) h = absurd (ground (arith, h))
  password_text (some (scalar null)) h = absurd (ground (arith, h))
  password_text (some (scalar (truth _))) h = absurd (ground (arith, h))
  password_text (some (scalar (number _))) h = absurd (ground (arith, h))
  password_text (some (items _)) h = absurd (ground (arith, h))
  password_text (some other) h = absurd (ground (arith, h))
  password_text none h = absurd (ground (arith, h))

  in_file : (o : Option Setting) (s : Setting) → or_else o none ≡ some s → o ≡ some s
  in_file none s h = h
  in_file (some v) s h = h

  -- If `load_config` ends well, the file was read, it has a password, which is a text that is not
  -- empty, and the daemon uses that one; and each other setting is that of the file, or the default
  -- if the file has none, only that the pools and the level of the log are converted.
  pub load_config-ok :
      (file : File) (r : Dict Setting)
      → load_config levels target_name file ≡ ok r
      → (config : Dict Setting) × (read_file file ≡ ok config)
        × ((c : ℕ) × (s : Text) × (lookup (codes "password") config ≡ some (scalar (text (c ∷ s))))
            × (lookup (codes "password") r ≡ some (scalar (text (c ∷ s)))))
        × ((k : Text)
            → member k changed_keys ≡ false
            → lookup k r ≡ or_else (lookup k config) (lookup k (default_config target_name)))
  unfolding text_eq lookup
  load_config-ok file r h =
      let (config, zfs, read, good, kept) = load_config-lookup file r h in
      let (c, s, found) = password_text (lookup (codes "password") zfs) good in
      let (made, left) = kept (codes "password") refl in
      (
        config,
        read,
        (c, s, in_file (lookup (codes "password") config) _ (sym made ∙ found), left ∙ found),
        λ k n. (kept k n).1 ∙ (kept k n).0,
      )
