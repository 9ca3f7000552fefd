-- ===== src/Backends/Btrfs/FileSystems/Laws.antt =====
-- What `fs_hash` of targetd/backends/btrfs.py lists.
use targetd.Prelude.{
  ℕ, ◌≡◌, refl, ap, ◌∙◌, subst, arith, inl, inr, ◌⊎◌, true, Bool-cases, Text, text_eq, text_eq_iff,
  text_eq_refl, starts_with, drop_text, member, List, [], ◌∷◌, ◌++◌, All,
}
use targetd.Prelude.Dict.{Dict, insert, NodupKeys, insert-NodupKeys}
use targetd.Utils.Items.{item}
use targetd.Utils.Errors.{ok, Result-cases}
use targetd.Utils.Exec.{◌>>=◌, >>=-Runs}
use targetd.Backends.Interface.{FileSystem}
use targetd.Backends.Btrfs.Paths.{fs_path, path_join, fs_of, split_stdout}
use targetd.Backends.Btrfs.Paths.Laws.{IsRelative, path_join-prefix}
use targetd.Backends.Btrfs.Commands.{Host, fs_space_values, invoke_retries}
use targetd.Backends.Btrfs.FileSystems.{
  prefix, fs_entries, entries_of, list_all, fs_hash_of, fs_hash,
}

starts_with-drop_text : (s p : Text) → starts_with s p ≡ true → s ≡ p ++ drop_text p s
unfolding starts_with drop_text
starts_with-drop_text s [] h = refl
starts_with-drop_text [] (d ∷ p) h = cc
starts_with-drop_text (c ∷ s) (d ∷ p) h = ground (arith, starts_with-drop_text s p)

-- The entry stands under its path, which `fs_create` of its pool and name takes too.
abbrev pub IsEntry : List Text → Text × FileSystem → Type 0
IsEntry pools (key, f) =
    (key ≡ f.full_path)
    × (member f.pool pools ≡ true)
    × (IsRelative f.name → f.full_path ≡ fs_of f.pool f.name)

abbrev pub IsHash : List Text → Dict FileSystem → Type 0
IsHash pools d = NodupKeys d × All (IsEntry pools) d

insert-All :
    (pools : List Text) (k : Text) (f : FileSystem) (d : Dict FileSystem)
    → IsEntry pools (k, f)
    → All (IsEntry pools) d
    → All (IsEntry pools) (insert k f d)
unfolding insert
insert-All pools k f [] h hs = (h, tt)
insert-All pools k f ((j, g) ∷ d) h hs = elim (Bool-cases (text_eq j k)) [
  | inl same ↦ rw same ((((text_eq_iff j k).0 same ∙ h.0, h.1, h.2), hs.1))
  | inr other ↦ rw other ((hs.0, insert-All pools k f d h hs.1))
]

-- The entry of the dict for a line.
abbrev entry_of : Text → ℕ → ℕ → Text → Text → FileSystem
entry_of pool total free sub_vol uuid = record {
  name = drop_text prefix sub_vol;
  uuid = uuid;
  total_space = total;
  free_space = free;
  pool = pool;
  full_path = path_join pool sub_vol;
}

entry_of-IsEntry :
    (pools : List Text) (pool : Text) (total free : ℕ) (sub_vol uuid : Text)
    → member pool pools ≡ true
    → starts_with sub_vol prefix ≡ true
    → IsEntry pools (path_join pool sub_vol, entry_of pool total free sub_vol uuid)
entry_of-IsEntry pools pool total free sub_vol uuid m h = (
  refl,
  m,
  λ r.
      ap (path_join pool) (starts_with-drop_text sub_vol prefix h)
      ∙ path_join-prefix pool (drop_text prefix sub_vol) r,
)

weaken_members :
    (p : Text) (ps qs : List Text)
    → All (λ q. member q ps ≡ true) qs
    → All (λ q. member q (p ∷ ps) ≡ true) qs
weaken_members p ps [] h = tt
weaken_members p ps (q ∷ qs) h = (ground (arith, h.0), weaken_members p ps qs h.1)

All-members : (ps : List Text) → All (λ p. member p ps ≡ true) ps
All-members [] = tt
All-members (p ∷ ps) = (ground (arith, text_eq_refl p), weaken_members p ps ps (All-members ps))

module _ {W : Type 0} (h : Host W) where
  -- What a line adds to the dict.
  fs_entries_step :
      (pool : Text) (total free : ℕ) (e : List Text) (data' : List (List Text))
      (d d' : Dict FileSystem) (w w' : W)
      → fs_entries h pool (total, free) (e ∷ data') d w ≡ (ok d', w')
      → (fs_entries h pool (total, free) data' d w ≡ (ok d', w'))
        ⊎ ((sub_vol : Text) × (uuid : Text) × (starts_with sub_vol prefix ≡ true)
            × (fs_entries h pool
                  (total, free)
                  data'
                  (insert (path_join pool sub_vol) (entry_of pool total free sub_vol uuid) d)
                  w
                ≡ (ok d', w')))
  unfolding fs_entries
  fs_entries_step pool total free e data' d d' w w' run = elim (Result-cases (item 10 e)) [
    | inl (x, bad) ↦ absurd (ground (arith, bad, run))
    | inr (sub_vol, good) ↦ elim (Bool-cases (starts_with sub_vol prefix)) [
      | inr other ↦ inl (ground (arith, good, other, run))
      | inl own ↦ elim (Result-cases (item 8 e)) [
        | inl (x, bad) ↦ absurd (ground (arith, good, own, bad, run))
        | inr (uuid, has) ↦ inr (sub_vol, uuid, own, ground (arith, good, own, has, run))
      ]
    ]
  ]

  fs_entries-IsHash :
      (pools : List Text) (pool : Text) (total free : ℕ) (data' : List (List Text))
      (d d' : Dict FileSystem) (w w' : W)
      → member pool pools ≡ true
      → IsHash pools d
      → fs_entries h pool (total, free) data' d w ≡ (ok d', w')
      → IsHash pools d'
  unfolding fs_entries
  fs_entries-IsHash pools pool total free [] d d' w w' m inv run =
      subst (IsHash pools) (ground (arith, run)) inv
  fs_entries-IsHash pools pool total free (e ∷ data') d d' w w' m inv run =
      elim (fs_entries_step pool total free e data' d d' w w' run) [
        | inl same ↦ fs_entries-IsHash pools pool total free data' d d' w w' m inv same
        | inr (sub_vol, uuid, own, more) ↦
            fs_entries-IsHash pools pool total free data' _ d' w w' m
              (
                insert-NodupKeys _ _ d inv.0,
                insert-All pools _ _ d (entry_of-IsEntry pools pool total free sub_vol uuid m own)
                    inv.1,
              )
              more
      ]

  entries_of-IsHash :
      (pools : List Text) (pool : Text) (data' : List (List Text)) (d d' : Dict FileSystem)
      (w w' : W)
      → member pool pools ≡ true
      → IsHash pools d
      → entries_of h pool data' d w ≡ (ok d', w')
      → IsHash pools d'
  unfolding entries_of
  entries_of-IsHash pools pool [] d d' w w' m inv run =
      subst (IsHash pools) (ground (arith, run)) inv
  entries_of-IsHash pools pool (e ∷ data') d d' w w' m inv run =
      let r =
        >>=-Runs (fs_space_values h (path_join pool fs_path))
          (λ space. fs_entries h pool space (e ∷ data') d) w run in
      fs_entries-IsHash pools pool r.value.0 r.value.1 (e ∷ data') d d' r.state w' m inv r.second

  fs_hash_of-IsHash :
      (pools ps : List Text) (d d' : Dict FileSystem) (w w' : W)
      → All (λ p. member p pools ≡ true) ps
      → IsHash pools d
      → fs_hash_of h ps d w ≡ (ok d', w')
      → IsHash pools d'
  unfolding fs_hash_of
  fs_hash_of-IsHash pools [] d d' w w' m inv run = subst (IsHash pools) (ground (arith, run)) inv
  fs_hash_of-IsHash pools (pool ∷ ps) d d' w w' m inv run =
      let r =
        >>=-Runs (invoke_retries h (list_all pool))
          (λ p. entries_of h pool (split_stdout p.out) d >>= fs_hash_of h ps) w run in
      let r' =
        >>=-Runs (entries_of h pool (split_stdout r.value.out) d) (fs_hash_of h ps) r.state
          r.second in
      fs_hash_of-IsHash pools ps r'.value d' r'.state w' m.1
        (entries_of-IsHash pools pool _ d r'.value r.state r'.state m.0 inv r'.first) r'.second

  -- Every file system that a successful `fs_hash` lists is of one of the pools, stands under its own
  -- path and under no other, and if its name does not begin with a slash, that path is the one where
  -- `fs_create` of its pool and name would create it.
  pub fs_hash-IsHash :
      (pools : List Text) (d : Dict FileSystem) (w w' : W)
      → fs_hash h pools w ≡ (ok d, w')
      → IsHash pools d
  unfolding fs_hash
  fs_hash-IsHash pools d w w' run =
      fs_hash_of-IsHash pools pools [] d w w' (All-members pools) (tt, tt) run
