-- ===== src/Backends/Btrfs/Store/Names.antt =====
-- The paths of targetd/backends/btrfs.py for different names are made of plain names.
use targetd.Prelude.{
  ◌≡◌, refl, ap, sym, subst, ◌∙◌, arith, ℕ, Bool, false, Text, codes, text_eq, starts_with, member,
  [], ◌∷◌, ◌++◌, append_assoc,
}
use targetd.Prelude.Split.{Lacks}
use targetd.Backends.Btrfs.Paths.{
  fs_path, ss_path, needs_no_slash, path_join, fs_of, snapshots_dir, snapshot_path,
}
use targetd.Backends.Btrfs.Paths.Laws.{IsRelative, path_join_relative}

-- A name of one directory entry.
abbrev pub IsPlain : Text → Type 0
IsPlain s = Lacks b'/' s × (member s ([] ∷ codes "." ∷ codes ".." ∷ []) ≡ false)

-- An absolute path of such names.
pub data IsNormal : Text → Type 0 where
  top : (n : Text) → IsPlain n → IsNormal (b'/' ∷ n)
  child : (p n : Text) → IsNormal p → IsPlain n → IsNormal (p ++ b'/' ∷ n)

-- A path below the directory `p`.
abbrev pub is_below : Text → Text → Bool
is_below p q = starts_with q (p ++ b'/' ∷ [])

IsPlain-IsRelative : (n : Text) → IsPlain n → IsRelative n
unfolding starts_with
IsPlain-IsRelative [] h = refl
IsPlain-IsRelative (c ∷ n) h = ground (arith, h.0)

Lacks-slash : (c : ℕ) (n : Text) → Lacks b'/' (c ∷ n) → needs_no_slash (c ∷ n) ≡ false
unfolding needs_no_slash
Lacks-slash c [] h = ground arith
Lacks-slash c (d ∷ n) h = Lacks-slash d n (ground arith)

plain_end : (n : Text) → IsPlain n → needs_no_slash n ≡ false
unfolding text_eq
plain_end [] h = ground arith
plain_end (c ∷ n) h = Lacks-slash c n h.0

end_behind : (a n : Text) → IsPlain n → needs_no_slash (a ++ b'/' ∷ n) ≡ false
unfolding needs_no_slash
end_behind [] [] h = absurd (ground (arith, plain_end [] h))
end_behind [] (c ∷ n) h = plain_end (c ∷ n) h
end_behind (x ∷ []) n h = end_behind [] n h
end_behind (x ∷ y ∷ a) n h = end_behind (y ∷ a) n h

normal_end : (p : Text) → IsNormal p → needs_no_slash p ≡ false
normal_end p (top n h) = end_behind [] n h
normal_end p (child q n r h) = end_behind q n h

entry_of : (p n : Text) → IsNormal p → IsPlain n → path_join p n ≡ p ++ b'/' ∷ n
entry_of p n h k = path_join_relative p n (normal_end p h) (IsPlain-IsRelative n k)

fs_path-IsPlain : IsPlain fs_path
unfolding text_eq
fs_path-IsPlain = (refl, refl)

ss_path-IsPlain : IsPlain ss_path
unfolding text_eq
ss_path-IsPlain = (refl, refl)

module _ (pool : Text) (h : IsNormal pool) where
  entry_of_entry :
      (d n : Text)
      → IsPlain d
      → IsPlain n
      → path_join (path_join pool d) n ≡ (pool ++ b'/' ∷ d) ++ b'/' ∷ n
  entry_of_entry d n hd hn =
      ap (λ p. path_join p n) (entry_of pool d h hd)
      ∙ entry_of (pool ++ b'/' ∷ d) n (child pool d h hd) hn

  pub fs_of-IsNormal : (n : Text) → IsPlain n → IsNormal (fs_of pool n)
  unfolding fs_of
  fs_of-IsNormal n k =
      subst IsNormal (sym (entry_of_entry fs_path n fs_path-IsPlain k))
        (child (pool ++ b'/' ∷ fs_path) n (child pool fs_path h fs_path-IsPlain) k)

  pub snapshots_dir-IsNormal : (n : Text) → IsPlain n → IsNormal (snapshots_dir pool n)
  unfolding snapshots_dir
  snapshots_dir-IsNormal n k =
      subst IsNormal (sym (entry_of_entry ss_path n ss_path-IsPlain k))
        (child (pool ++ b'/' ∷ ss_path) n (child pool ss_path h ss_path-IsPlain) k)

  pub snapshot_path-entry :
      (n m : Text)
      → IsPlain n
      → IsPlain m
      → snapshot_path pool n m ≡ snapshots_dir pool n ++ b'/' ∷ m
  unfolding snapshot_path
  snapshot_path-entry n m hn hm = entry_of (snapshots_dir pool n) m (snapshots_dir-IsNormal n hn) hm

  pub snapshot_path-IsNormal :
      (n m : Text) → IsPlain n → IsPlain m → IsNormal (snapshot_path pool n m)
  snapshot_path-IsNormal n m hn hm =
      subst IsNormal (sym (snapshot_path-entry n m hn hm))
        (child (snapshots_dir pool n) m (snapshots_dir-IsNormal n hn) hm)

  -- The paths behind the pool.
  pub fs_tail : (n : Text) → IsPlain n → fs_of pool n ≡ pool ++ (codes "/targetd_fs/" ++ n)
  unfolding fs_of
  fs_tail n k =
      entry_of_entry fs_path n fs_path-IsPlain k ∙ append_assoc pool (b'/' ∷ fs_path) (b'/' ∷ n)

  pub dir_tail : (n : Text) → IsPlain n → snapshots_dir pool n ≡ pool ++ (codes "/targetd_ss/" ++ n)
  unfolding snapshots_dir
  dir_tail n k =
      entry_of_entry ss_path n ss_path-IsPlain k ∙ append_assoc pool (b'/' ∷ ss_path) (b'/' ∷ n)

  pub snapshot_tail :
      (n m : Text)
      → IsPlain n
      → IsPlain m
      → snapshot_path pool n m ≡ pool ++ (codes "/targetd_ss/" ++ (n ++ b'/' ∷ m))
  snapshot_tail n m hn hm =
      snapshot_path-entry n m hn hm
      ∙ ap (λ p. p ++ b'/' ∷ m) (dir_tail n hn)
      ∙ append_assoc pool (codes "/targetd_ss/" ++ n) (b'/' ∷ m)
