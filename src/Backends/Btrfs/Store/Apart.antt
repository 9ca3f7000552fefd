-- ===== src/Backends/Btrfs/Store/Apart.antt =====
-- The paths of targetd/backends/btrfs.py for different names are different, and lie apart.
use targetd.Prelude.{
  ◌≡◌, refl, ap, ◌∙◌, arith, false, ◌&&◌, Text, text_eq, starts_with, [], ◌∷◌, ◌++◌, append_assoc,
}
use targetd.Prelude.Split.{Lacks}
use targetd.Backends.Btrfs.Paths.{fs_of, snapshots_dir, snapshot_path}
use targetd.Backends.Btrfs.Store.Names.{
  IsPlain, IsNormal, is_below, fs_tail, dir_tail, snapshot_tail,
}

text_eq-append : (p a b : Text) → text_eq (p ++ a) (p ++ b) ≡ text_eq a b
unfolding text_eq
text_eq-append [] a b = refl
text_eq-append (c ∷ p) a b = ground (arith, text_eq-append p a b)

starts_with-append_both : (p a b : Text) → starts_with (p ++ a) (p ++ b) ≡ starts_with a b
unfolding starts_with
starts_with-append_both [] a b = refl
starts_with-append_both (c ∷ p) a b = ground (arith, starts_with-append_both p a b)

below-append : (p a b : Text) → is_below (p ++ a) (p ++ b) ≡ is_below a b
below-append p a b =
    ap (starts_with (p ++ b)) (append_assoc p a (b'/' ∷ []))
    ∙ starts_with-append_both p b (a ++ b'/' ∷ [])

pair_eq :
    (n m n' m' : Text)
    → Lacks b'/' n
    → Lacks b'/' n'
    → text_eq (n ++ b'/' ∷ m) (n' ++ b'/' ∷ m') ≡ (text_eq n n' && text_eq m m')
unfolding text_eq
pair_eq [] m [] m' h k = ground arith
pair_eq [] m (d ∷ n') m' h k = ground arith
pair_eq (c ∷ n) m [] m' h k = ground arith
pair_eq (c ∷ n) m (d ∷ n') m' h k = ground (arith, pair_eq n m n' m')

below_pair :
    (n n' m : Text) → Lacks b'/' n → Lacks b'/' n' → is_below n (n' ++ b'/' ∷ m) ≡ text_eq n n'
unfolding text_eq starts_with
below_pair [] [] m h k = refl
below_pair [] (d ∷ n') m h k = ground arith
below_pair (c ∷ n) [] m h k = ground arith
below_pair (c ∷ n) (d ∷ n') m h k = ground (arith, below_pair n n' m)

below_plain : (n n' : Text) → Lacks b'/' n' → is_below n n' ≡ false
unfolding starts_with
below_plain [] [] h = refl
below_plain [] (d ∷ n') h = ground arith
below_plain (c ∷ n) [] h = refl
below_plain (c ∷ n) (d ∷ n') h = ground (arith, below_plain n n')

below_pairs :
    (n m n' m' : Text)
    → Lacks b'/' n
    → Lacks b'/' n'
    → Lacks b'/' m'
    → is_below (n ++ b'/' ∷ m) (n' ++ b'/' ∷ m') ≡ false
unfolding starts_with
below_pairs [] m [] m' h k l = ground (arith, below_plain m m' l)
below_pairs [] m (d ∷ n') m' h k l = ground arith
below_pairs (c ∷ n) m [] m' h k l = ground arith
below_pairs (c ∷ n) m (d ∷ n') m' h k l = ground (arith, below_pairs n m n' m')

plain_eq_pair : (n n' m : Text) → Lacks b'/' n → text_eq n (n' ++ b'/' ∷ m) ≡ false
unfolding text_eq
plain_eq_pair [] [] m h = refl
plain_eq_pair [] (d ∷ n') m h = refl
plain_eq_pair (c ∷ n) [] m h = ground arith
plain_eq_pair (c ∷ n) (d ∷ n') m h = ground (arith, plain_eq_pair n n' m)

pub below_self : (p : Text) → is_below p p ≡ false
unfolding starts_with
below_self [] = refl
below_self (c ∷ p) = ground (arith, below_self p)

module _ (pool : Text) (h : IsNormal pool) where
  -- The three kinds of paths, compared.
  module _ (n : Text) (hn : IsPlain n) where
    pub fs_eq_fs : (n' : Text) → IsPlain n' → text_eq (fs_of pool n) (fs_of pool n') ≡ text_eq n n'
    unfolding text_eq
    fs_eq_fs n' k = rw (fs_tail pool h n hn, fs_tail pool h n' k) (text_eq-append pool _ _)

    pub fs_below_fs : (n' : Text) → IsPlain n' → is_below (fs_of pool n) (fs_of pool n') ≡ false
    unfolding starts_with
    fs_below_fs n' k =
        rw (fs_tail pool h n hn, fs_tail pool h n' k) (below-append pool _ _ ∙ below_plain n n' k.0)

    module _ (n' m' : Text) (k : IsPlain n') (l : IsPlain m') where
      pub fs_eq_snapshot : text_eq (fs_of pool n) (snapshot_path pool n' m') ≡ false
      unfolding text_eq
      fs_eq_snapshot =
          rw (fs_tail pool h n hn, snapshot_tail pool h n' m' k l) (text_eq-append pool _ _)

      pub fs_below_snapshot : is_below (fs_of pool n) (snapshot_path pool n' m') ≡ false
      unfolding starts_with
      fs_below_snapshot =
          rw (fs_tail pool h n hn, snapshot_tail pool h n' m' k l) (below-append pool _ _)

      pub dir_eq_snapshot : text_eq (snapshots_dir pool n) (snapshot_path pool n' m') ≡ false
      unfolding text_eq
      dir_eq_snapshot =
          rw (dir_tail pool h n hn, snapshot_tail pool h n' m' k l)
            (text_eq-append pool _ _ ∙ plain_eq_pair n n' m' hn.0)

      pub dir_below_snapshot :
          is_below (snapshots_dir pool n) (snapshot_path pool n' m') ≡ text_eq n n'
      unfolding starts_with
      dir_below_snapshot =
          rw (dir_tail pool h n hn, snapshot_tail pool h n' m' k l)
            (below-append pool _ _ ∙ below_pair n n' m' hn.0 k.0)

    pub dir_eq_fs :
        (n' : Text) → IsPlain n' → text_eq (snapshots_dir pool n) (fs_of pool n') ≡ false
    unfolding text_eq
    dir_eq_fs n' k = rw (dir_tail pool h n hn, fs_tail pool h n' k) (text_eq-append pool _ _)

    pub dir_below_fs :
        (n' : Text) → IsPlain n' → is_below (snapshots_dir pool n) (fs_of pool n') ≡ false
    unfolding starts_with
    dir_below_fs n' k = rw (dir_tail pool h n hn, fs_tail pool h n' k) (below-append pool _ _)

    module _ (m : Text) (hm : IsPlain m) where
      pub snapshot_eq_fs :
          (n' : Text) → IsPlain n' → text_eq (snapshot_path pool n m) (fs_of pool n') ≡ false
      unfolding text_eq
      snapshot_eq_fs n' k =
          rw (snapshot_tail pool h n m hn hm, fs_tail pool h n' k) (text_eq-append pool _ _)

      pub snapshot_below_fs :
          (n' : Text) → IsPlain n' → is_below (snapshot_path pool n m) (fs_of pool n') ≡ false
      unfolding starts_with
      snapshot_below_fs n' k =
          rw (snapshot_tail pool h n m hn hm, fs_tail pool h n' k) (below-append pool _ _)

      pub snapshot_eq_snapshot :
          (n' m' : Text)
          → IsPlain n'
          → IsPlain m'
          → text_eq (snapshot_path pool n m) (snapshot_path pool n' m')
            ≡ (text_eq n n' && text_eq m m')
      unfolding text_eq
      snapshot_eq_snapshot n' m' k l =
          rw (snapshot_tail pool h n m hn hm, snapshot_tail pool h n' m' k l)
            (text_eq-append pool _ _ ∙ pair_eq n m n' m' hn.0 k.0)

      pub snapshot_below_snapshot :
          (n' m' : Text)
          → IsPlain n'
          → IsPlain m'
          → is_below (snapshot_path pool n m) (snapshot_path pool n' m') ≡ false
      unfolding starts_with
      snapshot_below_snapshot n' m' k l =
          rw (snapshot_tail pool h n m hn hm, snapshot_tail pool h n' m' k l)
            (below-append pool _ _ ∙ below_pairs n m n' m' hn.0 k.0 l.0)
