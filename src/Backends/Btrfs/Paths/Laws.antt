-- ===== src/Backends/Btrfs/Paths/Laws.antt =====
-- The paths and the output of the btrfs program, read by targetd/backends/btrfs.py.
use targetd.Prelude.{
  ◌≡◌, refl, ap, sym, subst, ◌∙◌, ℕ, ◌==◌, has_code-append, arith, Bool, true, false, Text, codes,
  starts_with, List, [], ◌∷◌, ◌++◌, map, All, append_assoc,
}
use targetd.Prelude.Split.{split, join, split-join, Lacks}
use targetd.Backends.Btrfs.Paths.{
  fs_path, needs_no_slash, path_join, fs_of, more_than_one, without_tree, split_lines, split_stdout,
}

-- A name that `os.path.join` takes below the directory.
abbrev pub IsRelative : Text → Type 0
IsRelative name = starts_with name (codes "/") ≡ false

pub path_join_relative :
    (a b : Text) → needs_no_slash a ≡ false → IsRelative b → path_join a b ≡ a ++ b'/' ∷ b
unfolding path_join
path_join_relative a b n r = ground arith

needs_no_slash_end : (a : Text) (c : ℕ) → c == b'/' ≡ false → needs_no_slash (a ++ c ∷ []) ≡ false
unfolding needs_no_slash
needs_no_slash_end [] c h = h
needs_no_slash_end (x ∷ []) c h = h
needs_no_slash_end (x ∷ y ∷ a) c h = needs_no_slash_end (y ∷ a) c h

-- A directory whose name does not end with a slash takes relative names behind one.
path_join-behind :
    (a b : Text) (c : ℕ) (name : Text)
    → c == b'/' ≡ false
    → IsRelative name
    → path_join (a ++ (b ++ c ∷ [])) name ≡ a ++ (b ++ c ∷ b'/' ∷ name)
path_join-behind a b c name h r =
    path_join_relative (a ++ (b ++ c ∷ [])) name
      (subst (λ t. needs_no_slash t ≡ false) (append_assoc a b (c ∷ []))
        (needs_no_slash_end (a ++ b) c h))
      r
    ∙ append_assoc a (b ++ c ∷ []) (b'/' ∷ name)
    ∙ ap (λ t. a ++ t) (append_assoc b (c ∷ []) (b'/' ∷ name))

pool_join :
    (pool name : Text)
    → IsRelative name
    → (short : Bool) → needs_no_slash pool ≡ short
    → path_join pool (fs_path ++ b'/' ∷ name) ≡ path_join (path_join pool fs_path) name
unfolding path_join starts_with
pool_join pool name r true e =
    rw e (sym (path_join-behind pool (codes "targetd_f") b's' name refl r))
pool_join pool name r false e =
    rw e (sym (path_join-behind pool (codes "/targetd_f") b's' name refl r))

-- What `fs_hash` takes as the path is where `fs_create` creates a file system of the name.
pub path_join-prefix :
    (pool name : Text) → IsRelative name → path_join pool (fs_path ++ b'/' ∷ name) ≡ fs_of pool name
unfolding fs_of
path_join-prefix pool name r = pool_join pool name r (needs_no_slash pool) refl

-- The parts of a line of at least two words.
abbrev pub IsRow : List Text → Type 0
IsRow row = (more_than_one row ≡ true) × All (Lacks b' ') row × All (Lacks 10) row

join-Lacks :
    (c sep : ℕ) (row : List Text) → sep == c ≡ false → All (Lacks c) row → Lacks c (join sep row)
unfolding join
join-Lacks c sep [] n h = refl
join-Lacks c sep (p ∷ []) n h = h.0
join-Lacks c sep (p ∷ q ∷ row) n h =
    rw (has_code-append c p (sep ∷ join sep (q ∷ row)), h.0, n) (join-Lacks c sep (q ∷ row) n h.1)

lines-Lacks : (rows : List (List Text)) → All IsRow rows → All (Lacks 10) (map (join b' ') rows)
lines-Lacks [] h = tt
lines-Lacks (row ∷ rows) h = (join-Lacks 10 b' ' row refl h.0.2, lines-Lacks rows h.1)

split_row : (row : List Text) → IsRow row → split b' ' (join b' ' row) ≡ row
split_row [] h = ground arith
split_row (p ∷ ps) h = split-join b' ' p ps h.1

split_lines-join :
    (rows : List (List Text))
    → All IsRow rows
    → split_lines (map (join b' ') rows) ≡ map (map without_tree) rows
unfolding split_lines
split_lines-join [] h = refl
split_lines-join (row ∷ rows) h = rw (split_row row h.0, h.0.0, split_lines-join rows h.1)

split_stdout-join_rows :
    (row : List Text) (rows : List (List Text))
    → All IsRow (row ∷ rows)
    → split_stdout (join 10 (map (join b' ') (row ∷ rows))) ≡ map (map without_tree) (row ∷ rows)
unfolding split_stdout
split_stdout-join_rows row rows h =
    rw (split-join 10 (join b' ' row) (map (join b' ') rows) (lines-Lacks (row ∷ rows) h))
      (split_lines-join (row ∷ rows) h)

-- A word of a listing, with the mark of the tree before it or not.
abbrev pub printed : Bool × Text → Text
printed (true, word) = codes "<FS_TREE>/" ++ word
printed (false, word) = word

-- The words themselves have no such mark.
abbrev pub IsUnmarked : Bool × Text → Type 0
IsUnmarked p = starts_with p.1 (codes "<FS_TREE>/") ≡ false

abbrev pub words : List (Bool × Text) → List Text
words = map (λ p. p.1)

without_tree-printed : (p : Bool × Text) → IsUnmarked p → without_tree (printed p) ≡ p.1
unfolding without_tree starts_with targetd.Prelude.drop_text
without_tree-printed (true, word) h = refl
without_tree-printed (false, word) h = rw h refl

without_tree-words :
    (row : List (Bool × Text)) → All IsUnmarked row → map without_tree (map printed row) ≡ words row
without_tree-words [] h = refl
without_tree-words (p ∷ row) (h, hs) = rw (without_tree-printed p h, without_tree-words row hs) refl

without_tree-rows :
    (rows : List (List (Bool × Text)))
    → All (All IsUnmarked) rows
    → map (map without_tree) (map (map printed) rows) ≡ map words rows
without_tree-rows [] h = refl
without_tree-rows (row ∷ rows) (h, hs) =
    rw (without_tree-words row h, without_tree-rows rows hs) refl

-- `split_stdout` reads the words of a listing of at least one line, where each line has at least two
-- words without spaces and line feeds, and each word may have the mark of the tree before it: the
-- marks are gone and nothing else.
pub split_stdout-words :
    (row : List (Bool × Text)) (rows : List (List (Bool × Text)))
    → All IsRow (map (map printed) (row ∷ rows))
    → All (All IsUnmarked) (row ∷ rows)
    → split_stdout (join 10 (map (join b' ') (map (map printed) (row ∷ rows))))
      ≡ map words (row ∷ rows)
split_stdout-words row rows h k =
    split_stdout-join_rows (map printed row) (map (map printed) rows) h
    ∙ without_tree-rows (row ∷ rows) k
