-- ===== src/Backends/Btrfs/Paths.antt =====
-- The paths of targetd/backends/btrfs.py, and its reading of the output of the btrfs program.
pub mod Laws
use targetd.Prelude.{
  ℕ, zero, suc, Bool, true, false, ◌||◌, ◌==◌, Text, codes, starts_with, drop_text, List, [], ◌∷◌,
  ◌++◌, map, if◌then◌else◌,
}
use targetd.Prelude.Split.{split}

abbrev pub fs_path : Text
fs_path = codes "targetd_fs"

abbrev pub ss_path : Text
ss_path = codes "targetd_ss"

abbrev pub fs_cmd : Text
fs_cmd = codes "btrfs"

-- `not a or a.endswith("/")`
unfoldable pub needs_no_slash : Text → Bool
needs_no_slash [] = true
needs_no_slash (c ∷ []) = c == b'/'
needs_no_slash (c ∷ d ∷ s) = needs_no_slash (d ∷ s)

-- `os.path.join(a, b)`
unfoldable pub path_join : Text → Text → Text
unfolding needs_no_slash
path_join a b =
    if starts_with b (codes "/") then b else if needs_no_slash a then a ++ b else a ++ b'/' ∷ b

-- `os.path.join(pool, fs_path, name)`, and the same below `ss_path`.
unfoldable pub fs_of : Text → Text → Text
unfolding path_join
fs_of pool name = path_join (path_join pool fs_path) name

unfoldable pub snapshots_dir : Text → Text → Text
unfolding path_join
snapshots_dir pool name = path_join (path_join pool ss_path) name

unfoldable pub snapshot_path : Text → Text → Text → Text
unfolding snapshots_dir
snapshot_path pool name ss_name = path_join (snapshots_dir pool name) ss_name

abbrev pub more_than_one {ℓ} : {A : Type ℓ} → List A → Bool
more_than_one [] = false
more_than_one (x ∷ []) = false
more_than_one (x ∷ y ∷ xs) = true

abbrev pub strip_it : Text
strip_it = codes "<FS_TREE>/"

-- The inner loop of `split_stdout` on one part of a line.
unfoldable pub without_tree : Text → Text
without_tree z = if starts_with z strip_it then drop_text strip_it z else z

-- The loop of `split_stdout` over the lines.
unfoldable pub split_lines : List Text → List (List Text)
unfolding without_tree
split_lines [] = []
split_lines (line ∷ lines) =
    let rest = split_lines lines in
    let elem = split b' ' line in if more_than_one elem then map without_tree elem ∷ rest else rest

unfoldable pub split_stdout : Text → List (List Text)
unfolding split_lines
split_stdout out = split_lines (split 10 out)
