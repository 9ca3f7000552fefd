-- ===== src/Backends/Btrfs/Snapshots.antt =====
-- The snapshots that `ss` of targetd/backends/btrfs.py reads from the output of the program.
use targetd.Prelude.{ℕ, Text, List, [], ◌∷◌, ◌++◌}
use mathlib.Core.List.{reverse}
use targetd.Utils.Items.{item}
use targetd.Utils.Errors.{Result, ok, ◌>>=◌}
use targetd.Backends.Interface.{Snapshot}

module _ (epoch : Text → Result ℕ) where
  unfoldable pub read_row : List Text → Result Snapshot
  read_row e = do
    date ← item 10 e
    time ← item 11 e
    time_epoch ← epoch (date ++ b' ' ∷ time)
    name ← item 0 (reverse e)
    uuid ← item 2 (reverse e)
    ok (record { name = name; uuid = uuid; timestamp = time_epoch })

  -- The loop over the lines.
  unfoldable pub snapshots_of : List (List Text) → Result (List Snapshot)
  unfolding read_row
  snapshots_of [] = ok []
  snapshots_of (e ∷ data') = do s ← read_row e; rest ← snapshots_of data'; ok (s ∷ rest)
