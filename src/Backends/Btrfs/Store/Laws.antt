-- ===== src/Backends/Btrfs/Store/Laws.antt =====
-- The operations of targetd/backends/btrfs.py on the store.
use targetd.Prelude.{Text}
use targetd.Utils.Errors.{Result}
use targetd.Backends.Btrfs.Commands.{Host}
use targetd.Backends.Btrfs.Store.{Operation, store, IsBtrfs, Outcome}
use targetd.Backends.Btrfs.Store.Names.{IsNormal}

module _ {W : Type 0} (h : Host W) (laws : IsBtrfs h) (pool : Text) (normal : IsNormal pool) where
  -- The outcome of a run of which the result is known.
  abbrev Ends : Operation → W → Result (Unit {0}) × W → Type 0
  Ends op w r = Outcome op (store h pool w) r.0 (store h pool r.1)
