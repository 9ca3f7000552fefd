-- ===== src/Block/Exports/Mapped.antt =====
-- The mapped LUNs of targetd/block.py, and what rtslib does to them.
use targetd.Prelude.{◌≡◌, ◌↔◌, ℕ, Bool, true, false, ◌&&◌, ◌==◌, Text, text_eq, any, List}
use targetd.Utils.Errors.{ok}
use targetd.Backends.Interface.{BlockBackend}
use targetd.Block.Volumes.{pool_module}
use targetd.Block.Mappings.{Rtslib, is_empty}
use targetd.Block.Exports.{NodeAcls, path_of}

module _ {W Storage Lun : Type 0} (r : Rtslib W Storage Lun) (t : NodeAcls W Storage Lun) where
  -- The initiator sees the LUN under the number.
  abbrev pub is_mapped_to : Text → ℕ → Lun → W → Bool
  is_mapped_to a n l w = any (λ m. m.0 == n && r.same_lun m.1 l) (t.mapped_of a w)

  abbrev pub object_name : Lun → Text
  object_name l = r.so_name (r.storage_object l)

  -- What rtslib does to the mapped LUNs, whether a call ends well or raises: only deletions change
  -- them, and a deletion takes those of its mapped LUN, LUN, storage object or node ACL.
  pub record KeepsMapped : Type 0 where
    pub same : (l k : Lun) → (r.same_lun l k ≡ true) ↔ (l ≡ k)
    pub opens :
        (a : Text) (n : ℕ) (l : Lun) (w : W)
        → is_mapped_to a n l (t.open_tpg w).1 ≡ is_mapped_to a n l w
    pub makes_acl :
        (a : Text) (n : ℕ) (l : Lun) (b : Text) (w : W)
        → is_mapped_to a n l (t.node_acl b w).1 ≡ is_mapped_to a n l w
    pub saves :
        (a : Text) (n : ℕ) (l : Lun) (w : W)
        → is_mapped_to a n l (r.save_to_file w).1 ≡ is_mapped_to a n l w
    pub deletes_mapping :
        (a : Text) (n : ℕ) (l : Lun) (b : Text) (m : ℕ) (w : W)
        → (text_eq a b && n == m) ≡ false
        → is_mapped_to a n l w ≡ true
        → is_mapped_to a n l (t.delete_mapping b m w).1 ≡ true
    pub deletes_lun :
        (a : Text) (n : ℕ) (l k : Lun) (w : W)
        → r.same_lun k l ≡ false
        → is_mapped_to a n l w ≡ true
        → is_mapped_to a n l (r.delete_lun k w).1 ≡ true
    pub deletes_so :
        (a : Text) (n : ℕ) (l : Lun) (s : Storage) (w : W)
        → text_eq (r.so_name s) (object_name l) ≡ false
        → is_mapped_to a n l w ≡ true
        → is_mapped_to a n l (r.delete_so s w).1 ≡ true
    pub deletes_acl :
        (a : Text) (n : ℕ) (l : Lun) (b : Text) (w : W)
        → text_eq a b ≡ false
        → is_mapped_to a n l w ≡ true
        → is_mapped_to a n l (t.delete_acl b w).1 ≡ true
    -- A mapped LUN is listed with its LUN, and its ACL with the target.
    pub lun_lists :
        (a : Text) (n : ℕ) (l : Lun) (w : W)
        → is_mapped_to a n l w ≡ true
        → is_empty (r.mapped_luns l w) ≡ false
    pub acl_listed :
        (a : Text) (n : ℕ) (l : Lun) (w : W)
        → is_mapped_to a n l w ≡ true
        → is_empty (t.node_acls w) ≡ false
    -- A number of an ACL is that of one LUN.
    pub one_lun :
        (a : Text) (n : ℕ) (l k : Lun) (w : W)
        → is_mapped_to a n l w ≡ true
        → is_mapped_to a n k w ≡ true
        → l ≡ k

  -- No two mapped LUNs are of one storage object.
  abbrev pub HasOwnObjects : W → Type 0
  HasOwnObjects w =
      (a b : Text) (n m : ℕ) (l k : Lun)
      → is_mapped_to a n l w ≡ true
      → is_mapped_to b m k w ≡ true
      → text_eq (object_name k) (object_name l) ≡ true
      → k ≡ l

  module _ (pool_modules : List (BlockBackend W)) where
    -- The volume of the LUN, by its path.
    abbrev pub IsVolume : Text → Text → Lun → Type 0
    IsVolume pool vol l =
        (mod' : BlockBackend W) × (dev : Text) × (pool_module pool_modules pool ≡ ok mod')
        × (mod'.pool2dev_name pool ≡ ok dev)
        × (mod'.split_udev_path (path_of r t pool_modules l) ≡ ok (dev, vol))
