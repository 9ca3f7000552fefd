-- ===== src/Backends/Btrfs/Store.antt =====
-- An abstract view of targetd/backends/btrfs.py: file systems of one pool by name, each with named
-- snapshots; and what the manual of the btrfs program says.
pub mod Names
pub mod Apart
pub mod Changes
pub mod Snapshots
pub mod Listing
pub mod Losses
pub mod Destroy
pub mod Laws
use targetd.Prelude.{
  ◌≡◌, ℕ, Bool, true, false, not, ◌&&◌, ◌||◌, Text, codes, text_eq, Option, none, some, List, [],
  ◌∷◌, ◌++◌, All, if◌then◌else◌,
}
use targetd.Utils.Errors.{
  Exception, Result, ok, err, targetd_error, exists_fs_name, exists_clone_name,
  unexpected_exit_code,
}
use targetd.Utils.Exec.{Exec}
use targetd.Utils.Invoke.{Process, succeeded}
use targetd.Backends.Btrfs.Paths.{fs_cmd, fs_of, snapshot_path}
use targetd.Backends.Interface.{Snapshot}
use targetd.Backends.Btrfs.Commands.{Host}
use targetd.Backends.Btrfs.Store.Names.{IsPlain, IsNormal, is_below}
use targetd.Backends.Btrfs.FileSystems.{
  list_snapshots, fs_create, fs_snapshot, fs_snapshot_delete, ss, fs_destroy, fs_clone,
}

pub record Store : Type 0 where
  pub systems : Text → Bool
  pub snapshots : Text → Text → Bool

pub data Operation : Type 0 where
  creates : Text → ℕ → Operation
  takes_snapshot : Text → Text → Operation
  deletes_snapshot : Text → Text → Operation
  clones : Text → Text → Option Text → Operation
  destroys : Text → Operation

abbrev pub allowed : Operation → Store → Bool
allowed (creates name _) s = not (s.systems name)
allowed (takes_snapshot name ss) s = not (s.snapshots name ss)
allowed (deletes_snapshot _ _) s = true
allowed (clones _ dest _) s = not (s.systems dest)
allowed (destroys _) s = true

-- The error of an operation that is not allowed.
abbrev pub refusal : Operation → Exception
refusal (clones _ _ _) = targetd_error exists_clone_name
refusal _ = targetd_error exists_fs_name

abbrev pub after : Operation → Store → Store
after (creates name _) s = record s { systems = λ n. text_eq name n || s.systems n }
after (takes_snapshot name ss) s = record s {
  snapshots = λ n m. text_eq name n && text_eq ss m || s.snapshots n m;
}
after (deletes_snapshot name ss) s = record s {
  snapshots = λ n m. not (text_eq name n && text_eq ss m) && s.snapshots n m;
}
after (clones _ dest _) s = record s { systems = λ n. text_eq dest n || s.systems n }
after (destroys name) s = record {
  systems = λ n. not (text_eq name n) && s.systems n;
  snapshots = λ n m. not (text_eq name n) && s.snapshots n m;
}

abbrev pub Same : Store → Store → Type 0
Same s t =
    ((n : Text) → IsPlain n → s.systems n ≡ t.systems n)
    × ((n m : Text) → IsPlain n → IsPlain m → s.snapshots n m ≡ t.snapshots n m)

-- Nothing is gone but snapshots of the file system of the name.
abbrev pub LosesSnapshots : Text → Store → Store → Type 0
LosesSnapshots name s t =
    ((n : Text) → IsPlain n → t.systems n ≡ s.systems n)
    × ((n m : Text)
        → IsPlain n
        → IsPlain m
        → (text_eq name n ≡ false → t.snapshots n m ≡ s.snapshots n m)
          × (t.snapshots n m ≡ true → s.snapshots n m ≡ true))

-- What an operation may do to the store, by its result.
abbrev pub Outcome : Operation → Store → Result (Unit {0}) → Store → Type 0
Outcome op s (ok _) t = (allowed op s ≡ true) × Same t (after op s)
Outcome (destroys name) s (err e) t = LosesSnapshots name s t
Outcome op s (err e) t =
    Same t s × (e ≡ (if allowed op s then targetd_error unexpected_exit_code else refusal op))

abbrev pub HasPlainNames : Operation → Type 0
HasPlainNames (creates name _) = IsPlain name
HasPlainNames (takes_snapshot name ss) = IsPlain name × IsPlain ss
HasPlainNames (deletes_snapshot name ss) = IsPlain name × IsPlain ss
HasPlainNames (clones _ dest _) = IsPlain dest
HasPlainNames (destroys name) = IsPlain name

abbrev pub snapshot_args : Bool → Text → Text → List Text
snapshot_args read_only source p =
    codes "snapshot" ∷ (if read_only then codes "-r" ∷ source ∷ p ∷ [] else source ∷ p ∷ [])

module _ {W : Type 0} (h : Host W) where
  -- The store of a pool is seen in the paths that exist.
  abbrev pub store : Text → W → Store
  store pool w = record {
    systems = λ n. h.path_exists (fs_of pool n) w;
    snapshots = λ n m. h.path_exists (snapshot_path pool n m) w;
  }

  abbrev pub perform : Text → Operation → Exec W (Unit {0})
  perform pool (creates name size) = fs_create h pool name size
  perform pool (takes_snapshot name ss) = fs_snapshot h pool name ss
  perform pool (deletes_snapshot name ss) = fs_snapshot_delete h pool name ss
  perform pool (clones name dest source) = fs_clone h pool name dest source
  perform pool (destroys name) = fs_destroy h pool name

  -- For the removal of a file system: the names that `ss` reads are plain.
  abbrev pub HasPlainListing : Text → Operation → W → Type 0
  HasPlainListing pool (destroys name) w =
      (found : List Snapshot) → (ss h pool name w).0 ≡ ok found → All (λ s. IsPlain s.name) found
  HasPlainListing pool (creates _ _) w = Unit {0}
  HasPlainListing pool (takes_snapshot _ _) w = Unit {0}
  HasPlainListing pool (deletes_snapshot _ _) w = Unit {0}
  HasPlainListing pool (clones _ _ _) w = Unit {0}

  abbrev pub runs : List Text → W → Process × W
  runs args = h.run (fs_cmd ∷ codes "subvolume" ∷ args)

  -- The manual of the program, for the paths that exist and that have no symbolic links: a new
  -- subvolume is empty, a snapshot brings its path and paths below it, a subvolume is deleted with
  -- all that is below it, a failed run and a listing change nothing.
  pub record IsBtrfs : Type 0 where
    pub parents :
        (p q : Text) (w : W)
        → IsNormal p
        → IsPlain q
        → h.path_exists (p ++ b'/' ∷ q) w ≡ true
        → h.path_exists p w ≡ true
    pub created :
        (p q : Text) (w : W)
        → IsNormal p
        → IsNormal q
        → h.path_exists p w ≡ false
        → succeeded (runs (codes "create" ∷ p ∷ []) w).0 ≡ true
        → h.path_exists q (runs (codes "create" ∷ p ∷ []) w).1 ≡ (text_eq p q || h.path_exists q w)
    pub create_failed :
        (p q : Text) (w : W)
        → succeeded (runs (codes "create" ∷ p ∷ []) w).0 ≡ false
        → h.path_exists q (runs (codes "create" ∷ p ∷ []) w).1 ≡ h.path_exists q w
    pub snapshotted :
        (read_only : Bool) (source p q : Text) (w : W)
        → IsNormal p
        → IsNormal q
        → h.path_exists p w ≡ false
        → is_below p q ≡ false
        → succeeded (runs (snapshot_args read_only source p) w).0 ≡ true
        → h.path_exists q (runs (snapshot_args read_only source p) w).1
          ≡ (text_eq p q || h.path_exists q w)
    pub snapshot_failed :
        (read_only : Bool) (source p q : Text) (w : W)
        → succeeded (runs (snapshot_args read_only source p) w).0 ≡ false
        → h.path_exists q (runs (snapshot_args read_only source p) w).1 ≡ h.path_exists q w
    pub deleted :
        (p q : Text) (w : W)
        → IsNormal p
        → IsNormal q
        → is_below p q ≡ false
        → succeeded (runs (codes "delete" ∷ p ∷ []) w).0 ≡ true
        → h.path_exists q (runs (codes "delete" ∷ p ∷ []) w).1
          ≡ (not (text_eq p q) && h.path_exists q w)
    pub delete_failed :
        (p q : Text) (w : W)
        → succeeded (runs (codes "delete" ∷ p ∷ []) w).0 ≡ false
        → h.path_exists q (runs (codes "delete" ∷ p ∷ []) w).1 ≡ h.path_exists q w
    pub listing_keeps :
        (p q : Text) (w : W) → h.path_exists q (h.run (list_snapshots p) w).1 ≡ h.path_exists q w
    pub sleep_keeps : (n : ℕ) (q : Text) (w : W) → h.path_exists q (h.sleep n w) ≡ h.path_exists q w
