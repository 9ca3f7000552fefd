-- ===== src/Tests/Btrfs.antt =====
-- The theorems on the listings of targetd/backends/btrfs.py at a concrete machine.
use targetd.Prelude.{
  Bool, starts_with, ◌++◌, ◌≡◌, refl, true, false, Text, codes, has_code, List, [], ◌∷◌, map, any,
  All, any-All,
}
use targetd.Prelude.Split.{join}
use targetd.Utils.Errors.{pos, ok}
use targetd.Backends.Interface.{FileSystem}
use targetd.Backends.Btrfs.Commands.{Host}
use targetd.Backends.Btrfs.Paths.{more_than_one, split_stdout}
use targetd.Backends.Btrfs.Paths.Laws.{IsRow, IsUnmarked, split_stdout-words}
use targetd.Backends.Btrfs.FileSystems.{fs_hash}
use targetd.Backends.Btrfs.FileSystems.Laws.{IsHash, fs_hash-IsHash}

-- A machine with a listing of two subvolumes.
abbrev line : Text → Text → Text → List Text
line id uuid path =
    codes "ID"
    ∷ id
    ∷ codes "gen"
    ∷ codes "8"
    ∷ codes "top"
    ∷ codes "level"
    ∷ codes "5"
    ∷ codes "uuid"
    ∷ uuid
    ∷ codes "path"
    ∷ path
    ∷ []

abbrev first_line : List Text
first_line = line (codes "257") (codes "4f7e") (codes "<FS_TREE>/targetd_ss")

abbrev lines : List (List Text)
lines = line (codes "258") (codes "51aa") (codes "<FS_TREE>/targetd_fs/home") ∷ []

abbrev listing : List (List Text)
listing = first_line ∷ lines

abbrev lister : Host (Unit {0})
lister = record {
  run = λ _ w. (record { code = pos 0; out = join 10 (map (join b' ') listing); stderr = [] }, w);
  path_exists = λ _ _. true;
  statvfs = λ _ w. (ok (record { f_bavail = 1; f_blocks = 2; f_frsize = 4096 }), w);
  sleep = λ _ w. w;
  epoch = λ _. ok 0;
}

abbrev home_system : FileSystem
home_system = record {
  name = codes "home";
  uuid = codes "51aa";
  total_space = 8192;
  free_space = 4096;
  pool = codes "/p";
  full_path = codes "/p/targetd_fs/home";
}

home_listed :
    fs_hash lister (codes "/p" ∷ []) tt ≡ (ok ((codes "/p/targetd_fs/home", home_system) ∷ []), tt)
unfolding fs_hash targetd.Backends.Btrfs.Commands.invoke_retries split_stdout
    targetd.Prelude.Split.split join targetd.Backends.Btrfs.Commands.fs_space_values
    targetd.Utils.Items.item targetd.Prelude.starts_with targetd.Prelude.drop_text
    targetd.Prelude.Dict.insert targetd.Backends.Btrfs.Paths.path_join
home_listed = refl

home-IsHash : IsHash (codes "/p" ∷ []) ((codes "/p/targetd_fs/home", home_system) ∷ [])
home-IsHash = fs_hash-IsHash lister (codes "/p" ∷ []) _ tt tt home_listed

words-IsRow :
    (row : List Text)
    → more_than_one row ≡ true
    → any (has_code b' ') row ≡ false
    → any (has_code 10) row ≡ false
    → IsRow row
words-IsRow row long words lines =
    (long, any-All (has_code b' ') row words, any-All (has_code 10) row lines)

listing-IsRow : All IsRow listing
listing-IsRow = (
  words-IsRow first_line refl refl refl,
  (
    words-IsRow (line (codes "258") (codes "51aa") (codes "<FS_TREE>/targetd_fs/home")) refl refl
        refl,
    tt,
  ),
)

-- The words of a line, of which the last has the mark.
abbrev marked : Text → Text → Text → List (Bool × Text)
marked id uuid path =
    map (λ w. (false, w))
      (codes "ID"
        ∷ id
        ∷ codes "gen"
        ∷ codes "8"
        ∷ codes "top"
        ∷ codes "level"
        ∷ codes "5"
        ∷ codes "uuid"
        ∷ uuid
        ∷ codes "path"
        ∷ [])
    ++ (true, path) ∷ []

abbrev first_marked : List (Bool × Text)
first_marked = marked (codes "257") (codes "4f7e") (codes "targetd_ss")

abbrev second_marked : List (Bool × Text)
second_marked = marked (codes "258") (codes "51aa") (codes "targetd_fs/home")

marked-IsUnmarked :
    (row : List (Bool × Text))
    → any (λ p. starts_with p.1 (codes "<FS_TREE>/")) row ≡ false
    → All IsUnmarked row
marked-IsUnmarked row h = any-All (λ p. starts_with p.1 (codes "<FS_TREE>/")) row h

listing_read :
    split_stdout (join 10 (map (join b' ') listing))
    ≡ line (codes "257") (codes "4f7e") (codes "targetd_ss")
      ∷ line (codes "258") (codes "51aa") (codes "targetd_fs/home")
      ∷ []
unfolding starts_with
listing_read =
    split_stdout-words first_marked (second_marked ∷ []) listing-IsRow
      ((marked-IsUnmarked first_marked refl, (marked-IsUnmarked second_marked refl, tt)))
