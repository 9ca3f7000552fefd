-- ===== src/Nfs/Flags.antt =====
-- The option bits of class `Export` in targetd/nfs.py, their names and their conflicts.
use targetd.Prelude.{ℕ, List, [], ◌∷◌, Text, codes, bit_or, bit_and, any, ◌==◌, Bool}
use targetd.Prelude.Dict.{Dict}

abbrev pub secure : ℕ
secure = 0x00000001

abbrev pub read_write : ℕ
read_write = 0x00000002

abbrev pub read_only : ℕ
read_only = 0x00000004

abbrev pub sync : ℕ
sync = 0x00000008

abbrev pub async : ℕ
async = 0x00000010

abbrev pub no_wdelay : ℕ
no_wdelay = 0x00000020

abbrev pub nohide : ℕ
nohide = 0x00000040

abbrev pub crossmnt : ℕ
crossmnt = 0x00000080

abbrev pub no_subtree_check : ℕ
no_subtree_check = 0x00000100

abbrev pub insecure_locks : ℕ
insecure_locks = 0x00000200

abbrev pub root_squash : ℕ
root_squash = 0x00000400

abbrev pub no_root_squash : ℕ
no_root_squash = 0x00000800

abbrev pub all_squash : ℕ
all_squash = 0x00001000

abbrev pub wdelay : ℕ
wdelay = 0x00002000

abbrev pub hide : ℕ
hide = 0x00004000

abbrev pub insecure : ℕ
insecure = 0x00008000

abbrev pub no_all_squash : ℕ
no_all_squash = 0x00010000

-- The masks of `_conflicting`.
abbrev pub conflicting : List ℕ
conflicting =
    bit_or read_write read_only
    ∷ bit_or insecure secure
    ∷ bit_or sync async
    ∷ bit_or hide nohide
    ∷ bit_or wdelay no_wdelay
    ∷ bit_or root_squash no_root_squash
    ∷ []

abbrev pub bool_option : Dict ℕ
bool_option =
    (codes "secure", secure)
    ∷ (codes "rw", read_write)
    ∷ (codes "ro", read_only)
    ∷ (codes "sync", sync)
    ∷ (codes "async", async)
    ∷ (codes "no_wdelay", no_wdelay)
    ∷ (codes "nohide", nohide)
    ∷ (codes "crossmnt", crossmnt)
    ∷ (codes "no_subtree_check", no_subtree_check)
    ∷ (codes "insecure_locks", insecure_locks)
    ∷ (codes "root_squash", root_squash)
    ∷ (codes "all_squash", all_squash)
    ∷ (codes "wdelay", wdelay)
    ∷ (codes "hide", hide)
    ∷ (codes "insecure", insecure)
    ∷ (codes "no_root_squash", no_root_squash)
    ∷ (codes "no_all_squash", no_all_squash)
    ∷ []

-- The keys of `key_pair`; the types that stand with them are read nowhere.
abbrev pub key_pair : List Text
key_pair =
    codes "mountpoint"
    ∷ codes "mp"
    ∷ codes "fsid"
    ∷ codes "refer"
    ∷ codes "replicas"
    ∷ codes "anonuid"
    ∷ codes "anongid"
    ∷ codes "sec"
    ∷ []

-- `options & mask == mask` for a mask of the table.
unfoldable pub has_conflict : ℕ → Bool
has_conflict options = any (λ mask. bit_and options mask == mask) conflicting
