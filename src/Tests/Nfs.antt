-- ===== src/Tests/Nfs.antt =====
-- The theorems on targetd/nfs.py at concrete exports.
use targetd.Prelude.{
  ◌^◌, ◌+◌, ◌≡◌, refl, ◌==◌, Text, codes, text_eq, some, List, [], ◌∷◌, ◌++◌, All, arith,
}
use targetd.Prelude.Bits.{and_not}
use targetd.Prelude.Split.{split, join}
use targetd.Prelude.Dict.{lookup, insert, update}
use targetd.Utils.Errors.{pos, ok}
use targetd.Nfs.Flags.{has_conflict}
use targetd.Nfs.Export.{
  Export, parse_opt, parse_option_string, parse_export, parse_hosts, init, parse_host, new_export,
  same_export, export_file_format,
}
use targetd.Nfs.Export.Merge.{Merges, parse_opt-Merges}
use targetd.Nfs.Export.RoundTrip.{IsPrintable, host_word, parse_export-host_word}
use targetd.Nfs.Export.Valid.{IsValid, parse_export-IsValid, with_group, parse_hosts_inherit}
use targetd.Nfs.Octal.{chr_encode}
use targetd.Nfs.Octal.Laws.{escape, IsPlain, chr_encode-escape}
use targetd.Nfs.Exportfs.{Machine, exports, parse_exports_file, save_exports}
use targetd.Nfs.Exportfs.Laws.{lines_of, save_exports-file}

-- `/srv/data` for the host `a`, with `rw,sync,fsid=0`.
abbrev shared : Export
shared = record {
  host = codes "a";
  path = codes "/srv/data";
  options = 10;
  key_value_options = (codes "fsid", codes "0") ∷ [];
}

ro_rw-Merges : Merges (codes "ro,sync") (codes "rw,fsid=0") 10 ((codes "fsid", codes "0") ∷ [])
unfolding parse_opt split insert update lookup text_eq and_not parse_option_string
ro_rw-Merges =
    parse_opt-Merges (codes "ro,sync") (codes "rw,fsid=0") 10 ((codes "fsid", codes "0") ∷ []) refl

shared-IsPrintable : IsPrintable shared
unfolding has_conflict lookup text_eq
shared-IsPrintable = record {
  named = omega arith;
  consistent = refl;
  valid_keys = refl;
  nodup = (refl, tt);
  plain = (((refl, refl), (refl, refl), (refl, refl)), tt);
  host_plain = refl;
  host_starts = (b'a', [], refl, refl);
  host_not_world = refl;
}

shared_line_read : parse_export (shared.path ∷ host_word shared ∷ []) ≡ some (shared ∷ [])
shared_line_read = parse_export-host_word shared shared-IsPrintable

shared-IsValid : All (IsValid (codes "/srv/data")) (shared ∷ [])
unfolding parse_export init split insert update lookup text_eq and_not parse_host parse_opt
    parse_option_string new_export
shared-IsValid =
    parse_export-IsValid (codes "/srv/data") (codes "a(rw,sync,fsid=0)" ∷ []) (shared ∷ []) refl

inherited_rw :
    parse_hosts
      (codes "/srv")
      (with_group (codes "a") (codes "rw") ∷ codes "b" ∷ [])
      (codes "sync")
      []
    ≡ parse_hosts
        (codes "/srv")
        (with_group (codes "a") (codes "rw") ∷ with_group (codes "b") (codes "rw") ∷ [])
        (codes "sync")
        []
inherited_rw =
    parse_hosts_inherit (codes "/srv") (codes "sync") b'a' b'b' [] [] (codes "rw") [] [] refl refl
      refl refl refl refl

-- Both options are kept, and accepted.
both_squash :
    parse_opt (codes "all_squash") (some (codes "no_all_squash")) ≡ ok (2 ^ 12 + 2 ^ 16, [])
unfolding parse_opt parse_option_string split lookup text_eq update
both_squash = refl

-- A machine whose state is the file of targetd. The user's own file has the export to `b`, and
-- exportfs lists that one and the one to `a`.
abbrev machine : Machine Text
machine = record {
  run = λ _ file. (record { code = pos 0; out = []; stderr = [] }, file);
  matches = λ _.
      record { path = codes "/srv"; host = codes "b"; options = codes "ro" }
      ∷ record { path = codes "/srv"; host = codes "a"; options = codes "rw" }
      ∷ [];
  main_lines = λ file. (ok (codes "/srv b(ro)" ∷ []), file);
  shlex = λ line. ok (split b' ' line);
  remove_config = λ file. (ok tt, []);
  create_config = λ file. (ok tt, []);
  write_config = λ t file. (ok tt, file ++ t);
}

abbrev listed : List Export
listed =
    record { host = codes "b"; path = codes "/srv"; options = 4; key_value_options = [] }
    ∷ record { host = codes "a"; path = codes "/srv"; options = 2; key_value_options = [] }
    ∷ []

abbrev users : List Export
users = record { host = codes "b"; path = codes "/srv"; options = 4; key_value_options = [] } ∷ []

saved_file :
    ((save_exports machine (codes "old")).0 ≡ ok tt)
    × ((save_exports machine (codes "old")).1 ≡ lines_of users listed)
unfolding parse_exports_file parse_export split chr_encode parse_host init parse_opt
    parse_option_string lookup text_eq new_export and_not update exports
saved_file =
    save_exports-file machine (λ file. file) (λ t file. refl) (λ t file. refl) users listed
      (codes "old") [] [] [] [] refl refl refl refl refl

-- That is the line of the export to `a` alone.
saved_line : lines_of users listed ≡ codes "/srv a(rw)\n"
unfolding same_export text_eq export_file_format join
saved_line = refl

octal-IsPlain : IsPlain (λ c. c == 32) (codes "/my dir")
octal-IsPlain = ground arith

octal_read : chr_encode (escape (λ c. c == 32) (codes "/my dir")) ≡ codes "/my dir"
octal_read = chr_encode-escape (λ c. c == 32) (codes "/my dir") octal-IsPlain

-- An encoded backslash that digits follow is decoded twice.
backslash_decoded_twice : chr_encode (codes "\\134040\\040") ≡ codes "  "
unfolding chr_encode
backslash_decoded_twice = refl
