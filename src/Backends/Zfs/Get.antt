-- ===== src/Backends/Zfs/Get.antt =====
-- `_zfs_get` of targetd/backends/zfs.py: properties of datasets, parsed from the output of
-- `zfs get`.
use targetd.Prelude.{
  ℕ, Bool, Text, codes, strip, parse_nat, none, some, List, [], ◌∷◌, if◌then◌else◌,
}
use targetd.Prelude.Split.{split, join}
use targetd.Prelude.Dict.{Dict, lookup, insert}
use targetd.Utils.Errors.{Result, ok, err, value_error, key_error, index_error, ◌>>=◌}
use targetd.Utils.Exec.{Exec}
use targetd.Backends.Zfs.Command.{Machine, unpacked_exec}

abbrev pub Properties : Type 0
Properties = Dict (Dict Text)

-- `result[dataset][property] = value`, with a new entry for a new dataset.
unfoldable pub put : Text → Text → Text → Properties → Properties
put dataset property value result = elim (lookup dataset result) [
  | some props ↦ insert dataset (insert property value props) result
  | none ↦ insert dataset ((property, value) ∷ []) result
]

-- One line of the output: a line of one field is passed over, and one of two has no value.
unfoldable pub parse_fields : List Text → Properties → Result Properties
unfolding put
parse_fields (dataset ∷ property ∷ value ∷ _) result =
    ok (put dataset property (strip value) result)
parse_fields (dataset ∷ property ∷ []) result = err index_error
parse_fields (_ ∷ []) result = ok result
parse_fields [] result = ok result

unfoldable pub parse_lines : List Text → Properties → Result Properties
unfolding parse_fields
parse_lines [] result = ok result
parse_lines (line ∷ lines) result =
    parse_fields (split 9 (strip line)) result >>= λ result'. parse_lines lines result'

-- `props[name]`
unfoldable pub property : Text → Dict Text → Result Text
property name props = elim (lookup name props) [ some v ↦ ok v | none ↦ err key_error ]

-- `int(props[name])`
unfoldable pub number : Text → Dict Text → Result ℕ
unfolding property
number name props =
    property name props >>= λ v. elim (parse_nat v) [ some n ↦ ok n | none ↦ err value_error ]

abbrev pub get_args : List Text → List Text → Bool → Text → List Text
get_args datasets properties recursive fstype =
    codes "get"
    ∷ (if recursive then codes "-Hpr" else codes "-Hp")
    ∷ codes "-t"
    ∷ fstype
    ∷ join b',' properties
    ∷ datasets

module _ {W : Type 0} (m : Machine W) where
  -- The return code is not looked at: an unknown dataset gives no line.
  unfoldable pub zfs_get : Text → List Text → List Text → Bool → Text → Exec W Properties
  unfolding parse_lines
  zfs_get zfs_cmd datasets properties recursive fstype w =
      let (result, w') =
        unpacked_exec m zfs_cmd (get_args datasets properties recursive fstype) w in
      (result >>= λ p. parse_lines (split 10 (strip p.out)) [], w')
