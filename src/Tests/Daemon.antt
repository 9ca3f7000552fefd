-- ===== src/Tests/Daemon.antt =====
-- A request to the whole of targetd/main.py.
use targetd.Tests.Parts.{
  rtslib-Shrinks, no_part, zfs_machine, bd, host, exportfs, modules, own, own_fs, parts, fs_parts,
}
use targetd.Prelude.{
  ◌≡◌, refl, arith, true, false, ℕ, Bool, Text, codes, Option, some, none, List, [], ◌∷◌,
}
use targetd.Prelude.Dict.{Dict}
use targetd.Utils.Errors.{ok, err, pos, other_error}
use targetd.Utils.Exec.{Exec}
use targetd.Block.AccessGroups.{Group}
use targetd.Block.AccessGroups.Laws.{IsPartition}
use targetd.Main.Rpc.{Value, text, object, Rpc, call}
use targetd.Main.Methods.{Answer, callable}
use targetd.Main.Daemon.{mapping, is_typed}
use targetd.Main.Daemon.Laws.{Reach-IsPartition}
use targetd.Main.Mutex.{
  Work, ended, change, run, idle, waiting, inside, released, Threads, set, receives, acquires,
  works, releases, Reach, start, next,
}
use targetd.Tests.Groups.{target-Groups, groups, groups-IsPartition}

-- What arguments of other types come to, and a method that is carried out at once.
abbrev pub other : Text → Dict (Value (Unit {0})) → Exec (List Group) Answer
other _ _ = λ gs. (err other_error, gs)

abbrev at_once : Rpc (Value (Unit {0})) → Exec (List Group) Answer
at_once rpc = call (callable other (mapping own own_fs)) rpc

abbrev work : Rpc (Value (Unit {0})) → Work (List Group) Answer
work rpc = change (λ gs. (at_once rpc gs).1) (λ gs. ended (at_once rpc gs).0)

work_carries_out :
    (rpc : Rpc (Value (Unit {0}))) (gs : List Group) → run (work rpc) gs ≡ at_once rpc gs
unfolding run
work_carries_out rpc gs = refl

abbrev request : Rpc (Value (Unit {0}))
request = record {
  method = text (codes "access_group_create");
  id_num = pos 1;
  params = object (
      (codes "ag_name", text (codes "h"))
      ∷ (codes "init_id", text (codes "k"))
      ∷ (codes "init_type", text (codes "iscsi"))
      ∷ []);
}

abbrev s0 : Threads (Value (Unit {0})) (List Group) Answer
s0 = record { machine = groups; locked = false; phase = λ _. idle }

abbrev s1 : Threads (Value (Unit {0})) (List Group) Answer
s1 = record s0 { phase = set 1 (waiting request) s0.phase }

abbrev s2 : Threads (Value (Unit {0})) (List Group) Answer
s2 = record s1 { locked = true; phase = set 1 (inside (work request)) s1.phase }

abbrev s3 : Threads (Value (Unit {0})) (List Group) Answer
s3 = record s2 {
  machine = (at_once request groups).1;
  phase = set 1 (inside (ended (at_once request groups).0)) s2.phase;
}

abbrev s4 : Threads (Value (Unit {0})) (List Group) Answer
s4 = record s3 { locked = false; phase = set 1 (released (at_once request groups).0) s3.phase }

s4-Reach : Reach work groups s4 ((1, request) ∷ [])
unfolding set
s4-Reach =
    next
      (next (next (next start (receives s0 1 request refl)) (acquires s1 1 request refl refl))
        (works s2 1 (λ gs. (at_once request gs).1) (λ gs. ended (at_once request gs).0) refl))
      (releases s3 1 (at_once request groups).0 refl)

-- The request adds a group.
group_added :
    (at_once request groups).1 ≡ record { name = codes "h"; wwns = codes "k" ∷ [] } ∷ groups
unfolding call targetd.Prelude.Dict.lookup callable mapping targetd.Prelude.Dict.insert
    targetd.Prelude.Dict.update targetd.Prelude.text_eq targetd.Main.Methods.text_arg
    targetd.Block.AccessGroups.access_group_create targetd.Utils.Names.name_check
group_added = refl

daemon_keeps_groups : IsPartition s4.machine
unfolding is_typed targetd.Prelude.Dict.lookup mapping targetd.Prelude.Dict.insert
    targetd.Prelude.Dict.update targetd.Prelude.text_eq targetd.Main.Rpc.arguments
    targetd.Main.Methods.text_arg
daemon_keeps_groups =
    Reach-IsPartition no_part zfs_machine bd host exportfs (λ _ _ _ v. (ok tt, v)) (λ _ _ _. pos 0)
      modules (modules.0, codes "/mnt" ∷ []) parts fs_parts (λ _ _. refl) rtslib-Shrinks
      target-Groups other work work_carries_out s4-Reach (refl, tt) refl groups-IsPartition
