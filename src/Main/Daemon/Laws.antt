-- ===== src/Main/Daemon/Laws.antt =====
-- What every request to targetd/main.py keeps.
use targetd.Prelude.{
  map, ◌≡◌, refl, ◌∙◌, some, sym, subst, true, false, ℕ, not, ◌||◌, Text, Option-cases, inl, inr,
  List, codes, [], ◌∷◌,
}
use targetd.Prelude.Dict.{Dict, lookup}
use targetd.Utils.Errors.{ℤ, ok, Result-cases}
use targetd.Utils.Exec.{Exec, pure}
use targetd.Utils.Part.{Part, on_part}
use targetd.Backends.Zfs.Names.{Zfs}
use targetd.Backends.Zfs.Command as Command
use targetd.Backends.Lvm.Volumes.{BlockDev}
use targetd.Backends.Btrfs.Commands.{Host}
use targetd.Nfs.Exportfs as Exportfs
use targetd.Block.Setup.{Modules}
use targetd.Block.Setup as BlockSetup
use targetd.Fs.Setup as FsSetup
use targetd.Block.Frame.Part.{block_on, block_on-AllModules}
use targetd.Fs.Frame.Part.{fs_on, nfs_on, fs_on-AllFsModules, nfs_on-Shrinks}
use targetd.Utils.Keeps.{Keeps, keeps_rules}
use targetd.Block.AccessGroups.Laws.{Groups, IsPartition}
use targetd.Block.Parts.{Parts}
use targetd.Block.Frame.{RtslibShrinks}
use targetd.Block.Frame.Modules.{AllModules}
use targetd.Block.Frame.Volumes.{block_pools-Keeps}
use targetd.Block.Frame.Methods as BlockFrame
use targetd.Fs.Methods.{FsParts}
use targetd.Fs.Frame.{AllFsModules, NfsShrinks}
use targetd.Fs.Frame.Systems.{fs_pools-Keeps}
use targetd.Fs.Frame.Methods as FsFrame
use targetd.Main.Rpc.{
  Value, null, truth, number, text, array, object, Rpc, arguments, find_method, call,
}
use targetd.Main.Methods.{Answer, Method, fits, is_some, callable}
use targetd.Main.Methods.Laws.{
  AllKeep, act_rules, insert-AllKeep, update-AllKeep, callee, call_method-Keeps,
}
use targetd.Main.Daemon.{pool_list_method, mapping, is_typed}
use targetd.Main.Mutex.{Work, run, Threads, Reach, serial}
use targetd.Main.Mutex.Laws.{Reach-serial}
use targetd.Main.Start.{pool_list}

-- Every request that has taken the mutex has arguments of the types that its method works on.
abbrev pub AllTyped : {K W : Type 0} → Dict (Method K W) → List (ℕ × Rpc (Value K)) → Type 0
AllTyped methods [] = Unit {0}
AllTyped methods ((_, rpc) ∷ order) = (is_typed methods rpc ≡ true) × AllTyped methods order

module _ {K W : Type 0} (P : W → Type 0) (methods : Dict (Method K W))
    (other : Text → Dict (Value K) → Exec W Answer) (all : AllKeep P methods) where
  typed_call :
      (name : Text) (params : Value (Value K)) (id : ℤ) (m : Method K W) (d : Dict (Value K))
      → lookup name methods ≡ some m
      → arguments params ≡ ok d
      → is_typed methods (record { method = text name; id_num = id; params = params })
        ≡ (not (fits m d) || is_some (m.body d))
  unfolding is_typed
  typed_call name params id m d found good = rw (found, good, is_typed) refl

  -- A call by a name, with the arguments that the request has.
  named-Keeps :
      (name : Text) (params : Value (Value K)) (id : ℤ)
      → is_typed methods (record { method = text name; id_num = id; params = params }) ≡ true
      → Keeps P (
          call
            (callable other methods)
            (record { method = text name; id_num = id; params = params }))
  unfolding call find_method is_typed
  named-Keeps name params id typed = record {
    keeps = λ w h. elim (Option-cases (lookup name (callable other methods))) [
      | inl missing ↦ rw (missing, call, find_method) h
      | inr (f, there) ↦ elim (Result-cases (arguments params)) [
        | inl (e, bad) ↦ rw (there, bad, call, find_method) h
        | inr (d, good) ↦
            let c = callee P other methods name f all there in
            rw (there, good, call, find_method)
              (subst (λ g. P (g d w).1) (sym c.called)
                ((call_method-Keeps P c.method (other c.key) d (c.acts d)
                    (sym (typed_call name params id c.method d c.found good) ∙ typed)).keeps
                  w h))
      ]
    ];
  }

  pub call-Keeps :
      (rpc : Rpc (Value K))
      → is_typed methods rpc ≡ true
      → Keeps P (call (callable other methods) rpc)
  unfolding call find_method
  call-Keeps rpc typed = of_method rpc.method rpc.params rpc.id_num typed
    where
      of_method :
          (v : Value (Value K)) (params : Value (Value K)) (id : ℤ)
          → is_typed methods (record { method = v; id_num = id; params = params }) ≡ true
          → Keeps P
              (call (callable other methods) (record { method = v; id_num = id; params = params }))
      of_method (text name) params id typed = named-Keeps name params id typed
      of_method null params id typed = record { keeps = λ w h. h }
      of_method (truth _) params id typed = record { keeps = λ w h. h }
      of_method (number _) params id typed = record { keeps = λ w h. h }
      of_method (array _) params id typed = record { keeps = λ w h. h }
      of_method (object _) params id typed = record { keeps = λ w h. h }

  pub serial-Keeps :
      (order : List (ℕ × Rpc (Value K))) (w : W)
      → AllTyped methods order
      → P w
      → P (serial (callable other methods) order w)
  unfolding serial
  serial-Keeps [] w typed h = h
  serial-Keeps ((i, rpc) ∷ order) w (typed, rest) h =
      (call-Keeps rpc typed).keeps (serial (callable other methods) order w)
        (serial-Keeps order w rest h)

module _ {K W Storage Lun : Type 0} (p : Parts W Storage Lun) (q : FsParts K W)
    (laws : RtslibShrinks p p.target.node_acl_groups)
    (all : AllModules p.target.node_acl_groups p.pool_modules) (rules : Groups p.target)
    (fs_all : AllFsModules p.target.node_acl_groups q.pool_modules)
    (fs_laws : NfsShrinks p.target.node_acl_groups q.nfs q.chown_to) where
  abbrev OnePerGroup : W → Type 0
  OnePerGroup w = IsPartition (p.target.node_acl_groups w)

  pool_list-Keeps : Keeps OnePerGroup (pool_list p.pool_modules q.pool_modules)
  unfolding pool_list
  pool_list-Keeps = search (
    keeps_rules,
    block_pools-Keeps p.target.node_acl_groups p.pool_modules all,
    fs_pools-Keeps p.target.node_acl_groups q.pool_modules fs_all,
  )

  mapping-AllKeep : AllKeep OnePerGroup (mapping p q)
  unfolding mapping
  mapping-AllKeep =
      insert-AllKeep OnePerGroup (codes "pool_list") (pool_list_method p q) _
        (λ d. search (act_rules, pool_list-Keeps))
        (update-AllKeep OnePerGroup _ _
          (update-AllKeep OnePerGroup [] _ tt (BlockFrame.mapping-AllKeep p laws all rules K))
          (FsFrame.mapping-AllKeep q p.target.node_acl_groups fs_all fs_laws))

  kept :
      (other : Text → Dict (Value K) → Exec W Answer) (work : Rpc (Value K) → Work W Answer)
      (carries_out : (rpc : Rpc (Value K)) (w : W)
        → run (work rpc) w ≡ call (callable other (mapping p q)) rpc w)
      {w : W} {s : Threads (Value K) W Answer} {order : List (ℕ × Rpc (Value K))}
      → Reach work w s order
      → AllTyped (mapping p q) order
      → s.locked ≡ false
      → IsPartition (p.target.node_acl_groups w)
      → IsPartition (p.target.node_acl_groups s.machine)
  kept other work carries_out {w} {s} {order} reach typed free h =
      subst OnePerGroup
        (sym ((Reach-serial (callable other (mapping p q)) work carries_out reach).1 free))
        (serial-Keeps OnePerGroup (mapping p q) other mapping-AllKeep order w typed h)

-- The daemon with the program's own back ends, over a part `V` of the machine: the zfs program, the
-- btrfs program, libblockdev, exportfs and `chown`. All else is as in `p` and `q`.
module _ {K V W Storage Lun : Type 0} (x : Part V W) (zfs_machine : Command.Machine V)
    (bd : BlockDev V) (host : Host V) (nfs : Exportfs.Machine V)
    (chown_to : Text → ℤ → ℤ → Exec V (Unit {0})) (estimate : ℕ → ℤ → ℤ → ℤ) (modules : Modules)
    (fs_modules : Zfs × List Text) (p : Parts W Storage Lun) (q : FsParts K W) where
  abbrev pub own_parts : Parts W Storage Lun
  own_parts = record p {
    pool_modules = map (block_on x) (BlockSetup.pool_modules zfs_machine bd estimate modules);
  }

  abbrev pub own_fs_parts : FsParts K W
  own_fs_parts = record q {
    pool_modules = map (fs_on x) (FsSetup.pool_modules zfs_machine host (pure []) fs_modules);
    nfs = nfs_on x nfs;
    chown_to = λ path uid gid. on_part x (chown_to path uid gid);
  }

  -- With the program's own back ends lvm, zfs and btrfs, whatever the programs and libraries do that
  -- they call, as long as those change only a part of the machine without the access groups, and
  -- over an rtslib by whose calls no initiator comes into a further group, but by the one that adds
  -- it: if every request is carried out in the steps of its `work`, in whatever way the threads that
  -- serve requests are interleaved, whenever none of them holds the mutex, every initiator is in at
  -- most one access group, if it was so at the start, and if the requests that took the mutex had
  -- arguments of the types that the methods are written for.
  pub Reach-IsPartition :
      (apart : (v : V) (w : W) → p.target.node_acl_groups (x.put v w) ≡ p.target.node_acl_groups w)
      (laws : RtslibShrinks own_parts p.target.node_acl_groups) (rules : Groups p.target)
      (other : Text → Dict (Value K) → Exec W Answer) (work : Rpc (Value K) → Work W Answer)
      (carries_out : (rpc : Rpc (Value K)) (w : W)
        → run (work rpc) w ≡ call (callable other (mapping own_parts own_fs_parts)) rpc w)
      {w : W} {s : Threads (Value K) W Answer} {order : List (ℕ × Rpc (Value K))}
      → Reach work w s order
      → AllTyped (mapping own_parts own_fs_parts) order
      → s.locked ≡ false
      → IsPartition (p.target.node_acl_groups w)
      → IsPartition (p.target.node_acl_groups s.machine)
  Reach-IsPartition apart laws rules =
      let groups = p.target.node_acl_groups in
      kept own_parts own_fs_parts laws
        (block_on-AllModules x groups apart
          (BlockSetup.pool_modules zfs_machine bd estimate modules))
        rules
        (fs_on-AllFsModules x groups apart
          (FsSetup.pool_modules zfs_machine host (pure []) fs_modules))
        (nfs_on-Shrinks x groups apart nfs chown_to)
