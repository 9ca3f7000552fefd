-- ===== src/Main/Daemon.antt =====
-- The dict `mapping` of targetd/main.py behind `update_mapping`.
pub mod Laws
pub mod Destroy
use targetd.Prelude.{Bool, true, false, not, ◌||◌, Text, codes, Option, none, some, [], ◌∷◌}
use targetd.Prelude.Dict.{Dict, lookup, insert, update}
use targetd.Utils.Errors.{ok, err}
use targetd.Utils.Exec.{Exec}
use targetd.Block.Parts.{Parts}
use targetd.Block.Methods
use targetd.Fs.Methods.{FsParts}
use targetd.Fs.Methods as FsMethods
use targetd.Main.Rpc.{Value, text, Rpc, arguments}
use targetd.Main.Methods.{Answer, pool_infos, Method, is_some, fits, answers}
use targetd.Main.Start.{pool_list}

module _ {K W Storage Lun : Type 0} (p : Parts W Storage Lun) (q : FsParts K W) where
  abbrev pub pool_list_method : Method K W
  pool_list_method = record {
    required = [];
    optional = [];
    body = λ _. answers pool_infos (pool_list p.pool_modules q.pool_modules);
  }

  -- `mapping.update(...)` twice, and `mapping["pool_list"] = pool_list`
  unfoldable pub mapping : Dict (Method K W)
  mapping =
      insert (codes "pool_list") pool_list_method
        (update (update [] (Methods.mapping p)) (FsMethods.mapping q))

-- Whether the arguments of a call that Python accepts are of the types that the function is written
-- for.
unfoldable pub is_typed : {K W : Type 0} → Dict (Method K W) → Rpc (Value K) → Bool
is_typed methods rpc = elim rpc.method [
  | text name ↦ elim (lookup name methods) [
    | some m ↦ elim (arguments rpc.params) [
      | ok kwargs ↦ not (fits m kwargs) || is_some (m.body kwargs)
      | err _ ↦ true
    ]
    | none ↦ true
  ]
  | _ ↦ true
]
