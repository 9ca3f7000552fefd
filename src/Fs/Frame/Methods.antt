-- ===== src/Fs/Frame/Methods.antt =====
-- The functions in the dict of targetd/fs.py put no initiator into a second access group.
use targetd.Prelude.{List}
use targetd.Utils.Keeps.{keeps_rules}
use targetd.Block.AccessGroups.{Group}
use targetd.Block.AccessGroups.Laws.{IsPartition}
use targetd.Block.Frame.{KeepsGroups}
use targetd.Fs.Frame.{AllFsModules, NfsShrinks}
use targetd.Fs.Frame.Systems.{
  fs-Keeps, fs_create-Keeps, fs_snapshot-Keeps, ss-Keeps, fs_snapshot_delete-Keeps,
  fs_destroy-Keeps, fs_clone-Keeps,
}
use targetd.Fs.Frame.Exports.{nfs_export_list-Keeps, nfs_export_add-Keeps, nfs_export_remove-Keeps}
use targetd.Fs.Exports.{nfs_export_auth_list}
use targetd.Fs.Methods.{FsParts, mapping}
use targetd.Main.Methods.Laws.{AllKeep, act_rules}

module _ {K W : Type 0} (p : FsParts K W) (groups : W → List Group)
    (all : AllFsModules groups p.pool_modules) (laws : NfsShrinks groups p.nfs p.chown_to) where
  auth_list-Keeps : KeepsGroups groups (nfs_export_auth_list {W = W})
  unfolding nfs_export_auth_list
  auth_list-Keeps = search keeps_rules

  pub mapping-AllKeep : AllKeep (λ w. IsPartition (groups w)) (mapping p)
  mapping-AllKeep = (
    (λ d. search (act_rules, fs-Keeps groups p.pool_modules all) depth 12),
    (
      (λ d. search (act_rules, fs_destroy-Keeps groups p.pool_modules all) depth 12),
      (
        (λ d. search (act_rules, fs_create-Keeps groups p.pool_modules all) depth 12),
        (
          (λ d. search (act_rules, fs_clone-Keeps groups p.pool_modules all) depth 12),
          (
            (λ d. search (act_rules, ss-Keeps groups p.pool_modules all) depth 12),
            (
              (λ d. search (act_rules, fs_snapshot-Keeps groups p.pool_modules all) depth 12),
              (
                (λ d.
                    search (act_rules, fs_snapshot_delete-Keeps groups p.pool_modules all) depth
                      12),
                (
                  (λ d. search (act_rules, auth_list-Keeps) depth 12),
                  (
                    (λ d.
                        search (act_rules, nfs_export_list-Keeps groups p.nfs p.chown_to laws) depth
                          12),
                    (
                      (λ d.
                          search
                            (
                              act_rules,
                              nfs_export_add-Keeps groups p.nfs p.chown_to laws p.allow_chown,
                            )
                            depth 12),
                      (
                        (λ d.
                            search (act_rules, nfs_export_remove-Keeps groups p.nfs p.chown_to laws)
                              depth 12),
                        tt,
                      ),
                    ),
                  ),
                ),
              ),
            ),
          ),
        ),
      ),
    ),
  )
