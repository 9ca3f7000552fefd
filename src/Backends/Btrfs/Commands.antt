-- ===== src/Backends/Btrfs/Commands.antt =====
-- The runs of the btrfs program of targetd/backends/btrfs.py, and the pools.
use targetd.Prelude.{
  ℕ, zero, suc, ◌*◌, none, Bool, true, false, ◌==◌, Text, codes, member, List, [], ◌∷◌,
  if◌then◌else◌,
}
use targetd.Utils.Errors.{ℤ, pos, negsuc, Result, targetd_error, unexpected_exit_code}
use targetd.Utils.Exec.{Exec, pure, raise, ◌>>=◌, ◌>>◌, modify, skip}
use targetd.Utils.Invoke.{Process, invoke}
use targetd.Backends.Interface.{PoolInfo}
use targetd.Backends.Btrfs.Paths.{fs_path, ss_path, fs_cmd, path_join}

-- What `os.statvfs` returns: the fields that are read.
pub record Statvfs : Type 0 where
  pub f_bavail : ℕ
  pub f_blocks : ℕ
  pub f_frsize : ℕ

-- The machine: the start of a program, `os.path.exists`, `os.statvfs` and `time.sleep`, and the
-- seconds since the epoch of a local time that `time.strptime` and `time.mktime` give.
pub record Host (W : Type 0) : Type 0 where
  pub run : List Text → W → Process × W
  pub path_exists : Text → W → Bool
  pub statvfs : Text → Exec W Statvfs
  pub sleep : ℕ → W → W
  pub epoch : Text → Result ℕ

abbrev pub is_code : ℕ → ℤ → Bool
is_code n c = elim c [ pos m ↦ m == n | negsuc _ ↦ false ]

module _ {W : Type 0} (h : Host W) where
  unfoldable pub create_sub_volume : Text → Exec W (Unit {0})
  unfolding invoke
  create_sub_volume p w =
      if h.path_exists p w
      then skip w
      else (invoke h.run (fs_cmd ∷ codes "subvolume" ∷ codes "create" ∷ p ∷ []) true >> skip) w

  unfoldable pub fs_subvolume_delete : Text → Exec W (Unit {0})
  unfolding invoke
  fs_subvolume_delete path =
      invoke h.run (fs_cmd ∷ codes "subvolume" ∷ codes "delete" ∷ path ∷ []) true >> skip

  -- The loop of `fs_initialize`; the module's variable `pools` are the mount points.
  unfoldable pub create_all : List Text → Exec W (Unit {0})
  unfolding create_sub_volume
  create_all [] = skip
  create_all (pool ∷ pools) = do
    create_sub_volume (path_join pool fs_path)
    create_sub_volume (path_join pool ss_path)
    create_all pools

  unfoldable pub fs_initialize : List Text → Exec W (List Text)
  unfolding create_all
  fs_initialize mounts = do create_all mounts; pure mounts

  -- The total and the free bytes.
  unfoldable pub fs_space_values : Text → Exec W (ℕ × ℕ)
  fs_space_values mount_point = do
    st ← h.statvfs mount_point
    pure (st.f_blocks * st.f_frsize, st.f_bavail * st.f_frsize)

  -- The loop of `fs_pools`.
  unfoldable pub pool_sizes : List Text → Exec W (List PoolInfo)
  unfolding fs_space_values
  pool_sizes [] = pure []
  pool_sizes (pool ∷ pools) = do
    (total, free) ← fs_space_values pool
    rest ← pool_sizes pools
    pure (record { name = pool; size = total; free_size = free; uuid = none } ∷ rest)

  -- The loop of `_invoke_retries`, over the attempts that are left.
  unfoldable pub attempts : ℕ → List Text → Exec W Process
  unfolding invoke
  attempts zero command = raise (targetd_error unexpected_exit_code)
  attempts (suc n) command =
      let again = modify (h.sleep 1) >> attempts n command in
      invoke h.run command false >>= λ p.
      if is_code 0 p.code
      then pure p
      else if is_code 19 p.code
      then again
      else raise (targetd_error unexpected_exit_code)

  unfoldable pub invoke_retries : List Text → Exec W Process
  unfolding attempts
  invoke_retries = attempts 5

unfoldable pub has_fs_pool : List Text → Text → Bool
has_fs_pool pools pool_name = member pool_name pools
