-- ===== src/Lib.antt =====
-- targetd, a daemon that manages LVM and zfs volumes, their export over iSCSI, file systems and
-- NFS exports by JSON-RPC requests.
--
-- A request comes to `do_POST` of targetd/main.py, which authenticates it and calls a method of
-- targetd/block.py or targetd/fs.py. These find the back end of the pool, one of lvm.py, zfs.py
-- and btrfs.py of targetd/backends, or call targetd/nfs.py. targetd/utils.py has the errors, the
-- start of programs, and the tar pit for failed log-ins.
--
-- Each module is modelled in the file or folder of its name:
--   Prelude: texts as lists of character codes, `split` and `join`, dicts, bits of numbers, the
--     first element with a property.
--   Utils: targetd/utils.py. Errors has `TargetdError` and the exceptions of Python; Exec is code
--     over a state that may raise, with Keeps for what code leaves alone and Part for code over a
--     part of the machine; Invoke, Names and Tarpit are `invoke`, `name_check`, `Tar` and `Pit`;
--     Numbers is `int` of a text, Items is `e[n]`.
--   Nfs: targetd/nfs.py. Flags and Export are the class `Export`, with `_parse_opt` as
--     `parse_option_string` and `_override` as `override`; Octal is `_chr_encode`; Listing has the
--     loops of `parse_exports_file` and `parse_exportfs_output`, Exportfs the class `Nfs`.
--   Backends: Interface is what block.py and fs.py call of a back end; Lvm, Zfs and Btrfs are
--     targetd/backends/lvm.py, zfs.py and btrfs.py, with the variables of a module as a record or
--     a list, and with `_copy` of zfs.py as `copy_with`. Btrfs.Store is an abstract view of its
--     file systems and snapshots, and the manual of the btrfs program (`IsBtrfs`).
--   Block: targetd/block.py. Volumes has the volume operations, AccessGroups the initiators and
--     groups, Mappings `access_group_map_*` and `_tpg_lun_of`, Exports `export_*` and
--     `initiator_set_auth`, Setup `initialize`; Methods is the dict of methods that it returns,
--     with the arguments of requests; Frame says what each method leaves alone.
--   Fs: targetd/fs.py. Systems has the file systems and snapshots, Exports the NFS requests, Setup
--     `initialize` with targetd/mount.py; Methods and Frame as in Block.
--   Main: targetd/main.py. Rpc is `do_POST`, Mutex the threads that run it at once; Methods is the
--     call of a method by keyword arguments, Daemon `update_mapping`; Config is `load_config`,
--     Start is `main` with the check of the TLS files.
--   Client: `jsonrequest` of client, the program that sends requests.
--   Tests: the theorems at concrete inputs.
--
-- A function keeps its name, without a leading underscore; its helpers by clauses are the loops
-- and comprehensions of its body. Code that changes the machine is a function from the machine `W`
-- to a result and the machine that is left, also behind an exception. What is not of this
-- repository is a parameter: libblockdev (`BlockDev`), the zfs program and the clock (`Machine`),
-- the btrfs program with `os` and `time` (`Host`), rtslib (`Target`, `Rtslib`, `NodeAcls`, and the
-- names of the exported storage objects in `destroy`), exportfs, the files, `shlex` and the
-- matches of `export_regex` (`Nfs.Exportfs.Machine`), `os.chown`, `os.stat`, `urlopen`, base64,
-- JSON and YAML.
--
-- Bounds: `_zfs_exec_command` has three attempts and `_invoke_retries` five, as in the code;
-- `decimal` has more fuel than the number, which is enough since each step divides by ten. There
-- is no other fuel.
--
-- Not modelled: the texts of messages and the log; underscores and digits beyond ASCII in `int`,
-- white space beyond ASCII in `strip`; the estimate of free bytes in floating point, which is a
-- parameter; what the modules' variables are after an initialisation that raises, since the
-- program then ends; the two searches for zfs, which are one, and its `sleep` between attempts;
-- fractions in JSON; what a method does with arguments of other types than it is written for,
-- which is a parameter; the signal handler, the TLS socket and the loop of `main`; the calls and
-- the output of client below `jsonrequest`.
pub mod Prelude
pub mod Utils
pub mod Nfs
pub mod Backends
pub mod Block
pub mod Fs
pub mod Main
pub mod Client
pub mod Tests
