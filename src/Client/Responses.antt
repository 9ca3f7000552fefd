-- ===== src/Client/Responses.antt =====
-- The responses of targetd to client, and what `jsonrequest` makes of them.
use targetd.Prelude.{◌≡◌, refl, true, false, text_eq, codes, none, some}
use targetd.Utils.Errors.{
  ErrorCode, error_number, Exception, invalid, name_conflict, no_support, unexpected_exit_code,
  invalid_argument, exists_initiator, not_found_volume, not_found_volume_group,
  not_found_access_group, volume_masked, no_free_host_lun_id, exists_clone_name, exists_fs_name,
  not_found_fs, invalid_pool, not_found_ss, not_found_volume_export, not_found_nfs_export,
  nfs_no_support, index_error, type_error, runtime_error, lvm_error, attribute_error, other_error,
  Result, ok, err, targetd_error, value_error, key_error,
}
use targetd.Main.Rpc.{Reply, http_error, answer, failure, method_error}
use targetd.Client.{
  Response, Outcome, socket_error, not_opened, response, Ended, returned, method_raised,
  not_positive, read_response,
}

-- What `urlopen` makes of what the server sends; an HTTP error is raised as a `socket.error`, and
-- so is not a reply without a status line.
abbrev pub outcome_of : {R : Type 0} → Reply R → Outcome R
outcome_of (http_error status) = socket_error
outcome_of (answer result id) =
    response (record { jsonrpc = some (codes "2.0"); error = none; result = some result })
outcome_of (failure false code id) = not_opened
outcome_of (failure true code id) = response (record {
  jsonrpc = some (codes "2.0");
  error = some (record { code = some code });
  result = none;
})

-- What the client has of a call that comes to the result or the exception.
abbrev pub ended_as : {R : Type 0} → Result R → Ended R
ended_as (ok a) = returned (some a)
ended_as (err e) = method_raised

error_number-not_positive : (c : ErrorCode) → not_positive (error_number c) ≡ true
unfolding error_number
error_number-not_positive invalid = refl
error_number-not_positive name_conflict = refl
error_number-not_positive no_support = refl
error_number-not_positive unexpected_exit_code = refl
error_number-not_positive invalid_argument = refl
error_number-not_positive exists_initiator = refl
error_number-not_positive not_found_volume = refl
error_number-not_positive not_found_volume_group = refl
error_number-not_positive not_found_access_group = refl
error_number-not_positive volume_masked = refl
error_number-not_positive no_free_host_lun_id = refl
error_number-not_positive exists_clone_name = refl
error_number-not_positive exists_fs_name = refl
error_number-not_positive not_found_fs = refl
error_number-not_positive invalid_pool = refl
error_number-not_positive not_found_ss = refl
error_number-not_positive not_found_volume_export = refl
error_number-not_positive not_found_nfs_export = refl
error_number-not_positive nfs_no_support = refl

method_error-not_positive : (e : Exception) → not_positive (method_error e) ≡ true
unfolding error_number
method_error-not_positive (targetd_error c) = error_number-not_positive c
method_error-not_positive value_error = refl
method_error-not_positive key_error = refl
method_error-not_positive index_error = refl
method_error-not_positive type_error = refl
method_error-not_positive runtime_error = refl
method_error-not_positive lvm_error = refl
method_error-not_positive attribute_error = refl
method_error-not_positive other_error = refl

-- The response to a call that comes to the result or the exception.
abbrev pub response_of : {R : Type 0} → Result R → Response R
response_of (ok a) = record { jsonrpc = some (codes "2.0"); error = none; result = some a }
response_of (err e) = record {
  jsonrpc = some (codes "2.0");
  error = some (record { code = some (method_error e) });
  result = none;
}

pub read_response_lem : {R : Type 0} (x : Result R) → read_response (response_of x) ≡ ended_as x
unfolding read_response text_eq
read_response_lem (ok a) = refl
read_response_lem (err e) = rw (method_error-not_positive e) refl
