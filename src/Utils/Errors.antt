-- ===== src/Utils/Errors.antt =====
-- `TargetdError` of targetd/utils.py, with the exceptions of Python that the program raises or
-- catches. The message of an exception is not modelled, only its class and its code.
use targetd.Prelude.{◌≡◌, refl, ◌⊎◌, inl, inr, ℕ, zero, suc, Bool, true, false}

-- A Python `int`: `negsuc n` is -(n + 1).
pub data ℤ : Type 0 where
  pos : ℕ → ℤ
  negsuc : ℕ → ℤ

abbrev pub neg : ℕ → ℤ
neg zero = pos 0
neg (suc n) = negsuc n

pub data ErrorCode : Type 0 where
  invalid name_conflict no_support unexpected_exit_code invalid_argument : ErrorCode
  exists_initiator not_found_volume not_found_volume_group not_found_access_group : ErrorCode
  volume_masked no_free_host_lun_id : ErrorCode
  exists_clone_name exists_fs_name not_found_fs invalid_pool not_found_ss : ErrorCode
  not_found_volume_export not_found_nfs_export nfs_no_support : ErrorCode

unfoldable pub error_number : ErrorCode → ℤ
error_number invalid = neg 1
error_number name_conflict = neg 50
error_number no_support = neg 153
error_number unexpected_exit_code = neg 303
error_number invalid_argument = neg 32602
error_number exists_initiator = neg 52
error_number not_found_volume = neg 103
error_number not_found_volume_group = neg 152
error_number not_found_access_group = neg 200
error_number volume_masked = neg 303
error_number no_free_host_lun_id = neg 1000
error_number exists_clone_name = neg 51
error_number exists_fs_name = neg 53
error_number not_found_fs = neg 104
error_number invalid_pool = neg 110
error_number not_found_ss = neg 112
error_number not_found_volume_export = neg 151
error_number not_found_nfs_export = neg 400
error_number nfs_no_support = neg 401

-- An exception: `TargetdError` with its code, or a class of Python's or of a library's.
pub data Exception : Type 0 where
  targetd_error : ErrorCode → Exception
  value_error key_error index_error type_error runtime_error lvm_error : Exception
  attribute_error other_error : Exception

pub data Result {ℓ} (A : Type ℓ) : Type ℓ where
  ok : A → Result A
  err : Exception → Result A

-- What follows a call that may raise.
module _ {ℓ κ} {A : Type ℓ} {B : Type κ} where
  infixl 5 ◌>>=◌
  abbrev pub ◌>>=◌ : Result A → (A → Result B) → Result B
  ok value >>= next = next value
  err raised >>= next = err raised

module _ {κ} {B : Type κ} where
  infixl 5 ◌>>◌
  abbrev pub ◌>>◌ : Result (Unit {0}) → Result B → Result B
  first >> second = first >>= λ _. second

-- `if b: raise e`
abbrev pub raise_if : Bool → Exception → Result (Unit {0})
raise_if true e = err e
raise_if false e = ok tt

-- To split on a computed result and keep the equation.
pub Result-cases {ℓ} :
    {A : Type ℓ} (r : Result A) → ((e : Exception) × (r ≡ err e)) ⊎ ((a : A) × (r ≡ ok a))
Result-cases (err e) = inl (e, refl)
Result-cases (ok a) = inr (a, refl)

-- What a chain that ends well has computed.
pub >>=-values {ℓ κ} :
    {A : Type ℓ} {B : Type κ} (r : Result A) (f : A → Result B) {b : B}
    → (r >>= f) ≡ ok b
    → (a : A) × (r ≡ ok a) × (f a ≡ ok b)
>>=-values (ok a) f h = (a, refl, h)
>>=-values (err e) f h = cc
