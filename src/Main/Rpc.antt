-- ===== src/Main/Rpc.antt =====
-- `TargetHandler.do_POST` of targetd/main.py. The methods of `mapping` are a parameter, as are base64
-- and JSON, of whose values `J` are those nested in a request's members.
pub mod Laws
pub mod Accepted
use targetd.Prelude.{
  ℕ, zero, suc, ◌<◌, ◌*◌, Bool, true, false, not, ◌||◌, ◌&&◌, ◌==◌, ltb, Text, text_eq, codes,
  Option, none, some, List, [], ◌∷◌, if◌then◌else◌, parse_nat, strip,
}
use targetd.Prelude.Split.{split}
use targetd.Prelude.Dict.{Dict, lookup}
use targetd.Utils.Errors.{
  ℤ, pos, negsuc, neg, Exception, targetd_error, value_error, key_error, type_error, Result, ok,
  err, ◌>>=◌, ◌>>◌, raise_if, error_number, invalid_argument,
}
use targetd.Utils.Exec.{Exec}
use targetd.Utils.Numbers.{int_of_text}
use targetd.Utils.Tarpit.{Clients, is_stuck, enter, exit}

-- A JSON value without fractions, whose members are of type `J`.
pub data Value (J : Type 0) : Type 0 where
  null : Value J
  truth : Bool → Value J
  number : ℤ → Value J
  text : Text → Value J
  array : List J → Value J
  object : Dict J → Value J

-- What a client sends. `credentials` is the decoded `Authorization` header, if it decodes; `content`
-- is what `json.loads` makes of the bytes that are read for a content length.
pub record Request (J : Type 0) : Type 0 where
  pub client_address : Text
  pub credentials : Option Text
  pub path : Text
  pub content_length : Option Text
  pub content : ℤ → Result (Value (Value J))

-- What the client receives: an HTTP error, or a JSON object. That is sent without a status line
-- where `send_response` has not been reached.
pub data Reply (R : Type 0) : Type 0 where
  http_error : ℕ → Reply R
  answer : R → ℤ → Reply R
  failure : Bool → ℤ → ℤ → Reply R

pub record Config : Type 0 where
  pub user : Text
  pub password : Text

pub record Server (W : Type 0) : Type 0 where
  pub client : Clients
  pub machine : W

unfoldable pub int_of_header : Option Text → Result ℤ
unfolding int_of_text
int_of_header none = err type_error
int_of_header (some s) = int_of_text s

-- `int(v)`
unfoldable pub int_of_value : {J : Type 0} → Value J → Result ℤ
unfolding int_of_text
int_of_value (truth b) = ok (pos (if b then 1 else 0))
int_of_value (number n) = ok n
int_of_value (text s) = int_of_text s
int_of_value _ = err type_error

-- `content_len > (1024 * 128)`
abbrev pub too_long : ℤ → Bool
too_long (pos n) = ltb (1024 * 128) n
too_long (negsuc n) = false

-- `in_user, in_pass = auth_str.split(":")`
abbrev pub user_and_password : List Text → Option (Text × Text)
user_and_password (in_user ∷ in_pass ∷ []) = some (in_user, in_pass)
user_and_password _ = none

unfoldable pub in_credentials : {J : Type 0} → Request J → Option (Text × Text)
in_credentials req = elim req.credentials [
  | none ↦ none
  | some auth_str ↦ user_and_password (split b':' auth_str)
]

-- `req[key]`
unfoldable pub index : {J : Type 0} → Value (Value J) → Text → Result (Value J)
index (object d) key = elim (lookup key d) [ some v ↦ ok v | none ↦ err key_error ]
index _ key = err type_error

abbrev pub is_version_2 : {J : Type 0} → Value J → Bool
is_version_2 (text s) = text_eq s (codes "2.0")
is_version_2 _ = false

pub record Rpc (J : Type 0) : Type 0 where
  pub method : Value J
  pub id_num : ℤ
  pub params : Value J

-- The members of the request, read in the order of the code.
unfoldable pub parse_request : {J : Type 0} → Value (Value J) → Result (Rpc J)
unfolding index int_of_value
parse_request req = do
  version ← index req (codes "jsonrpc")
  raise_if (not (is_version_2 version)) value_error
  method ← index req (codes "method")
  id ← index req (codes "id")
  id_num ← int_of_value id
  ok (record { method = method; id_num = id_num; params = get req (codes "params") })
  where
    get : {J : Type 0} → Value (Value J) → Text → Value J
    get (object d) key = elim (lookup key d) [ some v ↦ v | none ↦ null ]
    get _ key = null

-- The error code of an exception while the content is read.
abbrev pub read_error : Exception → ℤ
read_error value_error = neg 32700
read_error e = neg 1

-- The error code of an exception while the members are read.
abbrev pub request_error : Exception → ℤ
request_error key_error = neg 32600
request_error value_error = neg 32600
request_error e = neg 1

-- The error code of an exception of a method.
abbrev pub method_error : Exception → ℤ
method_error key_error = neg 32601
method_error type_error = error_number invalid_argument
method_error (targetd_error code) = error_number code
method_error e = neg 1

-- The arguments of the call; only an object can be passed by `**params`.
unfoldable pub arguments : {J : Type 0} → Value J → Result (Dict J)
arguments (object d) = ok d
arguments null = ok []
arguments (truth b) = if b then err type_error else ok []
arguments (number (pos zero)) = ok []
arguments (number _) = err type_error
arguments (text []) = ok []
arguments (text _) = err type_error
arguments (array []) = ok []
arguments (array _) = err type_error

unfoldable pub read_content : {J : Type 0} → Request J → Result (Option (Value (Value J)))
unfolding int_of_header
read_content req = do
  content_len ← int_of_header req.content_length
  if too_long content_len
      then ok none
      else (req.content content_len >>= λ content. ok (some content))

-- A log-in that failed enters the tar pit, waits, and leaves it.
unfoldable pub tarpit : Text → Clients → Clients
unfolding enter exit
tarpit client_id client = (exit client_id (enter client_id client).1).1

module _ {J R W : Type 0} where
  -- `mapping[method]`
  unfoldable pub find_method : Dict (Dict J → Exec W R) → Value J → Result (Dict J → Exec W R)
  find_method mapping (text name) = elim (lookup name mapping) [
    | some f ↦ ok f
    | none ↦ err key_error
  ]
  find_method mapping (array _) = err type_error
  find_method mapping (object _) = err type_error
  find_method mapping _ = err key_error

  unfoldable pub call : Dict (Dict J → Exec W R) → Rpc J → Exec W R
  unfolding find_method arguments
  call mapping rpc w = elim (find_method mapping rpc.method) [
    | err e ↦ (err e, w)
    | ok f ↦ elim (arguments rpc.params) [ err e ↦ (err e, w) | ok kwargs ↦ f kwargs w ]
  ]

  -- From the content on, behind the authentication.
  unfoldable pub answer_content : Dict (Dict J → Exec W R) → Value (Value J) → W → Reply R × W
  unfolding parse_request call
  answer_content mapping content w = elim (parse_request content) [
    | err e ↦ (failure true (request_error e) (pos 0), w)
    | ok rpc ↦
        let (r, w') = call mapping rpc w in
        elim r [
          | err e ↦ (failure true (method_error e) rpc.id_num, w')
          | ok result ↦ (answer result rpc.id_num, w')
        ]
  ]

  unfoldable pub do_post :
      Config → Dict (Dict J → Exec W R) → Request J → Server W → Reply R × Server W
  unfolding in_credentials is_stuck tarpit read_content answer_content
  do_post config mapping req server = elim (in_credentials req) [
    | none ↦ (http_error 400, server)
    | some (in_user, in_pass) ↦
        if is_stuck req.client_address server.client
        then (http_error 503, server)
        else if not (text_eq in_user config.user) || not (text_eq in_pass config.password)
        then (http_error 401, record server { client = tarpit req.client_address server.client })
        else if not (text_eq req.path (codes "/targetrpc"))
        then (http_error 404, server)
        else elim (read_content req) [
          | err e ↦ (failure false (read_error e) (pos 0), server)
          | ok none ↦ (http_error 413, server)
          | ok (some content) ↦
              let (reply, machine) = answer_content mapping content server.machine in
              (reply, record server { machine = machine })
        ]
  ]
