-- ===== src/Client.antt =====
-- `jsonrequest` of client, the program that sends requests to targetd. `urlopen` and JSON are
-- parameters.
pub mod Responses
pub mod Laws
use targetd.Prelude.{
  ℕ, suc, ◌==◌, Bool, true, false, not, Text, text_eq, codes, Option, none, some, [], ◌∷◌, ◌++◌,
  if◌then◌else◌,
}
use targetd.Utils.Errors.{ℤ, pos, negsuc}
use targetd.Main.Rpc.{Value, number, text, object}

abbrev pub user : Text
user = codes "admin"

abbrev pub password : Text
password = codes "targetd"

abbrev pub path : Text
path = codes "/targetrpc"

-- `host` and `port`
abbrev host_port : Text
host_port = codes "localhost:18700"

-- The global variables.
pub record Client : Type 0 where
  pub id_num : ℕ
  pub use_ssl : Bool

-- What `urlopen` sends: `auth` before base64, and `data` before `json.dumps`.
pub record Post (J : Type 0) : Type 0 where
  pub url : Text
  pub auth : Text
  pub data' : Value (Value J)

-- The members of a response that are read: `error`, unless it is absent or null, with its `code`.
pub record Failure : Type 0 where
  pub code : Option ℤ

pub record Response (R : Type 0) : Type 0 where
  pub jsonrpc : Option Text
  pub error : Option Failure
  pub result : Option R

-- How `urlopen` ends, with the reading of what it returns: a `socket.error`, which an HTTP error is
-- as well, another exception, an exception behind `urlopen`, or a response.
pub data Outcome (R : Type 0) : Type 0 where
  socket_error : Outcome R
  not_opened : Outcome R
  not_read : Outcome R
  response : Response R → Outcome R

-- How `jsonrequest` ends: with a result, with the exception for the error of a method, with another
-- exception about the response, or with that of `urlopen`.
pub data Ended (R : Type 0) : Type 0 where
  returned : Option R → Ended R
  method_raised : Ended R
  assertion_error : Ended R
  key_error : Ended R
  unanswered : Ended R

abbrev pub url_for : Bool → Text
url_for use_ssl =
    (if use_ssl then codes "https" else codes "http") ++ codes "://" ++ host_port ++ path

-- The object that `dict(id=id_num, ...)` makes.
abbrev pub request_data : {J : Type 0} → ℕ → Text → Value J → Value (Value J)
request_data id_num method params = object (
    (codes "id", number (pos id_num))
    ∷ (codes "method", text method)
    ∷ (codes "params", params)
    ∷ (codes "jsonrpc", text (codes "2.0"))
    ∷ [])

-- `Request(url, data, headers)`
abbrev pub post_of : {J : Type 0} → Bool → ℕ → Text → Value J → Post J
post_of use_ssl id_num method params = record {
  url = url_for use_ssl;
  auth = user ++ b':' ∷ password;
  data' = request_data id_num method params;
}

abbrev pub is_version_2 : Option Text → Bool
is_version_2 none = false
is_version_2 (some s) = text_eq s (codes "2.0")

-- `code <= 0`
abbrev pub not_positive : ℤ → Bool
not_positive (pos n) = n == 0
not_positive (negsuc n) = true

-- The end of `jsonrequest`, on the response.
unfoldable pub read_response : {R : Type 0} → Response R → Ended R
read_response r = if not (is_version_2 r.jsonrpc) then assertion_error else elim r.error [
  | none ↦ returned r.result
  | some failure ↦ elim failure.code [
    | none ↦ key_error
    | some code ↦ if not_positive code then method_raised else returned none
  ]
]

-- How `jsonrequest` ends after the second attempt, and whether that has set `use_ssl`.
abbrev pub after_retry : {R W : Type 0} → Client → Outcome R × W → (Ended R × Client) × W
after_retry c (response r, w) = ((read_response r, record c { use_ssl = true }), w)
after_retry c (not_read, w) = ((unanswered, record c { use_ssl = true }), w)
after_retry c (_, w) = ((unanswered, c), w)

module _ {J R W : Type 0} (urlopen : Post J → W → Outcome R × W) (method : Text)
    (params : Value J) where
  -- The second attempt, in `except socket.error`.
  unfoldable pub retry : ℕ → Client → W → (Ended R × Client) × W
  unfolding read_response
  retry id_num c w = after_retry c (urlopen (post_of true id_num method params) w)

  unfoldable pub after_first : ℕ → Client → Outcome R × W → (Ended R × Client) × W
  unfolding read_response retry
  after_first id_num c (response r, w) = ((read_response r, c), w)
  after_first id_num c (socket_error, w) = retry id_num c w
  after_first id_num c (_, w) = ((unanswered, c), w)

  unfoldable pub jsonrequest : Client → W → (Ended R × Client) × W
  unfolding after_first
  jsonrequest c w =
      after_first c.id_num (record c { id_num = suc c.id_num })
        (urlopen (post_of c.use_ssl c.id_num method params) w)
