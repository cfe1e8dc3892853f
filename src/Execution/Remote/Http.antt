-- ===== src/Execution/Remote/Http.antt =====
-- How the client reads an HTTP answer: `_get_json` and `_post_json` of src/execution/mt5_remote.py.
use Prim.Native.String.{String}
use text.Mathlib.Text.{◌==◌ as str_eq}
use tradingia.Prelude.{
  ℕ, leb, ltb, ◌==◌, Bool, true, false, not, ◌&&◌, ◌||◌, Option, none, some, is_none, if◌then◌else◌,
}
use tradingia.Prelude.Result.{Result, ok, err, ◌>>=◌}
use tradingia.Execution.Remote.Json.{Json, Items, Fields, Python, lookup, is_text, str}
use tradingia.Execution.Remote.Values.{ClientError, require_mapping}

-- `body` is what `json.loads` gives for the text, where it is JSON
pub record HttpResponse : Type 0 where
  pub status_code : ℕ
  pub content_length : Option ℕ
  pub body : Option Json

-- RequestsTransport turns the exceptions of `requests` into the first two
pub data Answer : Type 0 where
  timed_out : Answer
  failed : Answer
  responded : HttpResponse → Answer

abbrev pub max_response_bytes : ℕ
max_response_bytes = 5000000

unfoldable pub oversized : HttpResponse → Bool
oversized r = elim r.content_length [ none ↦ false | some n ↦ ltb max_response_bytes n ]

abbrev pub unauthorized_status : ℕ → Bool
unauthorized_status s = s == 401 || s == 403

abbrev pub body_mapping : Option Json → Result ClientError Fields
body_mapping none = err ClientError.protocol
body_mapping (some v) = require_mapping v

unfoldable pub get_json : Answer → Result ClientError Fields
unfolding oversized
get_json Answer.timed_out = err ClientError.timeout
get_json Answer.failed = err ClientError.transport
get_json (Answer.responded r) =
    if oversized r
    then err ClientError.protocol
    else if unauthorized_status r.status_code
    then err ClientError.authentication
    else if leb 400 r.status_code && ltb r.status_code 500
    then err ClientError.request
    else if leb 500 r.status_code
    then err ClientError.remote
    else body_mapping r.body

abbrev any_error : Items → Bool
any_error Items.nil = false
any_error (Items.cons v vs) = is_text "error" v || any_error vs

module _ (py : Python) where
  -- `payload is None or "error" not in payload`, which raises for a number
  unfoldable pub lacks_error : Option Json → Result ClientError Bool
  lacks_error none = ok true
  lacks_error (some Json.null) = ok true
  lacks_error (some (Json.object payload)) = ok (is_none (lookup "error" payload))
  lacks_error (some (Json.array vs)) = ok (not (any_error vs))
  lacks_error (some (Json.string s)) = ok (not (py.mentions_error s))
  lacks_error (some v) = err ClientError.type_error

  abbrev code_of : Option Json → String
  code_of none = "unknown"
  code_of (some v) = str py v

  abbrev code_in : Option Json → String
  code_in (some (Json.object error_body)) = code_of (lookup "code" error_body)
  code_in _ = "unknown"

  -- the bridge's own code, where the body has one
  unfoldable pub error_code : Option Json → String
  error_code (some (Json.object payload)) = code_in (lookup "error" payload)
  error_code _ = "unknown"

  unfoldable pub post_rejected : ℕ → String → ClientError
  post_rejected status code =
      if status == 401 || str_eq code "unauthorized"
      then ClientError.authentication
      else if leb 500 status
      then ClientError.remote
      else ClientError.write_rejected code status

  unfoldable pub post_response : HttpResponse → Bool → Result ClientError Fields
  unfolding post_rejected error_code
  post_response r lacking =
      if lacking
      then err ClientError.authentication
      else if leb 400 r.status_code
      then err (post_rejected r.status_code (error_code r.body))
      else body_mapping r.body

  unfoldable pub post_json : Answer → Result ClientError Fields
  unfolding oversized lacks_error post_response
  post_json Answer.timed_out = err ClientError.timeout
  post_json Answer.failed = err ClientError.transport
  post_json (Answer.responded r) =
      if oversized r
      then err ClientError.protocol
      else (if unauthorized_status r.status_code then lacks_error r.body else ok false)
        >>= post_response r
