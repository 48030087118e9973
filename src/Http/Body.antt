-- ===== src/Http/Body.antt =====
-- The body of a request: `_read_json` of src/onceproof/http.py. The messages are those that arrive
-- within the timeout: where they end, TimeoutError is raised.
use onceproof.Base.{
  ℕ, String, Bool, not, Option, none, some, List, [], ◌∷◌, ◌++◌, leb, if◌then◌else◌,
}
use onceproof.Errors.{Error}
use onceproof.Model.Json.{Value, Fields}
use onceproof.Keyring.Payload.{byte_count}
use onceproof.Keyring.Ring.{duplicate}
use onceproof.Http.Headers.{
  request_error, raised, Outcome, done, failed, Header, content_type_is_json, strict_object,
}

pub data Message : Type 0 where
  -- `http.request`, with its body and `more_body`
  chunk : List ℕ → Bool → Message
  disconnect other : Message

-- What `json.loads` does with bytes: it reads a value, a key that occurs twice included; it raises
-- UnicodeDecodeError or JSONDecodeError; it comes to a key that occurs twice before such an error; or it
-- raises another exception, as RecursionError, or ValueError for an int that is too long.
pub data Loaded : Type 0 where
  loaded : Value → Loaded
  undecodable repeated_first : Loaded
  raises : Error → Loaded

-- `json.loads`, and the int that a float with no fraction is; `none` is a float with a fraction.
pub record Wire : Type 0 where
  pub loads : List ℕ → Loaded
  pub integer : String → Option Value

-- The loop over the messages, with the bytes so far.
unfoldable pub receive_body : ℕ → List ℕ → List Message → Outcome (List ℕ)
unfolding byte_count
receive_body limit body [] = failed (request_error 408 "request_timeout")
receive_body limit body (Message.disconnect ∷ ms) = failed (request_error 400 "incomplete_request")
receive_body limit body (Message.other ∷ ms) = receive_body limit body ms
receive_body limit body (Message.chunk bytes more ∷ ms) =
    let rest = receive_body limit (body ++ bytes) ms in
    if not (leb (byte_count (body ++ bytes)) limit)
    then failed (request_error 413 "request_too_large")
    else if more
    then rest
    else done (body ++ bytes)

-- `_object_without_duplicates` over the document
abbrev pub distinct_document : Loaded → Outcome Value
distinct_document undecodable = failed (request_error 400 "invalid_json")
distinct_document repeated_first = failed (request_error 400 "duplicate_json_field")
distinct_document (raises e) = failed (raised e)
distinct_document (loaded v) = unless_repeated (duplicate v)
  where
    unless_repeated : Option String → Outcome Value
    unless_repeated none = done v
    unless_repeated (some k) = failed (request_error 400 "duplicate_json_field")

abbrev pub object_in : List String → List String → Outcome Value → Outcome Fields
object_in allowed needed (done v) = strict_object v allowed needed
object_in allowed needed (failed e) = failed e

abbrev pub parse_body : Wire → List String → List String → Outcome (List ℕ) → Outcome Fields
parse_body wire allowed needed (failed e) = failed e
parse_body wire allowed needed (done []) = failed (request_error 400 "empty_request")
parse_body wire allowed needed (done (b ∷ bs)) =
    object_in allowed needed (distinct_document (wire.loads (b ∷ bs)))

-- `_read_json`
unfoldable pub read_json :
    Wire → ℕ → List String → List String → List Header → List Message → Outcome Fields
unfolding receive_body strict_object content_type_is_json
read_json wire limit allowed needed headers messages =
    let body = parse_body wire allowed needed (receive_body limit [] messages) in
    if not (content_type_is_json headers)
    then failed (request_error 415 "content_type_must_be_json")
    else body
