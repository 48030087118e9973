-- ===== src/Http/Framing.antt =====
-- How much of a request is read.
use onceproof.Base.{
  ℕ, ◌+◌, ◌≤◌, ◌<◌, ◌≡◌, ◌≢◌, refl, ap, arith, Bool, true, false, List, [], ◌∷◌, ◌++◌, leb,
  if◌then◌else◌, leb→le, String, Bool-cases, inl, inr,
}
use onceproof.Keyring.Payload.{byte_count}
use onceproof.Http.Headers.{request_error, Outcome, done, failed}
use onceproof.Http.Body.{Message, receive_body}

-- The bytes of the messages.
unfoldable pub all_bytes : List Message → List ℕ
all_bytes [] = []
all_bytes (Message.chunk bytes more ∷ ms) = bytes ++ all_bytes ms
all_bytes (_ ∷ ms) = all_bytes ms

byte_count-append : (a b : List ℕ) → byte_count (a ++ b) ≡ byte_count a + byte_count b
unfolding byte_count
byte_count-append [] b = omega arith
byte_count-append (x ∷ a) b = let rest = byte_count-append a b in ground arith

abbrev refused_with : ℕ → String → Outcome (List ℕ)
refused_with n code = failed (request_error n code)

unfoldable status_of : Outcome (List ℕ) → ℕ
status_of (failed (request_error n code)) = n
status_of _ = 0

other_failure :
    (n : ℕ) (code code' : String) → n ≢ 408 → refused_with n code ≢ refused_with 408 code'
unfolding status_of
other_failure n code code' differ e = differ (ap status_of e)

-- After a chunk that fits: the loop goes on, or gives the body.
chunk_decided :
    (open_ : Bool) (body : List ℕ) (long short : Outcome (List ℕ))
    → (long ≡ short) × (short ≢ failed (request_error 408 "request_timeout"))
    → ((if open_ then long else done body) ≡ (if open_ then short else done body))
      × ((if open_ then short else done body) ≢ failed (request_error 408 "request_timeout"))
chunk_decided true body long short h = h
chunk_decided false body long short h = (refl, λ e. absurd cc)

-- A request whose messages hold more bytes than the limit is decided by them: whatever else
-- arrives, the loop gives the same, and it does not wait for the timeout.
pub receive_body-decided :
    (limit : ℕ) (body : List ℕ) (ms rest : List Message)
    → limit < byte_count body + byte_count (all_bytes ms)
    → byte_count body ≤ limit
    → (receive_body limit body (ms ++ rest) ≡ receive_body limit body ms)
      × (receive_body limit body ms ≢ failed (request_error 408 "request_timeout"))
unfolding receive_body all_bytes
receive_body-decided limit body [] rest more fits = absurd (omega arith)
receive_body-decided limit body (Message.disconnect ∷ ms) rest more fits =
    (refl, other_failure _ _ "request_timeout" (omega arith))
receive_body-decided limit body (Message.other ∷ ms) rest more fits =
    receive_body-decided limit body ms rest more fits
receive_body-decided limit body (Message.chunk bytes open_ ∷ ms) rest more fits =
    elim (Bool-cases (leb (byte_count (body ++ bytes)) limit)) [
      | inl small ↦
          let sum = byte_count-append body bytes in
          let total = byte_count-append bytes (all_bytes ms) in
          rw small (
            chunk_decided open_ (body ++ bytes) _ _ (
              receive_body-decided limit (body ++ bytes) ms rest (omega arith)
                (leb→le (byte_count (body ++ bytes)) limit small)))
      | inr big ↦ rw big (refl, other_failure _ _ "request_timeout" (omega arith))
    ]
