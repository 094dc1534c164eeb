-- ===== src/Delivery/Deliver.antt =====
-- internal/delivery/deliver.go: one signed POST and what is concluded from its outcome.
-- net/http is a parameter: whether a request can be made for a URL, and the answer to a request.
-- Response bodies are bytes; `elapsed` is the measured duration in milliseconds.
pub mod Outcome
use hookman.Common.{
  ℕ, String, Bool, true, false, List, [], ◌∷◌, ◌++◌, Option, none, some, ltb, leb, take, ◌&&◌,
  if◌then◌else◌,
}
use hookman.Common.Int.{ℤ}
use hookman.Common.Text.{bytes}
use hookman.Delivery.Sign.{sign}
use hookman.Delivery.Retry.{next_retry_at}

pub record DeliveryJob : Type 0 where
  pub event_id : String
  pub endpoint_id : String
  pub endpoint_url : String
  pub signing_secret : String
  pub payload : String
  pub attempt_number : ℤ
  pub max_retries : ℤ

pub record DeliveryResult : Type 0 where
  pub http_status : Option ℕ
  pub response_body : List ℕ
  pub duration_ms : ℕ
  pub success : Bool
  pub retry_at : Option ℕ

pub record HttpRequest : Type 0 where
  pub method : String
  pub url : String
  pub body : String
  pub headers : List (String × String)

-- client.Do: an error with its text, or a status and a body.
pub data Exchange : Type 0 where
  failed : List ℕ → Exchange
  answered : ℕ → List ℕ → Exchange

pub record Client : Type 0 where
  -- The error text of http.NewRequestWithContext for a URL, if it fails.
  pub new_request_error : String → Option (List ℕ)
  pub send : HttpRequest → Exchange

-- io.LimitReader(resp.Body, 4096)
abbrev pub body_limit : ℕ
body_limit = 4096

unfoldable pub signed_request : (String → String → List ℕ) → DeliveryJob → HttpRequest
signed_request hmac job = record {
  method = "POST";
  url = job.endpoint_url;
  body = job.payload;
  headers =
      ("Content-Type", "application/json")
      ∷ ("X-Hookman-Signature", sign hmac job.payload job.signing_secret)
      ∷ ("X-Hookman-Event-Id", job.event_id)
      ∷ ("User-Agent", "Hookman/0.1")
      ∷ [];
}

unfoldable pub give_up : DeliveryJob → ℕ → ℕ → List ℕ → DeliveryResult
give_up job elapsed now message = record {
  http_status = none;
  response_body = message;
  duration_ms = elapsed;
  success = false;
  retry_at = next_retry_at job.attempt_number job.max_retries now;
}

unfoldable pub conclude : DeliveryJob → ℕ → ℕ → Exchange → DeliveryResult
unfolding give_up
conclude job elapsed now (failed e) = give_up job elapsed now (bytes "request failed: " ++ e)
conclude job elapsed now (answered status body) =
    let success = leb 200 status && ltb status 300 in
    record {
      http_status = some status;
      response_body = take body_limit body;
      duration_ms = elapsed;
      success = success;
      retry_at = if success then none else next_retry_at job.attempt_number job.max_retries now;
    }

unfoldable pub deliver :
    (String → String → List ℕ) → Client → DeliveryJob → (elapsed now : ℕ) → DeliveryResult
unfolding give_up conclude
deliver hmac client job elapsed now = elim (client.new_request_error job.endpoint_url) [
  | some e ↦ give_up job elapsed now (bytes "failed to create request: " ++ e)
  | none ↦ conclude job elapsed now (client.send (signed_request hmac job))
]
