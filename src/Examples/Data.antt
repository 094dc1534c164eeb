-- ===== src/Examples/Data.antt =====
-- A small environment and small tables.
use hookman.Common.{
  ℕ, zero, suc, String, Bool, true, false, not, List, [], ◌∷◌, Option, none, some, ◌==◌, eqb,
  if◌then◌else◌,
}
use hookman.Common.Int.{pos}
use hookman.Config.{Config}
use hookman.Metrics.{no_metrics}
use hookman.World.{Env, World}
use hookman.Delivery.Deliver.{DeliveryJob, answered, Client}
use hookman.Store.Models.{Event, Endpoint, DeliveryAttempt, Db}
use hookman.Worker.Poller.{Poller, Polling}
use hookman.Api.Events.{CreateEventRequest}
use hookman.Api.RateLimit.{RateLib}

-- The text of a slice of one topic.
abbrev pub only_topic : List String → Option String
only_topic [] = none
only_topic (t ∷ []) = some t
only_topic (t ∷ u ∷ ts) = none

abbrev pub numbered : ℕ → String
numbered n = if eqb n 0 then "A" else if eqb n 1 then "B" else "C"

abbrev pub an_env : Env
an_env = record {
  hmac = λ key message. 1 ∷ 255 ∷ [];
  ulid = numbered;
  random_bytes = λ n. n ∷ [];
  storable = λ body. true;
  bind_topic = only_topic;
  valid_uri = λ url. not (url == "");
}

abbrev pub world_of : Db → World
world_of db = record { db = db; now = 100; draws = 0; faults = []; metrics = no_metrics }

abbrev pub a_request : CreateEventRequest
a_request = record { topic = "orders"; payload = "{}"; idempotency_key = some "k1" }

abbrev pub other_request : CreateEventRequest
other_request = record { topic = "users"; payload = "[]"; idempotency_key = some "k1" }

abbrev pub an_event_row : Event
an_event_row = record {
  id = "evt_1";
  topic = "orders";
  payload = "{}";
  idempotency_key = none;
  status = "pending";
  created_at = 1;
  updated_at = 1;
}

abbrev pub a_dead_event : Event
a_dead_event = record an_event_row { id = "evt_2"; status = "dead" }

abbrev pub an_endpoint_row : Endpoint
an_endpoint_row = record {
  id = "ep_1";
  url = "https://example.org/hook";
  topics = "orders" ∷ [];
  description = none;
  signing_secret = "whsec_00";
  enabled = true;
  created_at = 1;
  updated_at = 1;
}

-- A failed attempt that is due.
abbrev pub a_failed_attempt : DeliveryAttempt
a_failed_attempt = record {
  id = "da_1";
  event_id = "evt_1";
  endpoint_id = "ep_1";
  attempt_number = pos 1;
  http_status = some (pos 500);
  response_body = none;
  duration_ms = some (pos 12);
  status = "failed";
  attempted_at = 5;
  next_retry_at = some 50;
}

abbrev pub two_events : Db
two_events = record {
  events = an_event_row ∷ a_dead_event ∷ [];
  endpoints = an_endpoint_row ∷ [];
  attempts = a_failed_attempt ∷ [];
}

abbrev pub answers_200 : Client
answers_200 = record { new_request_error = λ url. none; send = λ req. answered 200 [] }

abbrev pub answers_500 : Client
answers_500 = record { new_request_error = λ url. none; send = λ req. answered 500 [] }

abbrev pub a_job : DeliveryJob
a_job = record {
  event_id = "evt_1";
  endpoint_id = "ep_1";
  endpoint_url = "https://example.org/hook";
  signing_secret = "whsec_00";
  payload = "{}";
  attempt_number = pos 1;
  max_retries = pos 5;
}

abbrev pub a_poller : Poller
a_poller = record { interval = pos 1; max_retries = pos 5; batch_size = 50 }

abbrev pub polling_on : Db → Polling
polling_on db = record { world = world_of db; jobs = []; sends_left = none }

-- A bucket that counts what is left of its burst.
abbrev pub spend : ℕ → Bool × ℕ
spend zero = (false, 0)
spend (suc n) = (true, n)

abbrev pub counting : RateLib ℕ
counting = record { new_limiter = λ rps burst. 2; allow = λ now left. spend left }

abbrev pub a_config : Config
a_config = record {
  database_url = "postgres://db";
  api_key = "secret";
  signing_secret = "sign";
  port = pos 4000;
  worker_concurrency = pos 20;
  max_retries = pos 5;
  request_timeout = pos 10;
  poll_interval = pos 1;
  metrics_enabled = false;
  log_level = "info";
  dashboard_enabled = true;
  shutdown_timeout = pos 30;
  rate_limit_rps = pos 100;
  rate_limit_burst = pos 200;
}
