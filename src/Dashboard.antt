-- ===== src/Dashboard.antt =====
-- internal/dashboard/dashboard.go: the handlers of the pages. A page is the name of its template
-- with the data that it is rendered from; a form comes parsed, `none` where ParseForm fails.
pub mod Routes
pub mod Rendering
pub mod Topics
pub mod Toggle
pub mod Evolution
use Prim.Native.Char.{Char, code}
use Prim.Native.String
use hookman.Common.{
  ℕ, String, Bool, true, false, not, ◌&&◌, ◌||◌, List, [], ◌∷◌, Option, none, some, map, ◌==◌, eqb,
  leb, if◌then◌else◌, any,
}
use hookman.Common.Int.{pos}
use hookman.Common.Decimal.{itoa}
use hookman.World.{Env, World}
use hookman.Id.{new_endpoint}
use hookman.Store.Models.{Event, Endpoint, DeliveryAttempt, Result, ok, err}
use hookman.Store.Queries.Events.{ListEventsParams, StatusCount, pending}
use hookman.Store.Queries.Endpoints.{CreateEndpointParams, UpdateEndpointParams}
use hookman.Store.Postgres.{
  list_events, get_event, get_delivery_attempts_by_event, update_event_status, update_status_params,
  bulk_replay_dead_events, count_events_by_status, list_endpoints, create_endpoint, get_endpoint,
  update_endpoint, delete_endpoint,
}
use hookman.Api.Events.{filter_of}
use hookman.Api.Stats.{stats_of}

pub data Page : Type 0 where
  stats : List (String × ℕ) → Page
  events : List Event → (topic status : String) → Page
  event_rows : List Event → Page
  event_detail : Event → List DeliveryAttempt → Page
  endpoints endpoint_rows : List Endpoint → Page
  toast_error toast_success : String → Page
  http_error : ℕ → String → Page
  -- A handler that returns without writing.
  nothing : Page

abbrev pub of_stats : Result (List StatusCount) × World → Page × World
of_stats (ok rows, w) = (stats (stats_of rows), w)
of_stats (err e, w) = (http_error 500 "internal error", w)

unfoldable pub dashboard_stats : World → Page × World
dashboard_stats w = of_stats (count_events_by_status w)

abbrev pub event_params : (topic status before : String) → ListEventsParams
event_params topic status before = record {
  topic = filter_of topic;
  status = filter_of status;
  before_id = filter_of before;
  limit_count = 50;
}

-- An error gives an empty listing.
abbrev pub or_none : {A : Type 0} → Result (List A) → List A
or_none (ok rows) = rows
or_none (err e) = []

unfoldable pub dashboard_events : (topic status before : String) → World → Page × World
dashboard_events topic status before w =
    let (r, w') = list_events (event_params topic status before) w in
    (events (or_none r) topic status, w')

unfoldable pub dashboard_event_rows : (topic status before : String) → World → Page × World
dashboard_event_rows topic status before w =
    let (r, w') = list_events (event_params topic status before) w in (event_rows (or_none r), w')

abbrev pub with_detail : String → Result Event × World → Page × World
with_detail id (err e, w) = (http_error 404 "event not found", w)
with_detail id (ok event, w) =
    let (r, w') = get_delivery_attempts_by_event id w in (event_detail event (or_none r), w')

unfoldable pub dashboard_event_detail : String → World → Page × World
dashboard_event_detail id w = with_detail id (get_event id w)

abbrev pub replayed : Result (Unit {0}) × World → Page × World
replayed (ok u, w) = (toast_success "Event queued for replay", w)
replayed (err e, w) = (toast_error "Failed to replay event", w)

unfoldable pub dashboard_replay_event : String → World → Page × World
dashboard_replay_event id w = replayed (update_event_status (update_status_params id pending) w)

abbrev pub bulk_replayed : Result ℕ × World → Page × World
bulk_replayed (ok n, w) =
    (toast_success (String.◌++◌ (itoa (pos n)) " event(s) queued for replay"), w)
bulk_replayed (err e, w) = (toast_error "Failed to replay dead events", w)

unfoldable pub dashboard_bulk_replay : World → Page × World
dashboard_bulk_replay w = bulk_replayed (bulk_replay_dead_events w)

abbrev pub endpoints_page : Result (List Endpoint) × World → Page × World
endpoints_page (ok eps, w) = (endpoints eps, w)
endpoints_page (err e, w) = (http_error 500 "internal error", w)

unfoldable pub dashboard_endpoints : World → Page × World
dashboard_endpoints w = endpoints_page (list_endpoints w)

abbrev pub rows_page : Result (List Endpoint) × World → Page × World
rows_page (ok eps, w) = (endpoint_rows eps, w)
rows_page (err e, w) = (nothing, w)

unfoldable pub dashboard_endpoint_rows : World → Page × World
dashboard_endpoint_rows w = rows_page (list_endpoints w)

-- The rows after a change that worked, or a toast.
abbrev pub rows_or_toast : String → Result (Unit {0}) × World → Page × World
rows_or_toast message (ok u, w) = dashboard_endpoint_rows w
rows_or_toast message (err e, w) = (toast_error message, w)

-- unicode.IsSpace.
abbrev pub is_space : ℕ → Bool
is_space c =
    (leb 9 c && leb c 13)
    || eqb c 32
    || eqb c 133
    || eqb c 160
    || eqb c 5760
    || (leb 8192 c && leb c 8202)
    || eqb c 8232
    || eqb c 8233
    || eqb c 8239
    || eqb c 8287
    || eqb c 12288

unfoldable pub trim_left : String → String
trim_left String.[] = String.[]
trim_left (String.◌∷◌ c s) =
    let rest = trim_left s in if is_space (code c) then rest else String.◌∷◌ c s

unfoldable pub trim_right : String → String
trim_right String.[] = String.[]
trim_right (String.◌∷◌ c s) =
    let rest = trim_right s in
    if is_space (code c) && rest == "" then String.[] else String.◌∷◌ c rest

-- strings.TrimSpace.
unfoldable pub trim_space : String → String
unfolding trim_left trim_right
trim_space s = trim_right (trim_left s)

abbrev pub onto_first : Char → List String → List String
onto_first c [] = String.◌∷◌ c String.[] ∷ []
onto_first c (s ∷ ss) = String.◌∷◌ c s ∷ ss

-- strings.Split at the commas.
unfoldable pub split_commas : String → List String
split_commas String.[] = "" ∷ []
split_commas (String.◌∷◌ c s) =
    let rest = split_commas s in if eqb (code c) b',' then "" ∷ rest else onto_first c rest

-- The loop over the parts trims each of them.
unfoldable pub parse_topics : String → List String
unfolding trim_space split_commas
parse_topics raw = map trim_space (split_commas (trim_space raw))

pub record EndpointForm : Type 0 where
  pub url : String
  pub topics : String
  pub description : String

-- generateSigningSecret of this file: the text of an identifier that is drawn for it.
unfoldable pub dashboard_signing_secret : Env → World → String × World
unfolding new_endpoint
dashboard_signing_secret env w =
    let (drawn, w') = new_endpoint env w in
    (String.◌++◌ "whsec_" (String.slice drawn 3 (String.len drawn)), w')

-- The secret is drawn before the endpoint's identifier.
unfoldable pub endpoint_from_form : Env → EndpointForm → World → CreateEndpointParams × World
unfolding trim_space parse_topics dashboard_signing_secret new_endpoint
endpoint_from_form env form w =
    let (secret, w') = dashboard_signing_secret env w in
    let (id, w'') = new_endpoint env w' in
    (
      record {
        id = id;
        url = trim_space form.url;
        topics = parse_topics form.topics;
        description = filter_of (trim_space form.description);
        signing_secret = secret;
        enabled = true;
      },
      w'',
    )

abbrev pub store_endpoint : CreateEndpointParams × World → Page × World
store_endpoint (params, w) = rows_or_toast "Failed to create endpoint" (create_endpoint params w)

unfoldable pub dashboard_create_endpoint : Env → Option EndpointForm → World → Page × World
unfolding endpoint_from_form
dashboard_create_endpoint env none w = (toast_error "Invalid form data", w)
dashboard_create_endpoint env (some form) w =
    if trim_space form.url == "" || trim_space form.topics == ""
    then (toast_error "URL and topics are required", w)
    else store_endpoint (endpoint_from_form env form w)

abbrev pub toggle_params : String → Endpoint → UpdateEndpointParams
toggle_params id ep = record {
  url = none;
  topics = none;
  description = none;
  enabled = some (not ep.enabled);
  id = id;
}

abbrev pub toggled : String → Result Endpoint × World → Page × World
toggled id (err e, w) = (toast_error "Endpoint not found", w)
toggled id (ok ep, w) =
    rows_or_toast "Failed to toggle endpoint" (update_endpoint (toggle_params id ep) w)

unfoldable pub dashboard_toggle_endpoint : String → World → Page × World
dashboard_toggle_endpoint id w = toggled id (get_endpoint id w)

unfoldable pub dashboard_delete_endpoint : String → World → Page × World
dashboard_delete_endpoint id w = rows_or_toast "Failed to delete endpoint" (delete_endpoint id w)
