-- ===== src/Worker/Poller/Jobs.antt =====
-- Which jobs a round of the poller sends.
use hookman.Common.{
  ℕ, String, ◌≡◌, refl, Bool, true, List, [], ◌∷◌, ◌++◌, none, some, map, arith, ap, ◌∙◌, ◌==◌,
  select, All, length, any, ◌&&◌, Option-cases, inl, inr,
}
use mathlib.Core.List.{append_assoc, append-nil}
use hookman.World.{Env, World, measure}
use hookman.Metrics.{record_queue_depth}
use hookman.World.Runs.{run-served, run-read}
use hookman.Delivery.Deliver.{DeliveryJob}
use hookman.Store.Models.{Event, Endpoint, ok, err, bad_argument}
use hookman.Common.Int.{pos}
use hookman.Store.Queries.Events as Events
use hookman.Store.Sql.{update_where}
use hookman.Store.Queries.Events.{set_status}
use hookman.Store.Queries.Endpoints as Endpoints
use hookman.Store.Queries.Endpoints.{subscribes}
use hookman.Store.Postgres.{
  update_event_status, update_status_params, get_endpoints_by_topic, get_pending_events,
}
use hookman.Worker.Poller.{
  Poller, Polling, send_within, send, send_all, first_job, dispatch, mark_processing, poll_event,
  poll_events, with_pending, poll_pending_events,
}

-- No call is lost, and the context is not cancelled.
pub record IsCalm (s : Polling) : Type 0 where
  pub faults : s.world.faults ≡ []
  pub open_ended : s.sends_left ≡ none

pub send-calm :
    (job : DeliveryJob) (s : Polling)
    → s.sends_left ≡ none
    → send job s ≡ (true, record s { jobs = s.jobs ++ job ∷ [] })
unfolding send send_within
send-calm job s e = ground arith

with_jobs : Polling → List DeliveryJob → Bool × Polling
with_jobs s js = (true, record s { jobs = js })

send_all-calm :
    (jobs : List DeliveryJob) (s : Polling)
    → s.sends_left ≡ none
    → send_all jobs s ≡ (true, record s { jobs = s.jobs ++ jobs })
unfolding send_all with_jobs
send_all-calm [] s e = rw (append-nil s.jobs) refl
send_all-calm (job ∷ jobs) s e = rw (send-calm job s e) (
    send_all-calm jobs (record s { jobs = s.jobs ++ job ∷ [] }) e
    ∙ ap (λ js. with_jobs s js) (append_assoc s.jobs (job ∷ []) jobs))

-- The endpoints that an event goes to: the enabled ones that list its topic, as the driver passes it
-- on; none where the driver refuses the slice that the topic comes in.
abbrev pub subscribers : Env → List Endpoint → Event → List Endpoint
subscribers env endpoints event = elim (env.bind_topic (event.topic ∷ [])) [
  | none ↦ []
  | some topic ↦ select (λ ep. ep.enabled && any (λ t. t == topic) ep.topics) endpoints
]

module _ (env : Env) (p : Poller) where
  -- The first attempt at an endpoint.
  abbrev pub attempt_one : Event → Endpoint → DeliveryJob
  attempt_one event ep = record {
    event_id = event.id;
    endpoint_id = ep.id;
    endpoint_url = ep.url;
    signing_secret = ep.signing_secret;
    payload = event.payload;
    attempt_number = pos 1;
    max_retries = p.max_retries;
  }

  -- The jobs for a batch: event by event, one for each subscriber.
  abbrev pub jobs_for : List Endpoint → List Event → List DeliveryJob
  jobs_for endpoints [] = []
  jobs_for endpoints (e ∷ es) =
      map (attempt_one e) (subscribers env endpoints e) ++ jobs_for endpoints es

-- The events after a batch: those with a subscriber are processing.
abbrev pub mark_one : List Endpoint → String → ℕ → List Event → List Event
mark_one [] id now events = events
mark_one (ep ∷ eps) id now events =
    update_where (λ e. e.id == id) (set_status "processing" now) events

abbrev pub marks_for : Env → List Endpoint → ℕ → List Event → List Event → List Event
marks_for env endpoints now [] events = events
marks_for env endpoints now (e ∷ es) events =
    marks_for env endpoints now es (mark_one (subscribers env endpoints e) e.id now events)

abbrev after_events : Polling → List DeliveryJob → List Event → Polling
after_events s jobs events = record s {
  jobs = jobs;
  world = record s.world { db = record s.world.db { events = events } };
}

module _ (env : Env) (p : Poller) where
  get_endpoints_by_topic-bound :
      (topic text : String) (w : World)
      → w.faults ≡ []
      → env.bind_topic (topic ∷ []) ≡ some text
      → get_endpoints_by_topic env topic w ≡ (ok (select (subscribes text) w.db.endpoints), w)
  unfolding get_endpoints_by_topic Endpoints.get_endpoints_by_topic
  get_endpoints_by_topic-bound topic text w f b =
      run-read (Endpoints.get_endpoints_by_topic env.bind_topic (topic ∷ [])) w _ f
        (rw (b, Endpoints.get_endpoints_by_topic) refl)

  get_endpoints_by_topic-refused :
      (topic : String) (w : World)
      → w.faults ≡ []
      → env.bind_topic (topic ∷ []) ≡ none
      → get_endpoints_by_topic env topic w ≡ (err bad_argument, w)
  unfolding get_endpoints_by_topic Endpoints.get_endpoints_by_topic
  get_endpoints_by_topic-refused topic w f b =
      rw (run-served (Endpoints.get_endpoints_by_topic env.bind_topic (topic ∷ [])) w f)
        (rw (b, Endpoints.get_endpoints_by_topic) refl)

  mark_processing-calm :
      (event : Event) (s : Polling) (eps : List Endpoint)
      → IsCalm s
      → mark_processing env p event s (ok eps, s.world) ≡ (
        true,
        after_events s
            (s.jobs ++ map (attempt_one env p event) eps)
            (mark_one eps event.id s.world.now s.world.db.events),
      )
  unfolding mark_processing dispatch first_job update_event_status Events.update_event_status
  mark_processing-calm event s [] c = rw (append-nil s.jobs) refl
  mark_processing-calm event s (ep ∷ eps) c =
      rw
        (run-served (Events.update_event_status (update_status_params event.id "processing"))
          s.world c.faults)
        (send_all-calm (map (first_job env p event) (ep ∷ eps))
          (after_events s s.jobs (
            update_where (λ e. e.id == event.id) (set_status "processing" s.world.now)
              s.world.db.events))
          c.open_ended)

  poll_event-calm :
      (event : Event) (s : Polling)
      → IsCalm s
      → poll_event env p event s ≡ (
        true,
        after_events s
            (s.jobs ++ map (attempt_one env p event) (subscribers env s.world.db.endpoints event))
            (mark_one
              (subscribers env s.world.db.endpoints event)
              event.id
              s.world.now
              s.world.db.events),
      )
  unfolding poll_event mark_processing
  poll_event-calm event s c = elim (Option-cases (env.bind_topic (event.topic ∷ []))) [
    | inl b ↦
        rw
          (
            get_endpoints_by_topic-refused event.topic s.world c.faults b,
            b,
            subscribers,
            append-nil s.jobs,
          )
          refl
    | inr (t, b) ↦
        rw (get_endpoints_by_topic-bound event.topic t s.world c.faults b, b, subscribers)
          (mark_processing-calm event s (select (subscribes t) s.world.db.endpoints) c)
  ]

  poll_events-calm :
      (events : List Event) (s : Polling)
      → IsCalm s
      → poll_events env p events s ≡ (
        true,
        after_events s
            (s.jobs ++ jobs_for env p s.world.db.endpoints events)
            (marks_for env s.world.db.endpoints s.world.now events s.world.db.events),
      )
  unfolding poll_events
  poll_events-calm [] s c = rw (append-nil s.jobs) refl
  poll_events-calm (e ∷ es) s c = rw (poll_event-calm e s c) (
      rw (← append_assoc s.jobs _ _) (
        poll_events-calm es (after_events s _ _)
          (record { faults = c.faults; open_ended = c.open_ended })))

  abbrev measured : Polling → List Event → Polling
  measured s batch = record s {
    world = measure (record_queue_depth "pending" (length batch)) s.world;
  }

  -- With no call lost, the round is the loop over the batch.
  poll_pending_events-batch :
      (s : Polling) (batch : List Event)
      → IsCalm s
      → Events.get_pending_events p.batch_size s.world.now s.world.db ≡ ok (batch, s.world.db)
      → poll_pending_events env p s ≡ (poll_events env p batch (measured s batch)).1
  unfolding poll_pending_events with_pending get_pending_events
  poll_pending_events-batch s batch c q =
      rw (run-read (Events.get_pending_events p.batch_size) s.world batch c.faults q) refl

  -- If no call is lost and the context is not cancelled: a round sends, for the oldest pending events
  -- up to the batch size, exactly one job with attempt number 1 for each enabled endpoint that lists
  -- the event's topic as the driver passes it on, and none where the driver refuses the argument;
  -- the events with such an endpoint become processing, and nothing else in the tables changes.
  pub poll_pending_events_lem :
      (s : Polling) (batch : List Event)
      → IsCalm s
      → Events.get_pending_events p.batch_size s.world.now s.world.db ≡ ok (batch, s.world.db)
      → ((poll_pending_events env p s).jobs ≡ s.jobs ++ jobs_for env p s.world.db.endpoints batch)
        × ((poll_pending_events env p s).world.db ≡ record s.world.db {
          events = marks_for env s.world.db.endpoints s.world.now batch s.world.db.events;
        })
  poll_pending_events_lem s batch c q =
      rw
        (
          poll_pending_events-batch s batch c q,
          poll_events-calm batch (measured s batch)
              (record { faults = c.faults; open_ended = c.open_ended }),
        )
        (refl, refl)

  -- A batch without subscribers has no jobs and no marks.
  jobs_for-none :
      (endpoints : List Endpoint) (events : List Event)
      → All (λ e. subscribers env endpoints e ≡ []) events
      → jobs_for env p endpoints events ≡ []
  jobs_for-none endpoints [] h = refl
  jobs_for-none endpoints (e ∷ es) (none_here, h) = rw none_here (jobs_for-none endpoints es h)

  marks_for-none :
      (endpoints : List Endpoint) (now : ℕ) (batch events : List Event)
      → All (λ e. subscribers env endpoints e ≡ []) batch
      → marks_for env endpoints now batch events ≡ events
  marks_for-none endpoints now [] events h = refl
  marks_for-none endpoints now (e ∷ es) events (none_here, h) =
      rw none_here (marks_for-none endpoints now es events h)

  -- If no call is lost and the context is not cancelled: a round in which none of the oldest pending
  -- events, up to the batch size, has a subscriber, be it that no enabled endpoint lists the topic or
  -- that the driver refuses the argument, sends no job and changes nothing in the tables, so the next
  -- round meets the same events again.
  pub unsubscribed_batch_starves :
      (s : Polling) (batch : List Event)
      → IsCalm s
      → Events.get_pending_events p.batch_size s.world.now s.world.db ≡ ok (batch, s.world.db)
      → All (λ e. subscribers env s.world.db.endpoints e ≡ []) batch
      → ((poll_pending_events env p s).jobs ≡ s.jobs)
        × ((poll_pending_events env p s).world.db ≡ s.world.db)
        × (Events.get_pending_events p.batch_size s.world.now (poll_pending_events env p s).world.db
            ≡ ok (batch, s.world.db))
  unsubscribed_batch_starves s batch c q h =
      let (jobs, tables) = poll_pending_events_lem s batch c q in
      rw
        (
          jobs,
          tables,
          jobs_for-none s.world.db.endpoints batch h,
          marks_for-none s.world.db.endpoints s.world.now batch s.world.db.events h,
          append-nil s.jobs,
        )
        (refl, refl, q)
