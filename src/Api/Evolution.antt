-- ===== src/Api/Evolution.antt =====
-- The handlers of internal/api and what they do to the tables.
use hookman.Common.{inl, refl, String, Option, none, some}
use hookman.World.{Env, World}
use hookman.Id.{new_event, new_endpoint}
use hookman.Store.Models.{Event, Result, ok, err, no_rows}
use hookman.Store.Integrity.{done}
use hookman.Store.Queries.Events.{pending}
use hookman.Store.Postgres.{create_event, get_event_by_idempotency_key, update_status_params}
use hookman.Store.Postgres.Evolution.{
  Evolves, create_event-Evolves, get_event-Evolves, get_event_by_idempotency_key-Evolves,
  list_events-Evolves, update_event_status-Evolves, get_delivery_attempts_by_event-Evolves,
  get_dead_events-Evolves, bulk_replay_dead_events-Evolves, purge_dead_events-Evolves,
  count_events_by_status-Evolves, get_endpoint-Evolves, list_endpoints-Evolves,
  create_endpoint-Evolves, update_endpoint-Evolves, delete_endpoint-Evolves,
  get_delivery_attempts_by_endpoint-Evolves,
}
use hookman.Metrics.{record_event_created}
use hookman.Api.Response.{write_error}
use hookman.Api.Flow.{pure}
use hookman.Api.Flow.Advances.{
  Advances, Advances-pure, Advances-require, Advances-require_some, Advances-observe,
  Advances-attempt, Advances-bind, finish-Evolves,
}
use hookman.Api.Events.{
  CreateEventRequest, key_of, check_existing, check_idempotency, draw_event_id, create_params,
  created, store_event, handle_create_event, ListQuery, handle_list_events, handle_get_event,
  handle_replay_event,
}
use hookman.Api.DeadLetter.{
  handle_list_dead_events, handle_bulk_replay_dead_events, handle_purge_dead_events,
}
use hookman.Api.Stats.{handle_stats}
use hookman.Api.Endpoints.{
  CreateEndpointRequest, UpdateEndpointRequest, generate_signing_secret, draw_secret,
  draw_endpoint_id, handle_create_endpoint, handle_list_endpoints, handle_update_endpoint,
  handle_delete_endpoint, handle_endpoint_deliveries,
}

module _ (env : Env) where
  check_existing-Evolves :
      (r : Result Event) (w w' : World)
      → Evolves env w w'
      → Evolves env w (check_existing (r, w')).1
  check_existing-Evolves (ok e) w w' h = h
  check_existing-Evolves (err no_rows) w w' h = h
  check_existing-Evolves (err _) w w' h = h

  check_idempotency-Advances : (key : Option String) → Advances env (check_idempotency key)
  unfolding pure
  check_idempotency-Advances none = record { at = λ w. done }
  check_idempotency-Advances (some key) = record {
    at = λ w.
        check_existing-Evolves (get_event_by_idempotency_key (some key) w).0 w
          (get_event_by_idempotency_key (some key) w).1
          (get_event_by_idempotency_key-Evolves env w (some key));
  }

  draw_event_id-Advances : Advances env (draw_event_id env)
  unfolding new_event
  draw_event_id-Advances = record { at = λ w. done }

  store_event-Advances : (req : CreateEventRequest) → Advances env (store_event env req)
  unfolding store_event
  store_event-Advances req =
      Advances-bind env _ _ (check_idempotency-Advances (key_of req.idempotency_key)) λ _.
        Advances-bind env _ _ draw_event_id-Advances λ id.
          Advances-bind env _ _
            (Advances-attempt env (create_event (create_params id req))
              (λ _. write_error 500 "failed to create event")
              (λ w. create_event-Evolves env w (create_params id req) refl))
            λ _.
              Advances-bind env _ _ (Advances-observe env (record_event_created req.topic))
                λ _. Advances-pure env (created id req)

  pub handle_create_event-Evolves :
      (body : Option CreateEventRequest) (w : World)
      → Evolves env w (handle_create_event env body w).1
  unfolding handle_create_event
  handle_create_event-Evolves body w = finish-Evolves env _ w (
      Advances-bind env _ _ (Advances-require_some env body _) λ req.
        Advances-bind env _ _ (Advances-require env _ _)
          λ _. Advances-bind env _ _ (Advances-require env _ _) λ _. store_event-Advances req)

  pub handle_list_events-Evolves :
      (q : ListQuery) (w : World) → Evolves env w (handle_list_events q w).1
  unfolding handle_list_events
  handle_list_events-Evolves q w = finish-Evolves env _ w (
      Advances-bind env _ _ (Advances-attempt env _ _ (λ w. list_events-Evolves env w _))
        λ _. Advances-pure env _)

  pub handle_get_event-Evolves : (id : String) (w : World) → Evolves env w (handle_get_event id w).1
  unfolding handle_get_event
  handle_get_event-Evolves id w = finish-Evolves env _ w (
      Advances-bind env _ _ (Advances-attempt env _ _ (λ w. get_event-Evolves env w id)) λ _.
        Advances-bind env _ _
          (Advances-attempt env _ _ (λ w. get_delivery_attempts_by_event-Evolves env w id))
          λ _. Advances-pure env _)

  pub handle_replay_event-Evolves :
      (id : String) (w : World) → Evolves env w (handle_replay_event id w).1
  unfolding handle_replay_event
  handle_replay_event-Evolves id w = finish-Evolves env _ w (
      Advances-bind env _ _ (Advances-attempt env _ _ (λ w. get_event-Evolves env w id)) λ _.
        Advances-bind env _ _
          (Advances-attempt env _ _ (λ w.
            update_event_status-Evolves env w (update_status_params id pending) (inl refl)
              (λ e. cc)))
          λ _. Advances-pure env _)

  pub handle_list_dead_events-Evolves :
      (limit before : String) (w : World) → Evolves env w (handle_list_dead_events limit before w).1
  unfolding handle_list_dead_events
  handle_list_dead_events-Evolves limit before w = finish-Evolves env _ w (
      Advances-bind env _ _ (Advances-attempt env _ _ (λ w. get_dead_events-Evolves env w _))
        λ _. Advances-pure env _)

  pub handle_bulk_replay_dead_events-Evolves :
      (w : World) → Evolves env w (handle_bulk_replay_dead_events w).1
  unfolding handle_bulk_replay_dead_events
  handle_bulk_replay_dead_events-Evolves w = finish-Evolves env _ w (
      Advances-bind env _ _ (Advances-attempt env _ _ (bulk_replay_dead_events-Evolves env))
        λ _. Advances-pure env _)

  pub handle_purge_dead_events-Evolves : (w : World) → Evolves env w (handle_purge_dead_events w).1
  unfolding handle_purge_dead_events
  handle_purge_dead_events-Evolves w = finish-Evolves env _ w (
      Advances-bind env _ _ (Advances-attempt env _ _ (purge_dead_events-Evolves env))
        λ _. Advances-pure env _)

  pub handle_stats-Evolves : (w : World) → Evolves env w (handle_stats w).1
  unfolding handle_stats
  handle_stats-Evolves w = finish-Evolves env _ w (
      Advances-bind env _ _ (Advances-attempt env _ _ (count_events_by_status-Evolves env))
        λ _. Advances-pure env _)

  draw_secret-Advances : Advances env (draw_secret env)
  unfolding generate_signing_secret
  draw_secret-Advances = record { at = λ w. done }

  draw_endpoint_id-Advances : Advances env (draw_endpoint_id env)
  unfolding new_endpoint
  draw_endpoint_id-Advances = record { at = λ w. done }

  pub handle_create_endpoint-Evolves :
      (body : Option CreateEndpointRequest) (w : World)
      → Evolves env w (handle_create_endpoint env body w).1
  unfolding handle_create_endpoint
  handle_create_endpoint-Evolves body w = finish-Evolves env _ w (
      Advances-bind env _ _ (Advances-require_some env body _) λ req.
        Advances-bind env _ _ (Advances-require env _ _) λ _.
          Advances-bind env _ _ (Advances-require env _ _) λ _.
            Advances-bind env _ _ (Advances-require env _ _) λ _.
              Advances-bind env _ _ draw_secret-Advances λ secret.
                Advances-bind env _ _ draw_endpoint_id-Advances λ id.
                  Advances-bind env _ _
                    (Advances-attempt env _ _ (λ w. create_endpoint-Evolves env w _))
                    λ _. Advances-pure env _)

  pub handle_list_endpoints-Evolves : (w : World) → Evolves env w (handle_list_endpoints w).1
  unfolding handle_list_endpoints
  handle_list_endpoints-Evolves w = finish-Evolves env _ w (
      Advances-bind env _ _ (Advances-attempt env _ _ (list_endpoints-Evolves env))
        λ _. Advances-pure env _)

  pub handle_update_endpoint-Evolves :
      (id : String) (body : Option UpdateEndpointRequest) (w : World)
      → Evolves env w (handle_update_endpoint id body w).1
  unfolding handle_update_endpoint
  handle_update_endpoint-Evolves id body w = finish-Evolves env _ w (
      Advances-bind env _ _ (Advances-attempt env _ _ (λ w. get_endpoint-Evolves env w id)) λ _.
        Advances-bind env _ _ (Advances-require_some env body _) λ req.
          Advances-bind env _ _ (Advances-attempt env _ _ (λ w. update_endpoint-Evolves env w _))
            λ _. record { at = λ w. get_endpoint-Evolves env w id })

  pub handle_delete_endpoint-Evolves :
      (id : String) (w : World) → Evolves env w (handle_delete_endpoint id w).1
  unfolding handle_delete_endpoint
  handle_delete_endpoint-Evolves id w = finish-Evolves env _ w (
      Advances-bind env _ _ (Advances-attempt env _ _ (λ w. get_endpoint-Evolves env w id)) λ _.
        Advances-bind env _ _ (Advances-attempt env _ _ (λ w. delete_endpoint-Evolves env w id))
          λ _. Advances-pure env _)

  pub handle_endpoint_deliveries-Evolves :
      (id : String) (w : World) → Evolves env w (handle_endpoint_deliveries id w).1
  unfolding handle_endpoint_deliveries
  handle_endpoint_deliveries-Evolves id w = finish-Evolves env _ w (
      Advances-bind env _ _ (Advances-attempt env _ _ (λ w. get_endpoint-Evolves env w id)) λ _.
        Advances-bind env _ _
          (Advances-attempt env _ _ (λ w. get_delivery_attempts_by_endpoint-Evolves env w id 50))
          λ _. Advances-pure env _)
