-- ===== src/Metrics.antt =====
-- internal/metrics/metrics.go: the process's counters, histogram and gauge, by label. A histogram
-- is the list of what it observed, newest first, in milliseconds.
use hookman.Common.{ℕ, suc, String, List, [], ◌∷◌, ◌==◌, if◌then◌else◌}

pub record Metrics : Type 0 where
  pub events_total : List (String × ℕ)
  pub delivery_attempts_total : List (String × ℕ)
  pub delivery_duration : List (String × ℕ)
  pub queue_depth : List (String × ℕ)
  pub dead_letter_total : ℕ

abbrev pub no_metrics : Metrics
no_metrics = record {
  events_total = [];
  delivery_attempts_total = [];
  delivery_duration = [];
  queue_depth = [];
  dead_letter_total = 0;
}

-- WithLabelValues(label).Inc()
abbrev pub inc : String → List (String × ℕ) → List (String × ℕ)
inc label [] = (label, 1) ∷ []
inc label ((l, n) ∷ c) = if l == label then (l, suc n) ∷ c else (l, n) ∷ inc label c

-- WithLabelValues(label).Set(value)
abbrev pub set_gauge : String → ℕ → List (String × ℕ) → List (String × ℕ)
set_gauge label value [] = (label, value) ∷ []
set_gauge label value ((l, n) ∷ c) =
    if l == label then (l, value) ∷ c else (l, n) ∷ set_gauge label value c

unfoldable pub record_event_created : String → Metrics → Metrics
record_event_created topic m = record m { events_total = inc topic m.events_total }

unfoldable pub record_delivery_attempt : String → ℕ → Metrics → Metrics
record_delivery_attempt status duration_ms m = record m {
  delivery_attempts_total = inc status m.delivery_attempts_total;
  delivery_duration = (status, duration_ms) ∷ m.delivery_duration;
}

unfoldable pub record_queue_depth : String → ℕ → Metrics → Metrics
record_queue_depth status count m = record m { queue_depth = set_gauge status count m.queue_depth }

unfoldable pub record_dead_letter : Metrics → Metrics
record_dead_letter m = record m { dead_letter_total = suc m.dead_letter_total }
