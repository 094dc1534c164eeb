-- ===== src/Api/Stats/Totals.antt =====
-- GET /api/stats and the events in the table (internal/api/stats.go).
use hookman.Common.{
  ℕ, suc, ◌+◌, String, ◌≡◌, ◌≢◌, refl, ◌∙◌, ap, inl, inr, Bool, false, ◌||◌, List, [], ◌∷◌, Option,
  none, some, map, ◌==◌, any, select, length, arith, if◌then◌else◌, Bool-cases, or_else, eq_iff,
}
use hookman.Metrics.{set_gauge}
use hookman.World.{World}
use hookman.World.Runs.{run-read}
use hookman.Store.Models.{Event}
use hookman.Store.Integrity.{AreApart}
use hookman.Store.Queries.Events as Events
use hookman.Store.Queries.Events.{StatusCount, count_in, group_by_status, has_status}
use hookman.Store.Postgres.{count_events_by_status}
use hookman.Api.Response.{write_json, object}
use hookman.Api.Flow.{◌>>=◌, pure, attempt, finish}
use hookman.Api.Stats.{no_counts, add_rows, stats_of, entry, handle_stats}

-- The number under a key, 0 where it is missing.
abbrev pub count_of : String → List (String × ℕ) → ℕ
count_of s [] = 0
count_of s ((k, n) ∷ m) = if k == s then n else count_of s m

abbrev row_count : String → List StatusCount → Option ℕ
row_count s [] = none
row_count s (r ∷ rs) = if r.status == s then some r.count else row_count s rs

abbrev same_status : StatusCount → StatusCount → Bool
same_status x y = x.status == y.status

abbrev sum : List StatusCount → ℕ
sum [] = 0
sum (r ∷ rs) = r.count + sum rs

count_of-set_gauge :
    (s k : String) (n : ℕ) (m : List (String × ℕ))
    → count_of s (set_gauge k n m) ≡ (if k == s then n else count_of s m)
count_of-set_gauge s k n [] = refl
count_of-set_gauge s k n ((l, v) ∷ m) =
    ground (arith, count_of-set_gauge s k n m, eq_iff l k, eq_iff l s, eq_iff k s)

row_count-count_in :
    (s t : String) (rs : List StatusCount)
    → or_else (row_count s (count_in t rs)) 0
      ≡ (if t == s then suc (or_else (row_count s rs) 0) else or_else (row_count s rs) 0)
unfolding count_in
row_count-count_in s t [] = ground arith
row_count-count_in s t (r ∷ rs) =
    ground (arith, row_count-count_in s t rs, eq_iff r.status t, eq_iff r.status s, eq_iff t s)

any-count_in :
    (p : String → Bool) (t : String) (rs : List StatusCount)
    → any (λ r. p r.status) (count_in t rs) ≡ (p t || any (λ r. p r.status) rs)
unfolding count_in
any-count_in p t [] = refl
any-count_in p t (r ∷ rs) = elim (Bool-cases (r.status == t)) [
  | inl e ↦ rw e (rw ((eq_iff r.status t).0 e) (ground arith))
  | inr e ↦ rw e (ground (arith, any-count_in p t rs))
]

count_in-AreApart :
    (t : String) (rs : List StatusCount)
    → AreApart same_status rs
    → AreApart same_status (count_in t rs)
unfolding count_in
count_in-AreApart t [] h = (refl, tt)
count_in-AreApart t (r ∷ rs) (h, hs) = elim (Bool-cases (r.status == t)) [
  | inl e ↦ rw e (h, hs)
  | inr e ↦
      rw e (any-count_in (λ s. r.status == s) t rs ∙ rw (e, h) refl, count_in-AreApart t rs hs)
]

group_by_status-AreApart : (es : List Event) → AreApart same_status (group_by_status es)
unfolding group_by_status
group_by_status-AreApart [] = tt
group_by_status-AreApart (e ∷ es) = count_in-AreApart e.status _ (group_by_status-AreApart es)

-- A group's count is the number of its rows.
row_count-group_by_status :
    (s : String) (es : List Event)
    → or_else (row_count s (group_by_status es)) 0 ≡ length (select (has_status s) es)
unfolding group_by_status
row_count-group_by_status s [] = refl
row_count-group_by_status s (e ∷ es) =
    ground
      (arith, row_count-group_by_status s es, row_count-count_in s e.status (group_by_status es))

row_count-none :
    (s : String) (rs : List StatusCount)
    → any (λ r. s == r.status) rs ≡ false
    → row_count s rs ≡ none
row_count-none s [] h = refl
row_count-none s (r ∷ rs) h =
    ground (arith, row_count-none s rs, eq_iff r.status s, eq_iff s r.status)

count_of-add_rows :
    (s : String) (rs : List StatusCount) (m : List (String × ℕ)) (n : ℕ)
    → AreApart same_status rs
    → count_of s (add_rows rs m n).0 ≡ or_else (row_count s rs) (count_of s m)
unfolding add_rows
count_of-add_rows s [] m n h = refl
count_of-add_rows s (r ∷ rs) m n (h, hs) = ground (
  arith,
  count_of-add_rows s rs (set_gauge r.status r.count m) (n + r.count) hs,
  count_of-set_gauge s r.status r.count m,
  row_count-none r.status rs h,
  eq_iff r.status s,
)

add_rows-total :
    (rs : List StatusCount) (m : List (String × ℕ)) (n : ℕ) → (add_rows rs m n).1 ≡ n + sum rs
unfolding add_rows
add_rows-total [] m n = omega arith
add_rows-total (r ∷ rs) m n =
    omega (arith, add_rows-total rs (set_gauge r.status r.count m) (n + r.count))

sum-count_in : (t : String) (rs : List StatusCount) → sum (count_in t rs) ≡ suc (sum rs)
unfolding count_in
sum-count_in t [] = refl
sum-count_in t (r ∷ rs) = ground (arith, sum-count_in t rs)

sum-group_by_status : (es : List Event) → sum (group_by_status es) ≡ length es
unfolding group_by_status
sum-group_by_status [] = refl
sum-group_by_status (e ∷ es) =
    sum-count_in e.status (group_by_status es) ∙ ap suc (sum-group_by_status es)

count_of-no_counts : (s : String) → count_of s no_counts ≡ 0
count_of-no_counts s = ground arith

-- `none` and 0 are the same count.
or_else-zero : (o : Option ℕ) (n : ℕ) → n ≡ 0 → or_else o n ≡ or_else o 0
or_else-zero none n h = h
or_else-zero (some k) n h = refl

stats_of-total : (es : List Event) → count_of "total" (stats_of (group_by_status es)) ≡ length es
unfolding stats_of
stats_of-total es =
    count_of-set_gauge "total" "total" _ (add_rows (group_by_status es) no_counts 0).0
    ∙ omega (arith, add_rows-total (group_by_status es) no_counts 0, sum-group_by_status es)

stats_of-status :
    (s : String) (es : List Event)
    → s ≢ "total"
    → count_of s (stats_of (group_by_status es)) ≡ length (select (has_status s) es)
unfolding stats_of
stats_of-status s es n =
    let counted =
      count_of-add_rows s (group_by_status es) no_counts 0 (group_by_status-AreApart es)
      ∙ or_else-zero (row_count s (group_by_status es)) (count_of s no_counts)
          (count_of-no_counts s)
      ∙ row_count-group_by_status s es in
    count_of-set_gauge s "total" _ (add_rows (group_by_status es) no_counts 0).0
    ∙ ground (arith, counted, eq_iff "total" s)

-- GET /api/stats, on a database that serves the call, answers 200 with a map in which "total" is the
-- number of events and every other key is the number of events with that status, 0 where it is
-- missing.
handle_stats_lem :
    (w : World) (s : String)
    → w.faults ≡ []
    → s ≢ "total"
    → (stats : List (String × ℕ)) × (handle_stats w
        ≡ (write_json 200 (object (map entry stats)), w))
      × (count_of "total" stats ≡ length w.db.events)
      × (count_of s stats ≡ length (select (has_status s) w.db.events))
unfolding handle_stats attempt finish pure ◌>>=◌ count_events_by_status
    Events.count_events_by_status
handle_stats_lem w s f n = (
  stats_of (group_by_status w.db.events),
  rw (run-read Events.count_events_by_status w (group_by_status w.db.events) f refl) refl,
  stats_of-total w.db.events,
  stats_of-status s w.db.events n,
)
