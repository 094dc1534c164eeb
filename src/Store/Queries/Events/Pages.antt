-- ===== src/Store/Queries/Events/Pages.antt =====
-- ListEvents of internal/store/queries/events.sql.go, page by page.
use mathlib.Core.List.{append_assoc}
use hookman.Common.{
  ℕ, ◌+◌, ◌≡◌, refl, sym, ap, subst, ◌∙◌, inl, inr, String, Bool, true, false, ◌&&◌, List, [], ◌∷◌,
  ◌++◌, Option, none, some, ◌==◌, Bool-cases, All, In, arith, select, take, any, eq_iff,
}
use hookman.Common.Text.{text_ltb, text-IsOrder}
use hookman.Common.Order.{IsOrder, flip-IsOrder, on-IsOrder}
use hookman.Store.Models.{Event, Db, Result, ok}
use hookman.Store.Sql.{order_by}
use hookman.Store.Sql.Members.{take-In, order_by-In, select-In}
use hookman.Store.Sql.Paging.{
  drop, take-append-drop, take_add, IsStrict, AreUntied, order_by-select, order_by-IsStrict,
  select_behind, trans_lt,
}
use hookman.Store.Integrity.{same_event, AreApart}
use hookman.Store.Queries.Events.{ListEventsParams, listed, list_events, null_or}

abbrev later_id : Event → Event → Bool
later_id x y = text_ltb y.id x.id

abbrev same_id : Event → Event → Bool
same_id x y = y.id == x.id

later_id-IsOrder : IsOrder later_id same_id
later_id-IsOrder = on-IsOrder (λ e. e.id) (flip-IsOrder text-IsOrder)

select-select :
    {A : Type 0} (p q : A → Bool) (xs : List A)
    → select q (select p xs) ≡ select (λ x. p x && q x) xs
select-select p q [] = refl
select-select p q (x ∷ xs) = ground (arith, select-select p q xs)

select_same :
    {A : Type 0} (p q : A → Bool) (xs : List A) → ((x : A) → p x ≡ q x) → select p xs ≡ select q xs
select_same p q [] h = refl
select_same p q (x ∷ xs) h = rw (h x, select_same p q xs h) refl

flip_same : (s t : String) → (s == t) ≡ false → (t == s) ≡ false
flip_same s t h = ground (arith, eq_iff s t, eq_iff t s)

apart-same_id :
    (x : Event) (ys : List Event)
    → any (λ y. same_event x y) ys ≡ false
    → All (λ y. same_id x y ≡ false) ys
apart-same_id x [] h = tt
apart-same_id x (y ∷ ys) h = (flip_same x.id y.id (ground arith), apart-same_id x ys (ground arith))

apart-AreUntied : (xs : List Event) → AreApart same_event xs → AreUntied same_id xs
apart-AreUntied [] h = tt
apart-AreUntied (x ∷ xs) (a, h) = (apart-same_id x xs a, apart-AreUntied xs h)

All-where :
    {A : Type 0} (P : A → Type 0) (q : A → Bool) (xs : List A) → All P xs → All P (select q xs)
All-where P q [] h = tt
All-where P q (x ∷ xs) (p, h) = elim (Bool-cases (q x)) [
  | inl e ↦ rw e (p, All-where P q xs h)
  | inr e ↦ rw e (All-where P q xs h)
]

select-AreUntied :
    (q : Event → Bool) (xs : List Event) → AreUntied same_id xs → AreUntied same_id (select q xs)
select-AreUntied q [] h = tt
select-AreUntied q (x ∷ xs) (a, h) = elim (Bool-cases (q x)) [
  | inl e ↦ rw e (All-where _ q xs a, select-AreUntied q xs h)
  | inr e ↦ rw e (select-AreUntied q xs h)
]

-- The parameters of the page behind a row.
abbrev pub behind : ListEventsParams → Event → ℕ → ListEventsParams
behind p last m = record p { before_id = some last.id; limit_count = m }

before_last :
    (o : Option String) (last e : Event)
    → null_or o (λ b. text_ltb last.id b) ≡ true
    → text_ltb e.id last.id ≡ true
    → null_or o (λ b. text_ltb e.id b) ≡ true
before_last none last e h k = refl
before_last (some b) last e h k = trans_lt text-IsOrder e.id last.id b k h

listed-behind :
    (p : ListEventsParams) (last : Event) (m : ℕ) (e : Event)
    → listed p last ≡ true
    → listed (behind p last m) e ≡ listed p e && later_id last e
listed-behind p last m e h = ground (arith, before_last p.before_id last e)

-- The rows without a limit.
abbrev all_rows : ListEventsParams → Db → List Event
all_rows p db = order_by later_id (select (listed p) db.events)

all_rows-behind :
    (p : ListEventsParams) (db : Db) (last : Event) (m : ℕ)
    → listed p last ≡ true
    → all_rows (behind p last m) db ≡ select (λ e. later_id last e) (all_rows p db)
all_rows-behind p db last m h =
    ap (order_by later_id) (
      select_same (listed (behind p last m)) (λ e. listed p e && later_id last e) db.events
        (λ e. listed-behind p last m e h)
      ∙ sym (select-select (listed p) (λ e. later_id last e) db.events))
    ∙ order_by-select later_id-IsOrder (λ e. later_id last e) (select (listed p) db.events)

In-last : (front : List Event) (last : Event) → In last (front ++ last ∷ [])
In-last [] last = inl refl
In-last (x ∷ xs) last = inr (In-last xs last)

list_events-rows :
    (p : ListEventsParams) (now : ℕ) (db : Db)
    → list_events p now db ≡ ok (take p.limit_count (all_rows p db), db)
unfolding list_events
list_events-rows p now db = refl

rows_inj :
    {xs ys : List Event} {db : Db}
    → ◌≡◌ {A = Result (List Event × Db)} (ok (xs, db)) (ok (ys, db))
    → xs ≡ ys
rows_inj e = ground arith

-- Pages join without a gap and without a repetition: in tables whose identifiers are unique, a page
-- of ListEvents, under any filters and any `before_id`, followed by the page of the events before its
-- last one, is the page with both limits added.
pub pages_join :
    (p : ListEventsParams) (m now : ℕ) (db : Db) (front : List Event) (last : Event)
    → AreApart same_event db.events
    → list_events p now db ≡ ok (front ++ last ∷ [], db)
    → (next_page : List Event) × (list_events (behind p last m) now db ≡ ok (next_page, db))
      × (list_events (record p { limit_count = p.limit_count + m }) now db
          ≡ ok ((front ++ last ∷ []) ++ next_page, db))
pages_join p m now db front last apart e =
    let n = p.limit_count in
    let rows = all_rows p db in
    let tail = drop n rows in
    let first_page : take n rows ≡ front ++ last ∷ [] =
      rows_inj (sym (list_events-rows p now db) ∙ e) in
    let whole : front ++ last ∷ tail ≡ rows =
      sym (append_assoc front (last ∷ []) tail)
      ∙ ap (λ l. l ++ tail) (sym first_page)
      ∙ take-append-drop n rows in
    let strict : IsStrict later_id rows =
      order_by-IsStrict later_id-IsOrder (select (listed p) db.events)
        (select-AreUntied (listed p) db.events (apart-AreUntied db.events apart)) in
    let there : In last rows =
      take-In n rows last (subst (In last) (sym first_page) (In-last front last)) in
    let shown : listed p last ≡ true =
      (select-In (listed p) db.events last (order_by-In later_id _ last there)).1 in
    let rest : all_rows (behind p last m) db ≡ tail =
      all_rows-behind p db last m shown
      ∙ ap (select (λ x. later_id last x)) (sym whole)
      ∙ select_behind later_id-IsOrder front last tail
          (subst (IsStrict later_id) (sym whole) strict) in
    (
      take m tail,
      list_events-rows (behind p last m) now db ∙ ap (λ l. ok (take m l, db)) rest,
      list_events-rows (record p { limit_count = n + m }) now db
          ∙ ap (λ l. ok (l, db)) (take_add n m rows ∙ ap (λ l. l ++ take m tail) first_page),
    )
