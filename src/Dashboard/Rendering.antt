-- ===== src/Dashboard/Rendering.antt =====
-- The functions that NewDashboard of internal/dashboard/dashboard.go gives to the templates.
-- formatTime, formatJSON and now, which call time.Format and json.Indent, are left out.
use Prim.Native.String
use hookman.Common.{String, List, [], ◌∷◌, Option, none, some, ◌||◌, ◌==◌, if◌then◌else◌}
use hookman.Common.Int.{ℤ}
use hookman.Common.Decimal.{itoa}

unfoldable pub status_class : String → String
status_class status =
    if status == "delivered" || status == "success"
    then "status-success"
    else if status == "pending" || status == "processing"
    then "status-pending"
    else if status == "dead"
    then "status-dead"
    else "status-failed"

-- strings.Join with ", ".
unfoldable pub join_topics : List String → String
join_topics [] = ""
join_topics (t ∷ []) = t
join_topics (t ∷ u ∷ ts) = String.◌++◌ t (String.◌∷◌ "," (String.◌∷◌ " " (join_topics (u ∷ ts))))

unfoldable pub deref_int32 : Option ℤ → String
deref_int32 none = "—"
deref_int32 (some n) = itoa n

abbrev pub deref_text : Option String → String
deref_text none = ""
deref_text (some t) = t
