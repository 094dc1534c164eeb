-- ===== src/Examples/OfDashboard.antt =====
-- The dashboard on small tables.
use hookman.Common.{◌≡◌, refl, [], ◌∷◌}
use hookman.Store.Models.{empty_db}
use hookman.Dashboard.{endpoint_from_form}
use hookman.Dashboard.Rendering.{join_topics}
use hookman.Dashboard.Topics.{topics_come_back}
use hookman.Examples.Data.{an_env, world_of}

topics_come_back_example :
    (endpoint_from_form an_env
      (record {
        url = "https://example.org";
        topics = join_topics ("orders" ∷ "new users" ∷ []);
        description = "";
      })
      (world_of empty_db)).0.topics
    ≡ "orders" ∷ "new users" ∷ []
topics_come_back_example =
    topics_come_back an_env "https://example.org" "" "orders" ("new users" ∷ []) (world_of empty_db)
      ((λ e. cc, refl, refl, refl), ((λ e. cc, refl, refl, refl), tt))
