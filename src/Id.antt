-- ===== src/Id.antt =====
-- internal/id/id.go: identifiers from the ulid library, with a prefix for their kind.
use Prim.Native.String
use hookman.Common.{suc, String}
use hookman.World.{Env, World}

unfoldable pub new_ulid : Env → World → String × World
new_ulid env w = (env.ulid w.draws, record w { draws = suc w.draws })

module _ (env : Env) (w : World) where
  unfoldable pub new_event : String × World
  unfolding new_ulid
  new_event = let (u, w') = new_ulid env w in (String.◌++◌ "evt_" u, w')

  unfoldable pub new_endpoint : String × World
  unfolding new_ulid
  new_endpoint = let (u, w') = new_ulid env w in (String.◌++◌ "ep_" u, w')

  unfoldable pub new_delivery_attempt : String × World
  unfolding new_ulid
  new_delivery_attempt = let (u, w') = new_ulid env w in (String.◌++◌ "da_" u, w')
