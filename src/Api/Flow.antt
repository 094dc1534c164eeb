-- ===== src/Api/Flow.antt =====
-- A handler as a chain of steps, each of which may answer the request and end the handler.
pub mod Advances
use hookman.Common.{Bool, true, false, Option, none, some}
use hookman.World.{World, Call, measure}
use hookman.Metrics.{Metrics}
use hookman.Store.Models.{Result, ok, err, DbError}
use hookman.Api.Response.{Response}

pub data Flow (A : Type 0) : Type 0 where
  respond : Response → Flow A
  carry : A → Flow A

abbrev pub Handler : Type 0 → Type 0
Handler A = World → Flow A × World

abbrev pub continue : {A B : Type 0} → (A → Handler B) → Flow A × World → Flow B × World
continue f (respond r, w) = (respond r, w)
continue f (carry a, w) = f a w

infixl 5 ◌>>=◌ ◌>>◌
unfoldable pub ◌>>=◌ : {A B : Type 0} → Handler A → (A → Handler B) → Handler B
◌>>=◌ m f w = continue f (m w)

abbrev pub ◌>>◌ : {A B : Type 0} → Handler A → Handler B → Handler B
m >> n = m >>= λ _. n

unfoldable pub pure : {A : Type 0} → A → Handler A
pure a w = (carry a, w)

-- An early return.
abbrev pub return : {A : Type 0} → Response → Handler A
return r w = (respond r, w)

unfoldable pub require : Bool → Response → Handler (Unit {0})
unfolding pure
require true r = pure tt
require false r = return r

unfoldable pub require_some : {A : Type 0} → Option A → Response → Handler A
unfolding pure
require_some none r = return r
require_some (some a) r = pure a

abbrev pub or_respond : {A : Type 0} → (DbError → Response) → Result A × World → Flow A × World
or_respond f (ok a, w) = (carry a, w)
or_respond f (err e, w) = (respond (f e), w)

-- A call of the store whose error is answered at once.
unfoldable pub attempt : {A : Type 0} → Call A → (DbError → Response) → Handler A
attempt call f w = or_respond f (call w)

unfoldable pub observe : (Metrics → Metrics) → Handler (Unit {0})
observe f w = (carry tt, measure f w)

abbrev pub answer_of : Flow Response × World → Response × World
answer_of (respond r, w) = (r, w)
answer_of (carry r, w) = (r, w)

unfoldable pub finish : Handler Response → World → Response × World
finish m w = answer_of (m w)
