-- ===== src/Api/Flow/Advances.antt =====
-- How the steps of a handler, internal/api, change the tables: a rule for each way to build one.
use hookman.Common.{Bool, true, false, Option, none, some}
use hookman.World.{Env, World, Call}
use hookman.Metrics.{Metrics}
use hookman.Store.Models.{Result, ok, err, DbError}
use hookman.Store.Integrity.{done}
use hookman.Store.Postgres.Evolution.{Evolves, Writes-trans}
use hookman.Api.Response.{Response}
use hookman.Api.Flow.{
  Flow, Handler, respond, carry, continue, ◌>>=◌, pure, require, require_some, or_respond, attempt,
  observe, answer_of, finish,
}

pub record Advances {A : Type 0} (env : Env) (m : Handler A) : Type 0 where
  pub at : (w : World) → Evolves env w (m w).1

module _ {A : Type 0} (env : Env) where
  pub Advances-pure : (a : A) → Advances env (pure a)
  unfolding pure
  Advances-pure a = record { at = λ w. done }

  pub Advances-require_some : (o : Option A) (r : Response) → Advances env (require_some o r)
  unfolding require_some pure
  Advances-require_some none r = record { at = λ w. done }
  Advances-require_some (some a) r = record { at = λ w. done }

  or_respond-Evolves :
      (f : DbError → Response) (c : Result A × World) (w : World)
      → Evolves env w c.1
      → Evolves env w (or_respond f c).1
  or_respond-Evolves f (ok a, w') w h = h
  or_respond-Evolves f (err e, w') w h = h

  pub Advances-attempt :
      (call : Call A) (f : DbError → Response)
      → ((w : World) → Evolves env w (call w).1)
      → Advances env (attempt call f)
  unfolding attempt
  Advances-attempt call f h = record { at = λ w. or_respond-Evolves f (call w) w (h w) }

  module _ {B : Type 0} where
    continue-Evolves :
        (f : A → Handler B) (c : Flow A × World) (w : World)
        → ((a : A) → Advances env (f a))
        → Evolves env w c.1
        → Evolves env w (continue f c).1
    continue-Evolves f (respond r, w') w k h = h
    continue-Evolves f (carry a, w') w k h = Writes-trans h ((k a).at w')

    pub Advances-bind :
        (m : Handler A) (f : A → Handler B)
        → Advances env m
        → ((a : A) → Advances env (f a))
        → Advances env (m >>= f)
    unfolding ◌>>=◌
    Advances-bind m f h k = record { at = λ w. continue-Evolves f (m w) w k (h.at w) }

pub Advances-require : (env : Env) (b : Bool) (r : Response) → Advances env (require b r)
unfolding require pure
Advances-require env true r = record { at = λ w. done }
Advances-require env false r = record { at = λ w. done }

pub Advances-observe : (env : Env) (f : Metrics → Metrics) → Advances env (observe f)
unfolding observe
Advances-observe env f = record { at = λ w. done }

answer_of-Evolves :
    (env : Env) (c : Flow Response × World) (w : World)
    → Evolves env w c.1
    → Evolves env w (answer_of c).1
answer_of-Evolves env (respond r, w') w h = h
answer_of-Evolves env (carry r, w') w h = h

pub finish-Evolves :
    (env : Env) (m : Handler Response) (w : World) → Advances env m → Evolves env w (finish m w).1
unfolding finish
finish-Evolves env m w h = answer_of-Evolves env (m w) w (h.at w)
