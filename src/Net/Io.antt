-- ===== src/Net/Io.antt =====
-- `async` code over one stream: it ends with a value or an error, or is dropped when the time of
-- the `timeout` around it runs out. What was read or written until then stays so.
use crabby_proxy.Prelude.{ℕ, Option, none, some, Result, ok, err}
use crabby_proxy.Net.{Stream}

pub data Outcome (E A : Type 0) : Type 0 where
  done : A → Outcome E A
  failed : E → Outcome E A
  elapsed : Outcome E A

abbrev pub Io : Type 0 → Type 0 → Type 0
Io E A = Stream → Outcome E A × Stream

module _ {E A : Type 0} where
  abbrev pub pure : A → Io E A
  pure a s = (done a, s)

  abbrev pub raise : E → Io E A
  raise e s = (failed e, s)

  abbrev pub lift : Result A E → Io E A
  lift (ok a) s = (done a, s)
  lift (err e) s = (failed e, s)

module _ {E A B : Type 0} where
  abbrev pub continue : Outcome E A → (A → Io E B) → Stream → Outcome E B × Stream
  continue (done a) f s = f a s
  continue (failed e) f s = (failed e, s)
  continue elapsed f s = (elapsed, s)

  infixl 5 ◌>>=◌ ◌>>◌
  abbrev pub ◌>>=◌ : Io E A → (A → Io E B) → Io E B
  ◌>>=◌ m f s = let (r, s') = m s in continue r f s'

  abbrev pub ◌>>◌ : Io E A → Io E B → Io E B
  m >> n = m >>= λ _. n

module _ {E F A : Type 0} where
  abbrev pub outcome_map_err : (E → F) → Outcome E A → Outcome F A
  outcome_map_err f (done a) = done a
  outcome_map_err f (failed e) = failed (f e)
  outcome_map_err f elapsed = elapsed

  -- `.map_err(f)`, and the conversion that `?` makes.
  abbrev pub with_err : (E → F) → Io E A → Io F A
  with_err f m s = let (r, s') = m s in (outcome_map_err f r, s')

  -- The value of a call whose error the code looks at or drops.
  abbrev pub as_result : Outcome E A → Outcome F (Result A E)
  as_result (done a) = done (ok a)
  as_result (failed e) = done (err e)
  as_result elapsed = elapsed

  abbrev pub attempt : Io E A → Io F (Result A E)
  attempt m s = let (r, s') = m s in (as_result r, s')

  -- `tokio::time::timeout`: `none` is `Elapsed`.
  abbrev pub timed : Outcome E A → Outcome F (Option (Result A E))
  timed (done a) = done (some (ok a))
  timed (failed e) = done (some (err e))
  timed elapsed = done none

  abbrev pub timeout : ℕ → Io E A → Io F (Option (Result A E))
  timeout ms m s =
      let (r, s') = m (record s { deadline = some ms }) in
      (timed r, record s' { deadline = s.deadline })
