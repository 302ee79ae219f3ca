-- ===== src/Database/Tx.antt =====
-- Database work: it reads and writes the tables, draws identifiers and may throw. What was written
-- before a throw is still there until `transactional` rolls it back.
use jungle_backend_challenge.Prelude.{ℕ, ◌+◌, Bool, String, none, some, if◌then◌else◌}
use jungle_backend_challenge.Prelude.Results.{ok, err}
use jungle_backend_challenge.Domain.Errors.{Outcome, Thrown, driver}
use jungle_backend_challenge.Domain.Decimal.{DecimalOps}
use jungle_backend_challenge.Database.Rows.{Db}

-- What the program calls and does not implement: decimal.js, `uuidv7` as the supply of the
-- identifiers in the order in which they are drawn, and SHA-256 in hexadecimal.
pub record Env (D : Type 0) : Type 0 where
  pub dec : DecimalOps D
  pub uuid : ℕ → String
  pub sha256 : String → String

-- `drawn` identifiers have been used so far; `now` is the clock, in microseconds.
pub record World : Type 0 where
  pub db : Db
  pub drawn : ℕ
  pub now : ℕ

abbrev pub Tx : Type 0 → Type 0
Tx A = World → Outcome A × World

module _ {A : Type 0} where
  unfoldable pub pure : A → Tx A
  pure a w = (ok a, w)

  unfoldable pub throw : Thrown → Tx A
  throw e w = (err e, w)

  unfoldable pub lift : Outcome A → Tx A
  lift r w = (r, w)

  -- a SELECT
  unfoldable pub reads : (Db → A) → Tx A
  reads f w = (ok (f w.db), w)

  -- `orm.em.transactional(work)`: a throw undoes what the work wrote, and passes on. Identifiers
  -- that were drawn stay drawn.
  unfoldable pub transactional : Tx A → Tx A
  transactional m w =
      let (r, w') = m w in elim r [ ok a ↦ (ok a, w') | err e ↦ (err e, record w' { db = w.db }) ]

  -- `try { … } catch (err) { … }`: the handler starts from what the body has written.
  unfoldable pub attempt : Tx A → (Thrown → Tx A) → Tx A
  attempt m h w = let (r, w') = m w in elim r [ ok a ↦ (ok a, w') | err e ↦ h e w' ]

-- an INSERT or UPDATE, which the constraints of the schema may refuse
unfoldable pub writes : (Db → Outcome Db) → Tx (Unit {0})
writes f w = elim (f w.db) [ ok db ↦ (ok tt, record w { db = db }) | err e ↦ (err e, w) ]

unfoldable pub clock : Tx ℕ
clock w = (ok w.now, w)

unfoldable pub draw : {D : Type 0} → Env D → Tx String
draw env w = (ok (env.uuid w.drawn), record w { drawn = w.drawn + 1 })

-- Opening this opens the other ways to build work too.
infixl 5 ◌>>=◌ ◌>>◌
unfoldable pub ◌>>=◌ : {A B : Type 0} → Tx A → (A → Tx B) → Tx B
unfolding pure throw lift reads writes clock draw
◌>>=◌ m f w = let (r, w') = m w in elim r [ ok a ↦ f a w' | err e ↦ (err e, w') ]

abbrev pub ◌>>◌ : {B : Type 0} → Tx (Unit {0}) → Tx B → Tx B
m >> k = m >>= λ _. k

-- The errors of the driver: the SQLSTATE and the constraint.
abbrev pub violation : String → String → Thrown
violation state constraint =
    driver
      (record { code = some state; sql_state = none; constraint = some constraint; message = none })

abbrev pub unique_violation : String → Thrown
unique_violation = violation "23505"

abbrev pub foreign_key_violation : String → Thrown
foreign_key_violation = violation "23503"

abbrev pub check_violation : String → Thrown
check_violation = violation "23514"

abbrev pub numeric_overflow : Thrown
numeric_overflow =
    driver (record { code = some "22003"; sql_state = none; constraint = none; message = none })

-- A guard in front of a write: the error if the test holds.
unfoldable pub refuse_if : {A : Type 0} → Bool → Thrown → Outcome A → Outcome A
refuse_if b e r = if b then err e else r
