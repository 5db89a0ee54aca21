-- ===== src/Session.antt =====
-- A SQLAlchemy session (db/session.py): the rows as the session sees them, and the rows as last
-- committed. A request that raises leaves what it committed; the rest is rolled back at its end.
pub mod Rows
pub mod Keeps
pub mod Ledger
pub mod Keys
pub mod Profile
pub mod Leads
use stashd.Prelude.{[], if◌then◌else◌}
use stashd.Domain.Errors.{ErrorCode, Result, ok, err, StashError}
use stashd.Models.{Db}
use Rows.{constraints_hold}

pub record Session : Type 0 where
  pub committed : Db
  pub working : Db

abbrev pub Exec : Type 0 → Type 0
Exec A = Session → Result A × Session

abbrev pub continue : {A B : Type 0} → Result A × Session → (A → Exec B) → Result B × Session
continue (ok a, s) f = f a s
continue (err e, s) f = (err e, s)

infixl 5 ◌>>=◌ ◌>>◌
unfoldable pub ◌>>=◌ : {A B : Type 0} → Exec A → (A → Exec B) → Exec B
◌>>=◌ m f s = continue (m s) f

abbrev pub ◌>>◌ : {A B : Type 0} → Exec A → Exec B → Exec B
m >> n = m >>= λ _. n

unfoldable pub pure : {A : Type 0} → A → Exec A
pure a s = (ok a, s)

unfoldable pub lift : {A : Type 0} → Result A → Exec A
lift r s = (r, s)

-- Reading and changing the rows as the session sees them.
unfoldable pub reads : {A : Type 0} → (Db → A) → Exec A
reads g s = (ok (g s.working), s)

unfoldable pub writes : (Db → Db) → Exec (Unit {0})
writes g s = (ok tt, record s { working = g s.working })

-- `session.rollback()`, which also ends a request's session.
abbrev pub rollback : Session → Session
rollback s = record s { working = s.committed }

-- `session.commit()`: a row that breaks a table's constraint raises, and undoes the session.
unfoldable pub commit : Exec (Unit {0})
commit s =
    if constraints_hold s.working
    then (ok tt, record s { committed = s.working })
    else (err (record { code = ErrorCode.internal; details = [] }), rollback s)

-- The state of the database after a request.
unfoldable pub after : {A : Type 0} → Exec A → Db → Db
after m db = (m (record { committed = db; working = db })).1.committed

unfoldable pub outcome : {A : Type 0} → Exec A → Db → Result A
outcome m db = (m (record { committed = db; working = db })).0
