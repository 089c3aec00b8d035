-- ===== src/Database/Run.antt =====
-- Services that change the database step by step, without a transaction: what was written before an
-- error stays. An error is one that the service throws, or one of a query.
use proxora.Common.{Bool, true, false, Option, none, some, ◌≡◌, refl, ◌⊎◌, inl, inr}
use proxora.Errors.{AppError}
use proxora.Database.{Database}

pub data Failure : Type 0 where
  thrown : AppError → Failure
  query : Failure

pub data Outcome (A : Type 0) : Type 0 where
  done : A → Outcome A
  failed : Failure → Outcome A

abbrev pub Run : Type 0 → Type 0
Run A = Outcome A × Database

unfoldable pub and_then : {A B : Type 0} → Run A → (A → Database → Run B) → Run B
and_then (done a, db) next = next a db
and_then (failed f, db) next = (failed f, db)

unfoldable pub found : {A : Type 0} → Option A → Failure → Database → Run A
found none f db = (failed f, db)
found (some a) f db = (done a, db)

-- `if (!test) throw ...`
unfoldable pub require : Bool → Failure → Database → Run (Unit {0})
require true f db = (done tt, db)
require false f db = (failed f, db)

-- What each step keeps, the whole keeps.
pub and_then-keeps {κ} :
    {A B : Type 0} (P : Database → Type κ) (r : Run A) (next : A → Database → Run B)
    → P r.1
    → ((a : A) (db : Database) → P db → P (next a db).1)
    → P (and_then r next).1
unfolding and_then
and_then-keeps P (done a, db) next start step = step a db start
and_then-keeps P (failed f, db) next start step = start

pub found-keeps {κ} :
    {A B : Type 0} (P : Database → Type κ) (o : Option A) (f : Failure) (db : Database)
    (next : A → Database → Run B)
    → P db
    → ((a : A) → o ≡ some a → P (next a db).1)
    → P (and_then (found o f db) next).1
unfolding and_then found
found-keeps P none f db next start step = start
found-keeps P (some a) f db next start step = step a refl

pub require-keeps {κ} :
    {B : Type 0} (P : Database → Type κ) (b : Bool) (f : Failure) (db : Database)
    (next : Unit {0} → Database → Run B)
    → P db
    → (b ≡ true → P (next tt db).1)
    → P (and_then (require b f db) next).1
unfolding and_then require
require-keeps P true f db next start step = step refl
require-keeps P false f db next start step = start

pub require-cases :
    {B : Type 0} (b : Bool) (f : Failure) (db : Database) (next : Unit {0} → Database → Run B)
    → (and_then (require b f db) next ≡ (failed f, db))
      ⊎ ((b ≡ true) × (and_then (require b f db) next ≡ next tt db))
unfolding and_then require
require-cases true f db next = inr (refl, refl)
require-cases false f db next = inl refl
