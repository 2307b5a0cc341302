-- ===== src/Migrations.antt =====
-- db/migrations.py: the migrations of a database, each in a transaction. What a statement makes of the
-- schema, and which statements fail, is SQLite's: a parameter, over a schema of any type. Versions are
-- natural numbers, and of the rows of schema_meta only these are kept. The power may fail before any
-- statement. A statement that fails leaves the transaction as it is.
use pi_mobile_photobackup.Prelude.{
  ℕ, zero, suc, Text, Bool, true, false, ◌||◌, Option, none, some, List, [], ◌∷◌, ◌++◌, max, any_p,
  leb, ltb, ◌==◌, if◌then◌else◌,
}
use pi_mobile_photobackup.Effects.{
  Error, Result, ok, raise, Exec, pure, throw, gets, ◌>>=◌, ◌>>◌, sqlite_error, power_loss,
  value_error,
}
pub mod Runs
pub mod Again
pub mod Safety
pub mod Statements
pub mod Order

pub record Migration : Type 0 where
  pub version : ℕ
  pub name : Text
  pub statements : List Text

pub record Database (S : Type 0) : Type 0 where
  pub schema : S
  pub has_meta : Bool
  pub applied : List ℕ

-- A connection: the database as it sees it, and as it was when the open transaction began.
pub record Connection (S : Type 0) : Type 0 where
  pub database : Database S
  pub begun : Option (Database S)
  pub power : ℕ

-- What is found when the database is opened again.
unfoldable pub durable : {S : Type 0} → Connection S → Database S
durable c = elim c.begun [ none ↦ c.database | some d ↦ d ]

-- The statements that the code has of its own.
pub data Control : Type 0 where
  creates_meta begins inserts_meta commits rolls_back : Control

-- What SQLite makes of a schema by the text of a statement, or that it fails; and whether it fails
-- on a statement of the code's own, where `power` is left.
pub record Sqlite (S : Type 0) : Type 0 where
  pub executes : Text → S → Option S
  pub refuses : Control → ℕ → Bool

-- `CREATE TABLE IF NOT EXISTS schema_meta`
unfoldable pub with_meta : {S : Type 0} → Database S → Database S
with_meta d = if d.has_meta then d else record d { has_meta = true; applied = [] }

-- `SELECT MAX(schema_version)`, or 0.
unfoldable pub greatest : List ℕ → ℕ
greatest [] = 0
greatest (v ∷ vs) = max v (greatest vs)

unfoldable pub insert_migration : Migration → List Migration → List Migration
insert_migration m [] = m ∷ []
insert_migration m (n ∷ ns) =
    let later = insert_migration m ns in if leb m.version n.version then m ∷ n ∷ ns else n ∷ later

unfoldable pub sort_migrations : List Migration → List Migration
unfolding insert_migration
sort_migrations [] = []
sort_migrations (m ∷ ms) = insert_migration m (sort_migrations ms)

unfoldable pub has_duplicates : List Migration → Bool
has_duplicates [] = false
has_duplicates (m ∷ ms) = any_p (λ n. n.version == m.version) ms || has_duplicates ms

module _ {S : Type 0} where
  -- A statement, by what it makes of the connection's database and transaction.
  unfoldable pub statement : (Connection S → Option (Connection S)) → Exec (Connection S) (Unit {0})
  statement f c = elim c.power [
    | zero ↦ (raise power_loss, c)
    | suc left ↦ elim (f (record c { power = left })) [
      | none ↦ (raise sqlite_error, record c { power = left })
      | some after ↦ (ok tt, after)
    ]
  ]

  -- The row of schema_meta.
  unfoldable pub stamp : ℕ → Database S → Database S
  stamp version d = record d { applied = d.applied ++ version ∷ [] }

module _ {S : Type 0} (sqlite : Sqlite S) where
  -- A statement of the code's own, unless SQLite refuses it.
  unfoldable pub allowed :
      Control → (Connection S → Connection S) → Connection S → Option (Connection S)
  allowed control f c = if sqlite.refuses control c.power then none else some (f c)

  unfoldable pub begin : Exec (Connection S) (Unit {0})
  unfolding statement allowed
  begin = statement (allowed begins (λ c. record c { begun = some c.database }))

  unfoldable pub commit : Exec (Connection S) (Unit {0})
  unfolding statement allowed
  commit = statement (allowed commits (λ c. record c { begun = none }))

  unfoldable pub rollback : Exec (Connection S) (Unit {0})
  unfolding statement allowed durable
  rollback = statement (allowed rolls_back (λ c. record c { database = durable c; begun = none }))

  unfoldable pub insert_meta : ℕ → Exec (Connection S) (Unit {0})
  unfolding statement allowed stamp
  insert_meta version =
      statement (allowed inserts_meta (λ c. record c { database = stamp version c.database }))

  -- Where the table exists, nothing is written.
  unfoldable pub ensure_meta : Exec (Connection S) (Unit {0})
  unfolding statement allowed with_meta
  ensure_meta c =
      let create = allowed creates_meta (λ c. record c { database = with_meta c.database }) in
      if c.database.has_meta then (ok tt, c) else statement create c

  unfoldable pub current_schema_version : Exec (Connection S) ℕ
  unfolding ensure_meta greatest gets ◌>>=◌
  current_schema_version = ensure_meta >> gets (λ c. greatest c.database.applied)

  -- `except Exception: ROLLBACK; raise`; a loss of power is no exception.
  unfoldable pub or_rollback : Result (Unit {0}) × Connection S → Result (Unit {0}) × Connection S
  unfolding rollback ◌>>=◌ throw
  or_rollback (ok u, c) = (ok u, c)
  or_rollback (raise power_loss, c) = (raise power_loss, c)
  or_rollback (raise e, c) = (rollback >> throw e) c

  unfoldable pub executed : Text → Connection S → Option (Connection S)
  executed sql c = elim (sqlite.executes sql c.database.schema) [
    | none ↦ none
    | some schema ↦ some (record c { database = record c.database { schema = schema } })
  ]

  unfoldable pub execute : Text → Exec (Connection S) (Unit {0})
  unfolding statement executed
  execute sql = statement (executed sql)

  unfoldable pub execute_all : List Text → Exec (Connection S) (Unit {0})
  unfolding execute ◌>>=◌ pure
  execute_all [] = pure tt
  execute_all (sql ∷ rest) = execute sql >> execute_all rest

  unfoldable pub migrate_body : Migration → Exec (Connection S) (Unit {0})
  unfolding execute_all insert_meta commit ◌>>=◌
  migrate_body m = do execute_all m.statements; insert_meta m.version; commit

  unfoldable pub migrate_guarded : Migration → Exec (Connection S) (Unit {0})
  unfolding migrate_body or_rollback
  migrate_guarded m c = or_rollback (migrate_body m c)

  unfoldable pub migrate : Migration → Exec (Connection S) (Unit {0})
  unfolding begin migrate_guarded ◌>>=◌
  migrate m = begin >> migrate_guarded m

  -- The loop, from the current version on.
  unfoldable pub migrate_from : List Migration → ℕ → Exec (Connection S) ℕ
  unfolding migrate ◌>>=◌ pure
  migrate_from [] current = pure current
  migrate_from (m ∷ ms) current =
      let skipped = migrate_from ms current in
      let applied = migrate m >> migrate_from ms m.version in
      if leb m.version current then skipped else applied

  unfoldable pub apply_migrations : List Migration → Exec (Connection S) ℕ
  unfolding sort_migrations has_duplicates migrate_from current_schema_version ◌>>=◌ throw
  apply_migrations migrations =
      let ordered = sort_migrations migrations in
      if has_duplicates ordered
      then throw value_error
      else current_schema_version >>= migrate_from ordered
