-- ===== src/Migrations/Runs.antt =====
-- db/migrations.py: the ways in which one migration ends.
use pi_mobile_photobackup.Prelude.{
  ℕ, Text, Bool, true, Option, none, some, List, [], ◌∷◌, ◌≡◌, refl, sym, ap, subst, ◌∙◌, ◌⊎◌, inl,
  inr,
}
use pi_mobile_photobackup.Effects.{
  Error, Result, ok, raise, pure, throw, continue, ◌>>=◌, ◌>>◌, power_loss,
}
use pi_mobile_photobackup.Migrations.{
  Migration, Database, Connection, begins, inserts_meta, commits, rolls_back, Sqlite, durable,
  allowed, begin, commit, rollback, stamp, insert_meta, or_rollback, executed, execute, execute_all,
  migrate_body, migrate_guarded, migrate,
}
use pi_mobile_photobackup.Migrations.Statements.{
  Stated, out_of_power, failed, done, >>-Within, statement-Stated, Within, Inside, statement-Within,
  Within-weaken, allowed-some, allowed-none, allowed-Within,
}

module _ {S : Type 0} (sqlite : Sqlite S) where
  -- What the statements of a migration make of a schema.
  abbrev pub ran : List Text → S → Option S
  ran [] s = some s
  ran (sql ∷ rest) s = elim (sqlite.executes sql s) [ none ↦ none | some t ↦ ran rest t ]

  -- The database after a migration that was applied to `d`.
  abbrev pub IsMigrated : Migration → Database S → Database S → Type 0
  IsMigrated m d d' =
      (t : S) × (ran m.statements d.schema ≡ some t)
      × (d' ≡ stamp m.version (record d { schema = t }))

  -- What a database holds of schema_meta.
  abbrev meta_of : Database S → Bool × List ℕ
  meta_of d = (d.has_meta, d.applied)

  executed-some :
      (sql : Text) (c after : Connection S)
      → executed sqlite sql c ≡ some after
      → (after.begun ≡ c.begun)
        × (meta_of after.database ≡ meta_of c.database)
        × (sqlite.executes sql c.database.schema ≡ some after.database.schema)
  unfolding executed
  executed-some sql c after h = by (sqlite.executes sql c.database.schema) refl h
    where
      by :
          (o : Option S)
          → sqlite.executes sql c.database.schema ≡ o
          → elim o [
            | none ↦ none
            | some schema ↦ some (record c { database = record c.database { schema = schema } })
          ]
            ≡ some after
          → (after.begun ≡ c.begun)
            × (meta_of after.database ≡ meta_of c.database)
            × (sqlite.executes sql c.database.schema ≡ some after.database.schema)
      by none e h = cc
      by (some t) e h =
          let same : record c { database = record c.database { schema = t } } ≡ after = cc h in
          (
            ap (λ (x : Connection S). x.begun) (sym same),
            ap (λ (x : Connection S). meta_of x.database) (sym same),
            e ∙ ap (λ (x : Connection S). some x.database.schema) same,
          )

  execute_all-Within :
      (b : Database S) (versions : Bool × List ℕ) (sqls : List Text) (c : Connection S)
      → c.begun ≡ some b
      → meta_of c.database ≡ versions
      → Within b
          (Inside b (λ x. (meta_of x ≡ versions) × (ran sqls c.database.schema ≡ some x.schema)))
          (execute_all sqlite sqls c)
  unfolding execute_all pure execute
  execute_all-Within b versions [] c open_ same = (open_, (same, refl))
  execute_all-Within b versions (sql ∷ rest) c open_ same =
      >>-Within b
        (Inside b
          (λ x. (meta_of x ≡ versions) × (sqlite.executes sql c.database.schema ≡ some x.schema)))
        _ (execute sqlite sql) (execute_all sqlite rest) c
        (statement-Within b _ (executed sqlite sql) c open_ (λ left after h.
          let t = executed-some sql (record c { power = left }) after h in
          (t.0 ∙ open_, (t.1 ∙ same, t.2))))
        (λ t inside.
          Within-weaken b _ _ (execute_all sqlite rest t)
            (λ x r. (r.0, (r.1.0, rw (inside.1.1, ran) r.1.1)))
            (execute_all-Within b versions rest t inside.0 inside.1.0))

  -- Unless the power failed or SQLite refused the ROLLBACK, no transaction is open.
  abbrev pub IsClosed : Error → Connection S → Type 0
  IsClosed e c = (e ≡ power_loss) ⊎ ((c.begun ≡ none) ⊎ (sqlite.refuses rolls_back c.power ≡ true))

  -- How a migration of the database `d` ends: applied whole, or with nothing of it on the disk.
  abbrev pub Settled : Migration → Database S → Result (Unit {0}) × Connection S → Type 0
  Settled m d (ok u, c) = (c.begun ≡ none) × IsMigrated m d c.database
  Settled m d (raise e, c) = (durable c ≡ d) × IsClosed e c

  insert_meta-Within :
      (m : Migration) (d : Database S) (c : Connection S)
      → c.begun ≡ some d
      → IsMigrated m d (stamp m.version c.database)
      → Within d (Inside d (IsMigrated m d)) (insert_meta sqlite m.version c)
  unfolding insert_meta
  insert_meta-Within m d c open_ whole =
      allowed-Within sqlite inserts_meta (λ x. record x { database = stamp m.version x.database }) d
        (Inside d (IsMigrated m d)) c open_ (λ left. (open_, whole))

  commit-Within :
      (m : Migration) (d : Database S) (c : Connection S)
      → Inside d (IsMigrated m d) c
      → Within d (λ t. (t.begun ≡ none) × IsMigrated m d t.database) (commit sqlite c)
  unfolding commit
  commit-Within m d c inside =
      allowed-Within sqlite commits (λ x. record x { begun = none }) d
        (λ t. (t.begun ≡ none) × IsMigrated m d t.database) c inside.0 (λ left. (refl, inside.1))

  migrate_body-Within :
      (m : Migration) (d : Database S) (c : Connection S)
      → c.begun ≡ some d
      → c.database ≡ d
      → Within d (λ t. (t.begun ≡ none) × IsMigrated m d t.database) (migrate_body sqlite m c)
  unfolding migrate_body
  migrate_body-Within m d c open_ same =
      let Ran : Connection S → Type 0 =
        Inside d
          (λ x. (meta_of x ≡ meta_of d) × (ran m.statements c.database.schema ≡ some x.schema)) in
      >>-Within d Ran _ (execute_all sqlite m.statements)
        (insert_meta sqlite m.version >> commit sqlite) c
        (execute_all-Within d (meta_of d) m.statements c open_ (ap (λ x. meta_of x) same))
        (λ t inside.
          let whole : IsMigrated m d (stamp m.version t.database) = (
            t.database.schema,
            subst (λ x. ran m.statements x.schema ≡ some t.database.schema) same inside.1.1,
            λ i. stamp m.version (record {
              schema = t.database.schema;
              has_meta = (inside.1.0 i).0;
              applied = (inside.1.0 i).1;
            }),
          ) in
          >>-Within d (Inside d (IsMigrated m d)) _ (insert_meta sqlite m.version) (commit sqlite) t
            (insert_meta-Within m d t inside.0 whole) (commit-Within m d))

  rollback-Settled :
      (m : Migration) (d : Database S) (e : Error) (c : Connection S)
      → c.begun ≡ some d
      → Settled m d ((rollback sqlite >> throw e) c)
  unfolding rollback ◌>>=◌ throw
  rollback-Settled m d e c open_ = by (rollback sqlite c) (
      statement-Stated
        (allowed sqlite rolls_back (λ x. record x { database = durable x; begun = none })) c)
    where
      by :
          (r : Result (Unit {0}) × Connection S)
          → Stated
              (allowed sqlite rolls_back (λ x. record x { database = durable x; begun = none }))
              c
              r
          → Settled m d (continue {B = Unit {0}} r (λ u. throw e))
      by _ out_of_power = (rw (open_, durable) refl, inl refl)
      by _ (failed left h) = (
        rw (open_, durable) refl,
        inr (
            inr (
              allowed-none sqlite rolls_back (λ x. record x { database = durable x; begun = none })
                (record c { power = left }) h)),
      )
      by _ (done left after h) =
          let same : record c { power = left; database = durable c; begun = none } ≡ after =
            allowed-some sqlite rolls_back (λ x. record x { database = durable x; begun = none })
              (record c { power = left }) after h in
          (
            ap durable (sym same) ∙ rw (open_, durable) refl,
            inr (inl (ap (λ (x : Connection S). x.begun) (sym same))),
          )

  or_rollback-Settled :
      (m : Migration) (d : Database S) (r : Result (Unit {0}) × Connection S)
      → Within d (λ t. (t.begun ≡ none) × IsMigrated m d t.database) r
      → Settled m d (or_rollback sqlite r)
  unfolding or_rollback
  or_rollback-Settled m d (ok u, c) h = h
  or_rollback-Settled m d (raise power_loss, c) h = (rw (h, durable) refl, inl refl)
  or_rollback-Settled m d (raise e, c) h = rollback-Settled m d e c h

  pub migrate-Settled :
      (m : Migration) (c : Connection S)
      → c.begun ≡ none
      → Settled m c.database (migrate sqlite m c)
  unfolding migrate begin migrate_guarded ◌>>=◌
  migrate-Settled m c closed =
      by (begin sqlite c)
        (statement-Stated (allowed sqlite begins (λ x. record x { begun = some x.database })) c)
    where
      by :
          (r : Result (Unit {0}) × Connection S)
          → Stated (allowed sqlite begins (λ x. record x { begun = some x.database })) c r
          → Settled m c.database (continue r (λ u. migrate_guarded sqlite m))
      by _ out_of_power = (rw (closed, durable) refl, inl refl)
      by _ (failed left h) = (rw (closed, durable) refl, inr (inl closed))
      by _ (done left after h) =
          let same : record c { power = left; begun = some c.database } ≡ after =
            allowed-some sqlite begins (λ x. record x { begun = some x.database })
              (record c { power = left }) after h in
          or_rollback-Settled m c.database (migrate_body sqlite m after) (
            migrate_body-Within m c.database after (ap (λ (x : Connection S). x.begun) (sym same))
              (ap (λ (x : Connection S). x.database) (sym same)))
