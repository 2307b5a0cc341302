-- ===== src/Migrations/Safety.antt =====
-- db/migrations.py: the migrations of a database in sequence, and how a run of them ends.
use pi_mobile_photobackup.Prelude.{
  ℕ, Bool, true, false, none, List, [], ◌∷◌, ◌++◌, ◌≡◌, ◌<◌, refl, sym, ap, subst, ◌∙◌, arith, ◌⊎◌,
  inl, inr, Bool-cases, max, leb, ltb, if◌then◌else◌,
}
use pi_mobile_photobackup.Effects.{Result, ok, raise, pure, throw, gets, continue, ◌>>=◌}
use pi_mobile_photobackup.Migrations.{
  Migration, Database, Connection, Sqlite, creates_meta, durable, greatest, sort_migrations,
  has_duplicates, stamp, current_schema_version, migrate, migrate_from, apply_migrations, allowed,
  statement, with_meta, ensure_meta,
}
use pi_mobile_photobackup.Migrations.Statements.{
  Stated, out_of_power, failed, done, statement-Stated, allowed-some,
}
use pi_mobile_photobackup.Migrations.Runs.{IsMigrated, IsClosed, Settled, migrate-Settled}
use pi_mobile_photobackup.Migrations.Order.{
  IsAscending, sort_migrations-IsOrdered, ordered-IsAscending, newer_than, newer_than_below,
}

greatest-snoc : (vs : List ℕ) (v : ℕ) → greatest (vs ++ v ∷ []) ≡ max (greatest vs) v
unfolding greatest
greatest-snoc [] v = omega arith
greatest-snoc (w ∷ vs) v = omega (arith, greatest-snoc vs v)

module _ {S : Type 0} (sqlite : Sqlite S) where
  -- The database after the migrations, applied one after the other.
  abbrev pub AreMigrated : List Migration → Database S → Database S → Type 0
  AreMigrated [] d d' = d' ≡ d
  AreMigrated (m ∷ ms) d d' = (e : Database S) × IsMigrated sqlite m d e × AreMigrated ms e d'

  -- What the loop applies.
  abbrev pending_from : ℕ → List Migration → List Migration
  pending_from current [] = []
  pending_from current (m ∷ ms) =
      if leb m.version current then pending_from current ms else m ∷ pending_from m.version ms

  -- How the migrations `todo` of the database `d` end.
  abbrev pub Concluded : List Migration → Database S → Result ℕ × Connection S → Type 0
  Concluded todo d (ok v, c) =
      (c.begun ≡ none) × AreMigrated todo d c.database × (v ≡ greatest c.database.applied)
  Concluded todo d (raise e, c) =
      (before after : List Migration) × (todo ≡ before ++ after)
      × AreMigrated before d (durable c)
      × IsClosed sqlite e c

  Concluded-next :
      (m : Migration) (todo : List Migration) (d e : Database S) (r : Result ℕ × Connection S)
      → IsMigrated sqlite m d e
      → Concluded todo e r
      → Concluded (m ∷ todo) d r
  Concluded-next m todo d e (ok v, c) first h = (h.0, (e, first, h.1), h.2)
  Concluded-next m todo d e (raise x, c) first h =
      (m ∷ h.0, h.1, ap (λ l. m ∷ l) h.2, (e, first, h.3), h.4)

  migrated_version :
      (m : Migration) (d e : Database S)
      → IsMigrated sqlite m d e
      → greatest d.applied < m.version
      → m.version ≡ greatest e.applied
  unfolding stamp
  migrated_version m d e t newer = omega (
    arith,
    ap (λ (x : Database S). greatest x.applied) t.2,
    greatest-snoc d.applied m.version,
    newer,
  )

  migrate_from-Concluded :
      (ms : List Migration) (current : ℕ) (c : Connection S)
      → c.begun ≡ none
      → current ≡ greatest c.database.applied
      → Concluded (pending_from current ms) c.database (migrate_from sqlite ms current c)
  unfolding migrate_from pure
  migrate_from-Concluded [] current c closed at = (closed, refl, at)
  migrate_from-Concluded (m ∷ ms) current c closed at = elim (Bool-cases (leb m.version current)) [
    | inl old ↦ rw (old, migrate_from) (migrate_from-Concluded ms current c closed at)
    | inr new ↦
        rw (new, migrate_from)
          (next (migrate sqlite m c) (migrate-Settled sqlite m c closed) (λ t done whole.
            migrate_from-Concluded ms m.version t done
              (migrated_version m c.database t.database whole (ground (arith, new, at)))))
  ]
    where
      next :
          (r : Result (Unit {0}) × Connection S)
          → Settled sqlite m c.database r
          → ((t : Connection S)
              → t.begun ≡ none
              → IsMigrated sqlite m c.database t.database
              → Concluded
                  (pending_from m.version ms)
                  t.database
                  (migrate_from sqlite ms m.version t))
          → Concluded
              (m ∷ pending_from m.version ms)
              c.database
              (continue r (λ u. migrate_from sqlite ms m.version))
      next (ok u, t) settled rest =
          Concluded-next m (pending_from m.version ms) c.database t.database _ settled.1
            (rest t settled.0 settled.1)
      next (raise e, t) settled rest =
          ([], m ∷ pending_from m.version ms, refl, settled.0, settled.1)

module _ {S : Type 0} (sqlite : Sqlite S) where
  pending_from-newer_than :
      (ms : List Migration) (v : ℕ) → IsAscending ms → pending_from sqlite v ms ≡ newer_than v ms
  pending_from-newer_than [] v h = refl
  pending_from-newer_than (m ∷ ms) v h = elim (Bool-cases (leb m.version v)) [
    | inl old ↦
        let out : ltb v m.version ≡ false = ground (arith, old) in
        rw (old, out) (pending_from-newer_than ms v h.1)
    | inr new ↦
        let lt : v < m.version = ground (arith, new) in
        let inside : ltb v m.version ≡ true = ground (arith, new) in
        rw (new, inside)
          (ap (λ l. m ∷ l)
            (pending_from-newer_than ms m.version h.1
              ∙ sym (newer_than_below v m.version ms lt h.0)))
  ]

  -- How the creation of schema_meta ends.
  abbrev pub Ensured : Connection S → Result (Unit {0}) × Connection S → Type 0
  Ensured c (ok u, t) = (t.begun ≡ c.begun) × (t.database ≡ with_meta c.database)
  Ensured c (raise e, t) = (t.begun ≡ c.begun) × (t.database ≡ c.database)

  with_meta-there : (d : Database S) → d.has_meta ≡ true → with_meta d ≡ d
  unfolding with_meta
  with_meta-there d there = rw (there, with_meta) refl

  pub ensure_meta-Ensured : (c : Connection S) → Ensured c (ensure_meta sqlite c)
  unfolding ensure_meta
  ensure_meta-Ensured c = at c.database.has_meta refl
    where
      by :
          (r : Result (Unit {0}) × Connection S)
          → Stated
              (allowed sqlite creates_meta (λ x. record x { database = with_meta x.database }))
              c
              r
          → Ensured c r
      by _ out_of_power = (refl, refl)
      by _ (failed left h) = (refl, refl)
      by _ (done left after h) =
          let same : record c { power = left; database = with_meta c.database } ≡ after =
            allowed-some sqlite creates_meta (λ x. record x { database = with_meta x.database })
              (record c { power = left }) after h in
          (
            ap (λ (x : Connection S). x.begun) (sym same),
            ap (λ (x : Connection S). x.database) (sym same),
          )

      at :
          (b : Bool)
          → c.database.has_meta ≡ b
          → Ensured c (
              if b
              then (ok tt, c)
              else statement
                  (allowed sqlite creates_meta (λ x. record x { database = with_meta x.database }))
                  c)
      at true there = (refl, sym (with_meta-there c.database there))
      at false missing =
          by
            (statement
              (allowed sqlite creates_meta (λ x. record x { database = with_meta x.database })) c)
            (statement-Stated
              (allowed sqlite creates_meta (λ x. record x { database = with_meta x.database })) c)

  -- How the migrations `todo` of the database `d` end, schema_meta included: nothing was done, or
  -- they start from the database with schema_meta.
  abbrev pub ConcludedWithMeta : List Migration → Database S → Result ℕ × Connection S → Type 0
  ConcludedWithMeta todo d (ok v, c) = Concluded sqlite todo (with_meta d) (ok v, c)
  ConcludedWithMeta todo d (raise e, c) =
      ((c.begun ≡ none) × (c.database ≡ d)) ⊎ Concluded sqlite todo (with_meta d) (raise e, c)

  Concluded-with_meta :
      (todo : List Migration) (d : Database S) (r : Result ℕ × Connection S)
      → Concluded sqlite todo (with_meta d) r
      → ConcludedWithMeta todo d r
  Concluded-with_meta todo d (ok v, c) h = h
  Concluded-with_meta todo d (raise e, c) h = inr h

  migrate_from-ascending :
      (migrations : List Migration) (c : Connection S)
      → c.begun ≡ none
      → has_duplicates (sort_migrations migrations) ≡ false
      → Concluded sqlite
          (newer_than (greatest c.database.applied) (sort_migrations migrations))
          c.database
          (migrate_from sqlite (sort_migrations migrations) (greatest c.database.applied) c)
  migrate_from-ascending migrations c closed once =
      let ordered = sort_migrations migrations in
      let current = greatest c.database.applied in
      subst (λ l. Concluded sqlite l c.database (migrate_from sqlite ordered current c))
        (pending_from-newer_than ordered current
          (ordered-IsAscending ordered once (sort_migrations-IsOrdered migrations)))
        (migrate_from-Concluded sqlite ordered current c closed refl)

  -- Let no transaction be open on the connection, and call newer the migrations with a version
  -- above the greatest one applied, or above 0 if there is none, in the order of their versions.
  -- If `apply_migrations` returns, no transaction is open, exactly the newer migrations have been
  -- applied to the database, one after the other, with all their statements and their rows in
  -- schema_meta, and the returned version is the greatest one applied. If it raises, or the power
  -- fails before any statement, either nothing was done and no transaction is open, or the
  -- database that is found afterwards is the one before with the first some of the newer
  -- migrations applied, each whole; in this case no transaction is open, unless the power failed
  -- or SQLite refused the ROLLBACK. A table schema_meta that is missing is created first, and is
  -- empty then.
  pub apply_migrations-Concluded :
      (migrations : List Migration) (c : Connection S)
      → c.begun ≡ none
      → ConcludedWithMeta
          (newer_than (greatest (with_meta c.database).applied) (sort_migrations migrations))
          c.database
          (apply_migrations sqlite migrations c)
  unfolding apply_migrations current_schema_version gets ◌>>=◌ throw
  apply_migrations-Concluded migrations c closed =
      elim (Bool-cases (has_duplicates (sort_migrations migrations))) [
        | inl twice ↦ rw (twice, apply_migrations) (inl (closed, refl))
        | inr once ↦
            rw (once, apply_migrations) (by once (ensure_meta sqlite c) (ensure_meta-Ensured c))
      ]
    where
      by :
          has_duplicates (sort_migrations migrations) ≡ false
          → (r : Result (Unit {0}) × Connection S) → Ensured c r
          → ConcludedWithMeta
              (newer_than (greatest (with_meta c.database).applied) (sort_migrations migrations))
              c.database
              (continue
                (continue r (λ u. gets (λ t. greatest t.database.applied)))
                (migrate_from sqlite (sort_migrations migrations)))
      by once (raise e, t) h = inl (h.0 ∙ closed, h.1)
      by once (ok u, t) h = Concluded-with_meta _ c.database _ (
          subst
            (λ d.
              Concluded sqlite (newer_than (greatest d.applied) (sort_migrations migrations)) d
                (migrate_from sqlite (sort_migrations migrations) (greatest t.database.applied) t))
            h.1 (migrate_from-ascending migrations t (h.0 ∙ closed) once))
