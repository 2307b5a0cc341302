-- ===== src/Migrations/Again.antt =====
-- db/migrations.py: a second run of the migrations.
use pi_mobile_photobackup.Prelude.{
  ℕ, true, none, List, [], ◌∷◌, ◌≡◌, ◌≤◌, refl, sym, ap, ◌∙◌, false, subst, arith, inl, inr,
  Bool-cases, All, leb,
}
use pi_mobile_photobackup.Effects.{Result, ok, raise, pure, throw, gets, continue, ◌>>=◌}
use pi_mobile_photobackup.Migrations.{
  Migration, Database, Connection, Sqlite, with_meta, ensure_meta, stamp, greatest, sort_migrations,
  has_duplicates, current_schema_version, migrate, migrate_from, apply_migrations,
}
use pi_mobile_photobackup.Migrations.Order.{newer_than}
use pi_mobile_photobackup.Migrations.Safety.{
  AreMigrated, ConcludedWithMeta, apply_migrations-Concluded,
}

All-trans :
    (v w : ℕ) (ms : List Migration)
    → v ≤ w
    → All (λ m. m.version ≤ v) ms
    → All (λ m. m.version ≤ w) ms
All-trans v w [] le h = tt
All-trans v w (m ∷ ms) le h = (omega (arith, le, h.0), All-trans v w ms le h.1)

module _ {S : Type 0} (sqlite : Sqlite S) where
  -- A loop that returns has reached every version of its list.
  migrate_from-reaches :
      (ms : List Migration) (current : ℕ) (c c' : Connection S) (v : ℕ)
      → migrate_from sqlite ms current c ≡ (ok v, c')
      → (current ≤ v) × All (λ m. m.version ≤ v) ms
  unfolding migrate_from pure ◌>>=◌
  migrate_from-reaches [] current c c' v h = let e : current ≡ v = cc h in (omega (arith, e), tt)
  migrate_from-reaches (m ∷ ms) current c c' v h = elim (Bool-cases (leb m.version current)) [
    | inl old ↦
        let t = migrate_from-reaches ms current c c' v (rw (old, migrate_from) at h) in
        (t.0, (ground (arith, old, t.0), t.1))
    | inr new ↦
        let t =
          next (migrate sqlite m c) (rw (new, migrate_from) at h)
            (λ d g. migrate_from-reaches ms m.version d c' v g) in
        (ground (arith, new, t.0), t)
  ]
    where
      next :
          (r : Result (Unit {0}) × Connection S)
          → continue r (λ u. migrate_from sqlite ms m.version) ≡ (ok v, c')
          → ((d : Connection S)
              → migrate_from sqlite ms m.version d ≡ (ok v, c')
              → (m.version ≤ v) × All (λ n. n.version ≤ v) ms)
          → (m.version ≤ v) × All (λ n. n.version ≤ v) ms
      next (ok u, d) g rest = rest d g
      next (raise e, d) g rest = cc

  migrate_from-done :
      (ms : List Migration) (v : ℕ) (c : Connection S)
      → All (λ m. m.version ≤ v) ms
      → migrate_from sqlite ms v c ≡ (ok v, c)
  unfolding migrate_from pure
  migrate_from-done [] v c h = refl
  migrate_from-done (m ∷ ms) v c h =
      let old : leb m.version v ≡ true = ground (arith, h.0) in
      rw (old, migrate_from) (migrate_from-done ms v c h.1)

  AreMigrated-has_meta :
      (ms : List Migration) (d d' : Database S)
      → AreMigrated sqlite ms d d'
      → d'.has_meta ≡ d.has_meta
  unfolding stamp
  AreMigrated-has_meta [] d d' same = ap (λ (x : Database S). x.has_meta) same
  AreMigrated-has_meta (m ∷ ms) d d' t =
      AreMigrated-has_meta ms t.0 d' t.2 ∙ ap (λ (x : Database S). x.has_meta) t.1.2

  with_meta-has_meta : (d : Database S) → (with_meta d).has_meta ≡ true
  unfolding with_meta
  with_meta-has_meta d = elim (Bool-cases d.has_meta) [
    | inl there ↦ rw (there, with_meta) refl
    | inr missing ↦ rw (missing, with_meta) refl
  ]

  ensure_meta-there :
      (c : Connection S) → c.database.has_meta ≡ true → ensure_meta sqlite c ≡ (ok tt, c)
  unfolding ensure_meta
  ensure_meta-there c there = rw (there, ensure_meta) refl

  -- Where the table is and every version was reached, nothing is done.
  apply_migrations-done :
      (migrations : List Migration) (c : Connection S)
      → has_duplicates (sort_migrations migrations) ≡ false
      → c.database.has_meta ≡ true
      → All (λ m. m.version ≤ greatest c.database.applied) (sort_migrations migrations)
      → apply_migrations sqlite migrations c ≡ (ok (greatest c.database.applied), c)
  unfolding apply_migrations current_schema_version gets ◌>>=◌
  apply_migrations-done migrations c once there reached =
      rw (once, apply_migrations)
        (ap
            (λ (r : Result (Unit {0}) × Connection S).
              continue (continue r (λ u. gets (λ t. greatest t.database.applied)))
                (migrate_from sqlite (sort_migrations migrations)))
            (ensure_meta-there c there)
          ∙ migrate_from-done (sort_migrations migrations) (greatest c.database.applied) c reached)

  -- What a run that returned has reached.
  apply_migrations-reaches :
      (migrations : List Migration) (c c' : Connection S) (v : ℕ)
      → has_duplicates (sort_migrations migrations) ≡ false
      → apply_migrations sqlite migrations c ≡ (ok v, c')
      → All (λ m. m.version ≤ v) (sort_migrations migrations)
  unfolding apply_migrations current_schema_version gets ◌>>=◌
  apply_migrations-reaches migrations c c' v once h =
      by (ensure_meta sqlite c) (rw (once, apply_migrations) at h)
    where
      by :
          (r : Result (Unit {0}) × Connection S)
          → continue
              (continue r (λ u. gets (λ t. greatest t.database.applied)))
              (migrate_from sqlite (sort_migrations migrations))
            ≡ (ok v, c')
          → All (λ m. m.version ≤ v) (sort_migrations migrations)
      by (ok u, t) g =
          (migrate_from-reaches (sort_migrations migrations) (greatest t.database.applied) t c' v
            g).1
      by (raise e, t) g = cc

  -- If no transaction was open and `apply_migrations` returned, a second call with the same
  -- migrations returns the same version and changes nothing.
  pub apply_migrations-again :
      (migrations : List Migration) (c c' : Connection S) (v : ℕ)
      → c.begun ≡ none
      → apply_migrations sqlite migrations c ≡ (ok v, c')
      → apply_migrations sqlite migrations c' ≡ (ok v, c')
  unfolding apply_migrations ◌>>=◌ throw
  apply_migrations-again migrations c c' v closed h =
      let todo =
        newer_than (greatest (with_meta c.database).applied) (sort_migrations migrations) in
      let ended : ConcludedWithMeta sqlite todo c.database (ok v, c') =
        subst (ConcludedWithMeta sqlite todo c.database) h
          (apply_migrations-Concluded sqlite migrations c closed) in
      elim (Bool-cases (has_duplicates (sort_migrations migrations))) [
        | inl twice ↦ absurd (cc (rw (twice, apply_migrations) at h))
        | inr once ↦
            let there =
              AreMigrated-has_meta todo (with_meta c.database) c'.database ended.1
              ∙ with_meta-has_meta c.database in
            let reached = apply_migrations-reaches migrations c c' v once h in
            apply_migrations-done migrations c' once there
              (subst (λ w. All (λ m. m.version ≤ w) (sort_migrations migrations)) ended.2 reached)
            ∙ ap (λ w. (ok w, c')) (sym ended.2)
      ]
