-- ===== src/Migrations/Statements.antt =====
-- How a statement of SQLite ends: with the power gone, with an error, or done.
use pi_mobile_photobackup.Prelude.{
  ℕ, zero, suc, Option, none, some, ◌≡◌, refl, subst, true, Bool-cases, inl, inr,
}
use pi_mobile_photobackup.Prelude.Maybe.{eq_of_some}
use pi_mobile_photobackup.Effects.{
  Result, ok, raise, Exec, continue, ◌>>=◌, ◌>>◌, sqlite_error, power_loss,
}
use pi_mobile_photobackup.Migrations.{Database, Connection, Control, Sqlite, statement, allowed}

module _ {S : Type 0} where
  -- How a statement ends.
  pub data Stated (f : Connection S → Option (Connection S)) (c : Connection S)
      : Result (Unit {0}) × Connection S → Type 0 where
    out_of_power : Stated f c (raise power_loss, c)
    failed :
        (left : ℕ)
        → f (record c { power = left }) ≡ none
        → Stated f c (raise sqlite_error, record c { power = left })
    done :
        (left : ℕ) (after : Connection S)
        → f (record c { power = left }) ≡ some after
        → Stated f c (ok tt, after)

  pub statement-Stated :
      (f : Connection S → Option (Connection S)) (c : Connection S) → Stated f c (statement f c)
  unfolding statement
  statement-Stated f c =
      elim c.power
        as (λ p. Stated f c (elim p [
          | zero ↦ (raise power_loss, c)
          | suc left ↦ elim (f (record c { power = left })) [
            | none ↦ (raise sqlite_error, record c { power = left })
            | some after ↦ (ok tt, after)
          ]
        ])) [ zero ↦ out_of_power | suc left ↦ by left (f (record c { power = left })) refl ]
    where
      by :
          (left : ℕ) (o : Option (Connection S))
          → f (record c { power = left }) ≡ o
          → Stated f c (elim o [
            | none ↦ (raise sqlite_error, record c { power = left })
            | some after ↦ (ok tt, after)
          ])
      by left none e = failed left e
      by left (some after) e = done left after e

  -- Within a transaction that began at `d`: what raises leaves it open, what returns has `P`.
  abbrev pub Within :
      Database S → (Connection S → Type 0) → Result (Unit {0}) × Connection S → Type 0
  Within d P (ok u, c) = P c
  Within d P (raise e, c) = c.begun ≡ some d

  -- The transaction stays open, and the database has `Q`.
  abbrev pub Inside : Database S → (Database S → Type 0) → Connection S → Type 0
  Inside d Q c = (c.begun ≡ some d) × Q c.database

  pub statement-Within :
      (d : Database S) (P : Connection S → Type 0) (f : Connection S → Option (Connection S))
      (c : Connection S)
      → c.begun ≡ some d
      → ((left : ℕ) (after : Connection S) → f (record c { power = left }) ≡ some after → P after)
      → Within d P (statement f c)
  statement-Within d P f c open_ h = by (statement f c) (statement-Stated f c)
    where
      by : (r : Result (Unit {0}) × Connection S) → Stated f c r → Within d P r
      by _ out_of_power = open_
      by _ (failed left e) = open_
      by _ (done left after e) = h left after e

  pub >>-Within :
      (d : Database S) (P R : Connection S → Type 0) (m n : Exec (Connection S) (Unit {0}))
      (c : Connection S)
      → Within d P (m c)
      → ((t : Connection S) → P t → Within d R (n t))
      → Within d R ((m >> n) c)
  unfolding ◌>>=◌
  >>-Within d P R m n c hm hn = by (m c) hm
    where
      by : (r : Result (Unit {0}) × Connection S) → Within d P r → Within d R (continue r (λ u. n))
      by (ok u, t) h = hn t h
      by (raise e, t) h = h

  pub Within-weaken :
      (d : Database S) (P R : Connection S → Type 0) (r : Result (Unit {0}) × Connection S)
      → ((x : Connection S) → P x → R x)
      → Within d P r
      → Within d R r
  Within-weaken d P R (ok u, c) h i = h c i
  Within-weaken d P R (raise e, c) h i = i

-- What was allowed was not refused.
pub allowed-some :
    {S : Type 0} (sqlite : Sqlite S) (control : Control) (f : Connection S → Connection S)
    (c after : Connection S)
    → allowed sqlite control f c ≡ some after
    → f c ≡ after
unfolding allowed
allowed-some sqlite control f c after h = elim (Bool-cases (sqlite.refuses control c.power)) [
  | inl refused ↦ absurd (cc (rw (refused, allowed) at h))
  | inr kept ↦ eq_of_some (rw (kept, allowed) at h)
]

pub allowed-none :
    {S : Type 0} (sqlite : Sqlite S) (control : Control) (f : Connection S → Connection S)
    (c : Connection S)
    → allowed sqlite control f c ≡ none
    → sqlite.refuses control c.power ≡ true
unfolding allowed
allowed-none sqlite control f c h = elim (Bool-cases (sqlite.refuses control c.power)) [
  | inl refused ↦ refused
  | inr kept ↦ absurd (cc (rw (kept, allowed) at h))
]

-- A statement of the code's own within a transaction.
pub allowed-Within :
    {S : Type 0} (sqlite : Sqlite S) (control : Control) (f : Connection S → Connection S)
    (d : Database S) (P : Connection S → Type 0) (c : Connection S)
    → c.begun ≡ some d
    → ((left : ℕ) → P (f (record c { power = left })))
    → Within d P (statement (allowed sqlite control f) c)
allowed-Within sqlite control f d P c open_ h =
    statement-Within d P (allowed sqlite control f) c open_ (λ left after e.
      subst P (allowed-some sqlite control f (record c { power = left }) after e) (h left))
