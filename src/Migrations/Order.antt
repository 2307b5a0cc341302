-- ===== src/Migrations/Order.antt =====
-- db/migrations.py: the order of the migrations, and those above a version.
use pi_mobile_photobackup.Prelude.{
  ℕ, false, List, [], ◌∷◌, ◌≡◌, ◌≤◌, ◌<◌, refl, arith, inl, inr, Bool-cases, All, filter_p, any_p,
  leb, ltb, ◌==◌,
}
use pi_mobile_photobackup.Migrations.{Migration, insert_migration, sort_migrations, has_duplicates}

-- A list in strictly ascending order of versions.
abbrev pub IsAscending : List Migration → Type 0
IsAscending [] = Unit
IsAscending (m ∷ ms) = All (λ n. m.version < n.version) ms × IsAscending ms

-- In ascending order, with equal versions allowed.
abbrev IsOrdered : List Migration → Type 0
IsOrdered [] = Unit
IsOrdered (m ∷ ms) = All (λ n. m.version ≤ n.version) ms × IsOrdered ms

All-le :
    (v w : ℕ) (ms : List Migration)
    → v ≤ w
    → All (λ n. w ≤ n.version) ms
    → All (λ n. v ≤ n.version) ms
All-le v w [] le h = tt
All-le v w (m ∷ ms) le h = (omega (arith, le, h.0), All-le v w ms le h.1)

All-insert :
    (v : ℕ) (m : Migration) (ms : List Migration)
    → v ≤ m.version
    → All (λ n. v ≤ n.version) ms
    → All (λ n. v ≤ n.version) (insert_migration m ms)
unfolding insert_migration
All-insert v m [] le h = (le, tt)
All-insert v m (n ∷ ns) le h = elim (Bool-cases (leb m.version n.version)) [
  | inl here ↦ rw (here, insert_migration) (le, h)
  | inr later ↦ rw (later, insert_migration) (h.0, All-insert v m ns le h.1)
]

insert_migration-IsOrdered :
    (m : Migration) (ms : List Migration) → IsOrdered ms → IsOrdered (insert_migration m ms)
unfolding insert_migration
insert_migration-IsOrdered m [] h = (tt, tt)
insert_migration-IsOrdered m (n ∷ ns) h = elim (Bool-cases (leb m.version n.version)) [
  | inl here ↦
      let le : m.version ≤ n.version = ground (arith, here) in
      rw (here, insert_migration) ((le, All-le m.version n.version ns le h.0), h)
  | inr later ↦
      let le : n.version ≤ m.version = ground (arith, later) in
      rw (later, insert_migration)
        (All-insert n.version m ns le h.0, insert_migration-IsOrdered m ns h.1)
]

pub sort_migrations-IsOrdered : (ms : List Migration) → IsOrdered (sort_migrations ms)
unfolding sort_migrations
sort_migrations-IsOrdered [] = tt
sort_migrations-IsOrdered (m ∷ ms) =
    insert_migration-IsOrdered m (sort_migrations ms) (sort_migrations-IsOrdered ms)

All-lt :
    (v : ℕ) (ms : List Migration)
    → any_p (λ n. n.version == v) ms ≡ false
    → All (λ n. v ≤ n.version) ms
    → All (λ n. v < n.version) ms
All-lt v [] h le = tt
All-lt v (m ∷ ms) h le = (ground (arith, h, le.0), All-lt v ms (ground (arith, h)) le.1)

pub ordered-IsAscending :
    (ms : List Migration) → has_duplicates ms ≡ false → IsOrdered ms → IsAscending ms
unfolding has_duplicates
ordered-IsAscending [] h o = tt
ordered-IsAscending (m ∷ ms) h o =
    (All-lt m.version ms (ground (arith, h)) o.0, ordered-IsAscending ms (ground (arith, h)) o.1)

abbrev pub newer_than : ℕ → List Migration → List Migration
newer_than v ms = filter_p (λ m. ltb v m.version) ms

pub newer_than_below :
    (v w : ℕ) (ms : List Migration)
    → v < w
    → All (λ n. w < n.version) ms
    → newer_than v ms ≡ newer_than w ms
newer_than_below v w [] lt h = refl
newer_than_below v w (m ∷ ms) lt h = ground (arith, lt, h.0, newer_than_below v w ms lt h.1)
