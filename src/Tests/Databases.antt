-- ===== src/Tests/Databases.antt =====
-- Examples for the migrations: a schema is the list of the statements executed.
use pi_mobile_photobackup.Prelude.{
  ℕ, Text, codes, text_eq, true, false, if◌then◌else◌, none, some, List, [], ◌∷◌, ◌≡◌, refl,
}
use pi_mobile_photobackup.Effects.{ok}
use pi_mobile_photobackup.Migrations.{
  Migration, Connection, Sqlite, with_meta, greatest, sort_migrations, apply_migrations,
}
use pi_mobile_photobackup.Migrations.Order.{newer_than}
use pi_mobile_photobackup.Migrations.Safety.{ConcludedWithMeta, apply_migrations-Concluded}
use pi_mobile_photobackup.Migrations.Again.{apply_migrations-again}

-- SQLite fails on the statement "d", and refuses no statement of the code's own.
abbrev failing : Sqlite (List Text)
failing = record {
  executes = λ sql schema. if text_eq sql (codes "d") then none else some (sql ∷ schema);
  refuses = λ control power. false;
}

-- It fails on no statement.
abbrev recorded : Sqlite (List Text)
recorded = record { executes = λ sql schema. some (sql ∷ schema); refuses = λ control power. false }

-- Out of order, and one of them applied already.
abbrev migrations : List Migration
migrations =
    record { version = 3; name = []; statements = codes "c" ∷ codes "d" ∷ [] }
    ∷ record { version = 1; name = []; statements = codes "a" ∷ [] }
    ∷ record { version = 2; name = []; statements = codes "b" ∷ [] }
    ∷ []

abbrev at_version_1 : ℕ → Connection (List Text)
at_version_1 power = record {
  database = record { schema = codes "a" ∷ []; has_meta = true; applied = 1 ∷ [] };
  begun = none;
  power = power;
}

-- The second of the two migrations to apply fails in its second statement and is rolled back.
apply_migrations-Concluded_example :
    ConcludedWithMeta failing
      (newer_than
        (greatest (with_meta (at_version_1 20).database).applied)
        (sort_migrations migrations))
      (at_version_1 20).database
      (apply_migrations failing migrations (at_version_1 20))
apply_migrations-Concluded_example =
    apply_migrations-Concluded failing migrations (at_version_1 20) refl

abbrev migrated : Connection (List Text)
migrated = record {
  database = record {
    schema = codes "d" ∷ codes "c" ∷ codes "b" ∷ codes "a" ∷ [];
    has_meta = true;
    applied = 1 ∷ 2 ∷ 3 ∷ [];
  };
  begun = none;
  power = 1;
}

migrates : apply_migrations recorded migrations (at_version_1 10) ≡ (ok 3, migrated)
unfolding apply_migrations
migrates = refl

apply_migrations-again_example : apply_migrations recorded migrations migrated ≡ (ok 3, migrated)
apply_migrations-again_example =
    apply_migrations-again recorded migrations (at_version_1 10) migrated 3 refl migrates
