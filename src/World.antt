-- ===== src/World.antt =====
-- The state that the backup engine works on: the files of the destination, its manifest, and what
-- the environment has been asked for. Every effect on the files or the manifest takes one unit of
-- `power`; without any left it does not take place.
pub mod Rules
pub mod Store
pub mod Rows
use pi_mobile_photobackup.Prelude.{
  ℕ, suc, ◌-◌, Text, Bytes, Bool, true, false, Option, none, some, ◌==◌, if◌then◌else◌,
}
use pi_mobile_photobackup.Effects.{
  Error, Result, ok, raise, Exec, integrity_error, power_loss, os_error, file_not_found,
}
use pi_mobile_photobackup.Files.{Files}
use pi_mobile_photobackup.Manifest.{Manifest}

pub record World : Type 0 where
  pub files : Files
  pub db : Manifest
  pub power : ℕ
  -- how many source files were opened, how many partial copies written
  pub opened : ℕ
  pub written : ℕ

-- What reading a source file gives: it is gone, it reads to its end, or reading it fails after some
-- bytes were delivered.
pub data SourceRead : Type 0 where
  missing : SourceRead
  readable : Bytes → SourceRead
  fails_at : Bytes → SourceRead

-- The card and the disk: what the n-th opening of a source path delivers (a card may answer
-- differently each time), and what is on the device after the n-th write of some bytes.
pub record Environment : Type 0 where
  pub reads : ℕ → Text → SourceRead
  pub lands : ℕ → Bytes → Bytes

abbrev pub Action : Type 0 → Type 0
Action A = Exec World A

unfoldable pub on_files : (Files → Files) → Action (Unit {0})
on_files change w =
    if w.power == 0
    then (raise power_loss, w)
    else (ok tt, record w { files = change w.files; power = w.power - 1 })

unfoldable pub on_db : {A : Type 0} → (Manifest → A × Manifest) → Action A
on_db change w =
    if w.power == 0
    then (raise power_loss, w)
    else (let (a, db) = change w.db in (ok a, record w { db = db; power = w.power - 1 }))

abbrev committed : {A : Type 0} → World → Option (A × Manifest) → Result A × World
committed w none = (raise integrity_error, w)
committed w (some (a, db)) = (ok a, record w { db = db; power = w.power - 1 })

-- A statement that may break a constraint, and then changes nothing.
unfoldable pub try_db : {A : Type 0} → (Manifest → Option (A × Manifest)) → Action A
try_db change w = if w.power == 0 then (raise power_loss, w) else committed w (change w.db)

unfoldable pub open_source : Environment → Text → Action SourceRead
open_source env path w = (ok (env.reads w.opened path), record w { opened = suc w.opened })

-- `except OSError`
abbrev pub is_os_error : Error → Bool
is_os_error os_error = true
is_os_error file_not_found = true
is_os_error _ = false
