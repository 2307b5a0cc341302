-- ===== src/Effects.antt =====
-- Programs that act on the appliance: they may raise, and the power may fail before any single
-- effect. What was done before stays done.
pub mod Inversion
use pi_mobile_photobackup.Prelude.{Text, Option, none, some}

-- The exceptions that the modelled code raises or handles. `power_loss` is no exception of the
-- program: it stops it, and no handler sees it.
pub data Error : Type 0 where
  os_error file_not_found value_error integrity_error assertion_error out_of_fuel : Error
  invalid_transition not_implemented called_process_error source_protection_failure : Error
  no_source_error sqlite_error : Error
  session_path_conflict : Text → Error
  power_loss : Error

pub data Result (A : Type 0) : Type 0 where
  ok : A → Result A
  raise : Error → Result A

abbrev pub Exec : Type 0 → Type 0 → Type 0
Exec S A = S → Result A × S

module _ {S A : Type 0} where
  unfoldable pub pure : A → Exec S A
  pure a s = (ok a, s)

  unfoldable pub throw : Error → Exec S A
  throw e s = (raise e, s)

  unfoldable pub gets : (S → A) → Exec S A
  gets f s = (ok (f s), s)

  -- An `Option` whose absence is an exception.
  unfoldable pub require : Error → Option A → Exec S A
  unfolding pure throw
  require e none = throw e
  require e (some a) = pure a

module _ {S A B : Type 0} where
  abbrev pub continue : Result A × S → (A → Exec S B) → Result B × S
  continue (ok a, s) f = f a s
  continue (raise e, s) f = (raise e, s)

  infixl 5 ◌>>=◌ ◌>>◌
  unfoldable pub ◌>>=◌ : Exec S A → (A → Exec S B) → Exec S B
  ◌>>=◌ m f s = continue (m s) f

  abbrev pub ◌>>◌ : Exec S A → Exec S B → Exec S B
  m >> n = m >>= λ _. n
