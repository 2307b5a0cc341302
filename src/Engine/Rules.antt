-- ===== src/Engine/Rules.antt =====
-- Rules for the engine's programs: what holds of the machine's state when a program returns, and
-- when it raises.
use pi_mobile_photobackup.Prelude.{◌≡◌, refl, ◌∙◌, Text, Bool, true, false, List, ap, if◌then◌else◌}
use pi_mobile_photobackup.Effects.{Error, Result, ok, raise, pure, throw, gets, continue, ◌>>=◌}
use pi_mobile_photobackup.Machine
use pi_mobile_photobackup.Machine.{BackupState, can_transition}
use pi_mobile_photobackup.World.{Action}
use pi_mobile_photobackup.Engine.{
  Engine, Run, Event, on_world, emit, emit_all, transition, stepped, set_last_scan, with_token,
}

abbrev pub Claim : Type 1
Claim = BackupState → Type 0

abbrev pub Ends : {A : Type 0} → (A → Claim) → Claim → Result A × Engine → Type 0
Ends Q R (ok a, s) = Q a s.machine.state
Ends Q R (raise e, s) = R s.machine.state

-- Started in the state `b`, the program returns with `Q` or raises with `R`.
pub record Goes {A : Type 0} (b : BackupState) (m : Run A) (Q : A → Claim) (R : Claim)
    : Type 0 where
  pub at : (s : Engine) → s.machine.state ≡ b → Ends Q R (m s)

-- The program leaves the machine where it is, whether it returns or raises.
pub record Stays {A : Type 0} (m : Run A) : Type 0 where
  pub at : (s : Engine) → (m s).1.machine ≡ s.machine

module _ {A : Type 0} where
  pub on_world-Stays : (m : Action A) → Stays (on_world m)
  unfolding on_world
  on_world-Stays m = record { at = λ s. refl }

  pub gets-Stays : (f : Engine → A) → Stays (gets f)
  unfolding gets
  gets-Stays f = record { at = λ s. refl }

  pub pure-Stays : (a : A) → Stays (pure a)
  unfolding pure
  pure-Stays a = record { at = λ s. refl }

  pub throw-Stays : (e : Error) → Stays (throw {A = A} e)
  unfolding throw
  throw-Stays e = record { at = λ s. refl }

  pub with_token-Stays : (m : Run A) → Stays m → Stays (with_token m)
  unfolding with_token
  with_token-Stays m h = record { at = λ s. h.at (record s { has_cancel_token = true }) }

module _ {A B : Type 0} where
  pub bind-Stays : (m : Run A) (f : A → Run B) → Stays m → ((a : A) → Stays (f a)) → Stays (m >>= f)
  unfolding ◌>>=◌
  bind-Stays m f hm hf = record { at = λ s. go (m s).0 (m s).1 ∙ hm.at s }
    where
      go : (r : Result A) (s : Engine) → (continue (r, s) f).1.machine ≡ s.machine
      go (ok a) s = (hf a).at s
      go (raise e) s = refl

pub emit-Stays : (e : Event) → Stays (emit e)
unfolding emit
emit-Stays e = record { at = λ s. refl }

pub emit_all-Stays : (es : List Event) → Stays (emit_all es)
unfolding emit_all
emit_all-Stays es = record { at = λ s. refl }

pub set_last_scan-Stays : (root : Text) (n : _) → Stays (set_last_scan root n)
unfolding set_last_scan
set_last_scan-Stays root n = record { at = λ s. refl }

module _ {A : Type 0} {b : BackupState} {R : Claim} where
  -- What leaves the machine alone, and may raise only where `R` allows it.
  pub Goes-Stays : (m : Run A) → Stays m → R b → Goes b m (λ _ c. c ≡ b) R
  Goes-Stays m h r = record { at = λ s e. go (m s).0 (m s).1 (ap (λ k. k.state) (h.at s) ∙ e) }
    where
      go : (x : Result A) (s : Engine) → s.machine.state ≡ b → Ends (λ _ c. c ≡ b) R (x, s)
      go (ok a) s e = e
      go (raise k) s e = rw e r

module _ {A : Type 0} {b : BackupState} {R : Claim} {Q : A → Claim} where
  pub Goes-gets :
      (f : Engine → A)
      → ((s : Engine) → s.machine.state ≡ b → Q (f s) s.machine.state)
      → Goes b (gets f) Q R
  unfolding gets
  Goes-gets f h = record { at = h }

  pub Goes-if :
      (x : Bool) (m n : Run A)
      → (x ≡ true → Goes b m Q R)
      → (x ≡ false → Goes b n Q R)
      → Goes b (if x then m else n) Q R
  Goes-if true m n hm hn = hm refl
  Goes-if false m n hm hn = hn refl

module _ {A B : Type 0} {b : BackupState} {R : Claim} {T : B → Claim} where
  pub Goes-bind :
      (c : BackupState) (m : Run A) (f : A → Run B)
      → Goes b m (λ _ k. k ≡ c) R
      → ((a : A) → Goes c (f a) T R)
      → Goes b (m >>= f) T R
  unfolding ◌>>=◌
  Goes-bind c m f hm hf = record { at = λ s e. go (m s).0 (m s).1 (hm.at s e) }
    where
      go : (r : Result A) (s : Engine) → Ends (λ _ k. k ≡ c) R (r, s) → Ends T R (continue (r, s) f)
      go (ok a) s h = (hf a).at s h
      go (raise e) s h = h

  -- A program that does not raise comes first: it needs no claim about raising.
  pub Goes-quiet :
      (m : Run A) (f : A → Run B)
      → Stays m
      → ((s : Engine) → (a : A) × ((m s).0 ≡ ok a))
      → ((a : A) → Goes b (f a) T R)
      → Goes b (m >>= f) T R
  unfolding ◌>>=◌
  Goes-quiet m f hm quiet hf = record {
    at = λ s e. go (m s).0 (m s).1 (quiet s) (ap (λ k. k.state) (hm.at s) ∙ e);
  }
    where
      go :
          (r : Result A) (s : Engine)
          → (a : A) × (r ≡ ok a)
          → s.machine.state ≡ b
          → Ends T R (continue (r, s) f)
      go (ok a) s q e = (hf a).at s e
      go (raise k) s q e = absurd (cc q.1)

module _ {R : Claim} (b c : BackupState) where
  -- A transition that the map allows takes place.
  pub Goes-transition : can_transition b c ≡ true → Goes b (transition c) (λ _ k. k ≡ c) R
  unfolding transition Machine.transition stepped
  Goes-transition h = record { at = λ s e. rw (e, h) refl }
