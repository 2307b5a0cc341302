-- ===== src/World/Rules.antt =====
-- Specifications of actions, by what the files and the manifest satisfy before and after, with one
-- rule for each way to build an action. What an action satisfies when it raises is what also holds
-- wherever the power fails.
use pi_mobile_photobackup.Prelude.{
  ◌≡◌, refl, Bool, true, false, inl, inr, Option, none, some, Bool-cases, Text, ◌==◌, if◌then◌else◌,
}
use pi_mobile_photobackup.Effects.{
  Error, Result, ok, raise, pure, throw, gets, require, continue, ◌>>=◌,
}
use pi_mobile_photobackup.Files.{Files}
use pi_mobile_photobackup.Manifest.{Manifest}
use pi_mobile_photobackup.World.{
  World, Environment, Action, on_files, on_db, try_db, open_source, committed,
}

-- A property of the files and the manifest.
abbrev pub Prop : Type 1
Prop = Files → Manifest → Type 0

abbrev pub After : {A : Type 0} → (A → Prop) → Prop → Result A × World → Type 0
After Q R (ok a, w) = Q a w.files w.db
After Q R (raise e, w) = R w.files w.db

-- From `P` the action returns with `Q`, or raises or loses power with `R`.
pub record Spec {A : Type 0} (P : Prop) (m : Action A) (Q : A → Prop) (R : Prop) : Type 0 where
  pub at : (w : World) → P w.files w.db → After Q R (m w)

committed-After :
    {A : Type 0} (R : Prop) (Q : A → Prop) (w : World) (o : Option (A × Manifest))
    → R w.files w.db
    → ((a : A) (d : Manifest) → o ≡ some (a, d) → Q a w.files d)
    → After Q R (committed w o)
committed-After R Q w none r h = r
committed-After R Q w (some (a, d)) r h = h a d refl

module _ {A : Type 0} {P R : Prop} {Q : A → Prop} where
  pub Spec-pure : (a : A) → ((f : Files) (d : Manifest) → P f d → Q a f d) → Spec P (pure a) Q R
  unfolding pure
  Spec-pure a h = record { at = λ w p. h w.files w.db p }

  pub Spec-throw :
      (e : Error) → ((f : Files) (d : Manifest) → P f d → R f d) → Spec P (throw {A = A} e) Q R
  unfolding throw
  Spec-throw e h = record { at = λ w p. h w.files w.db p }

  pub Spec-gets :
      (g : World → A) → ((w : World) → P w.files w.db → Q (g w) w.files w.db) → Spec P (gets g) Q R
  unfolding gets
  Spec-gets g h = record { at = h }

  pub Spec-require :
      (e : Error) (o : Option A)
      → ((f : Files) (d : Manifest) → P f d → R f d)
      → ((a : A) → o ≡ some a → (f : Files) (d : Manifest) → P f d → Q a f d)
      → Spec P (require e o) Q R
  unfolding require
  Spec-require e none r h = record { at = λ w p. r w.files w.db p }
  Spec-require e (some a) r h = record { at = λ w p. h a refl w.files w.db p }

  pub Spec-if :
      (b : Bool) (m n : Action A)
      → (b ≡ true → Spec P m Q R)
      → (b ≡ false → Spec P n Q R)
      → Spec P (if b then m else n) Q R
  Spec-if true m n hm hn = hm refl
  Spec-if false m n hm hn = hn refl

  pub Spec-on_db :
      (change : Manifest → A × Manifest)
      → ((f : Files) (d : Manifest) → P f d → R f d)
      → ((f : Files) (d : Manifest) → P f d → Q (change d).0 f (change d).1)
      → Spec P (on_db change) Q R
  unfolding on_db
  Spec-on_db change r h = record {
    at = λ w p. elim (Bool-cases (w.power == 0)) [
      | inl e ↦ rw e (r w.files w.db p)
      | inr e ↦ rw e (h w.files w.db p)
    ];
  }

  pub Spec-try_db :
      (change : Manifest → Option (A × Manifest))
      → ((f : Files) (d : Manifest) → P f d → R f d)
      → ((f : Files) (d : Manifest) (a : A) (d' : Manifest)
          → P f d
          → change d ≡ some (a, d')
          → Q a f d')
      → Spec P (try_db change) Q R
  unfolding try_db
  Spec-try_db change r h = record {
    at = λ w p. elim (Bool-cases (w.power == 0)) [
      | inl e ↦ rw e (r w.files w.db p)
      | inr e ↦ rw e (
          committed-After R Q w (change w.db) (r w.files w.db p)
            (λ a d' e'. h w.files w.db a d' p e'))
    ];
  }

module _ {P R : Prop} {Q : Unit {0} → Prop} where
  pub Spec-on_files :
      (change : Files → Files)
      → ((f : Files) (d : Manifest) → P f d → R f d)
      → ((f : Files) (d : Manifest) → P f d → Q tt (change f) d)
      → Spec P (on_files change) Q R
  unfolding on_files
  Spec-on_files change r h = record {
    at = λ w p. elim (Bool-cases (w.power == 0)) [
      | inl e ↦ rw e (r w.files w.db p)
      | inr e ↦ rw e (h w.files w.db p)
    ];
  }

pub Spec-open_source :
    {P R : Prop} (env : Environment) (path : Text) → Spec P (open_source env path) (λ _. P) R
unfolding open_source
Spec-open_source env path = record { at = λ w p. p }

module _ {A B : Type 0} where
  pub Spec-bind :
      {P R : Prop} (Q : A → Prop) {T : B → Prop} {m : Action A} {f : A → Action B}
      → Spec P m Q R
      → ((a : A) → Spec (Q a) (f a) T R)
      → Spec P (m >>= f) T R
  unfolding ◌>>=◌
  Spec-bind {R = R} Q {T = T} {m = m} {f = f} sm sf = record {
    at = λ w p. go (m w).0 (m w).1 (sm.at w p);
  }
    where
      go : (r : Result A) (w : World) → After Q R (r, w) → After T R (continue (r, w) f)
      go (ok a) w h = (sf a).at w h
      go (raise e) w h = h

module _ {A : Type 0} where
  pub Spec-weaken :
      {P P' R R' : Prop} {Q Q' : A → Prop} {m : Action A}
      → ((f : Files) (d : Manifest) → P' f d → P f d)
      → ((a : A) (f : Files) (d : Manifest) → Q a f d → Q' a f d)
      → ((f : Files) (d : Manifest) → R f d → R' f d)
      → Spec P m Q R
      → Spec P' m Q' R'
  Spec-weaken {R = R} {R' = R'} {Q = Q} {Q' = Q'} {m = m} hp hq hr s = record {
    at = λ w p. go (m w).0 (m w).1 (s.at w (hp w.files w.db p));
  }
    where
      go : (r : Result A) (w : World) → After Q R (r, w) → After Q' R' (r, w)
      go (ok a) w h = hq a w.files w.db h
      go (raise e) w h = hr w.files w.db h

module _ {A : Type 0} {P R : Prop} {Q : A → Prop} {m : Action A} where
  -- A fact that does not depend on the state may be assumed.
  pub Spec-given : (K : Type 0) → (K → Spec P m Q R) → Spec (λ f d. P f d × K) m Q R
  Spec-given K s = record { at = λ w h. (s h.1).at w h.0 }

module _ {A : Type 0} {P : Prop} {m : Action A} where
  -- Nothing is claimed.
  pub Spec-any : Spec P m (λ _ _ _. Unit {0}) (λ _ _. Unit {0})
  Spec-any = record { at = λ w p. go (m w).0 (m w).1 }
    where
      go : (r : Result A) (w : World) → After (λ _ _ _. Unit {0}) (λ _ _. Unit {0}) (r, w)
      go (ok a) w = tt
      go (raise e) w = tt
