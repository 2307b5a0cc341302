-- ===== src/Effects/Inversion.antt =====
-- How a chain of two programs ends.
use pi_mobile_photobackup.Prelude.{◌≡◌, refl, ◌⊎◌, inl, inr}
use pi_mobile_photobackup.Effects.{Error, Result, ok, raise, Exec, continue, ◌>>=◌}

module _ {S A B : Type 0} where
  pub >>=-eq-ok :
      (m : Exec S A) (f : A → Exec S B) (s : S) {b : B} {s' : S}
      → (m >>= f) s ≡ (ok b, s')
      → (a : A) × (t : S) × (m s ≡ (ok a, t)) × (f a t ≡ (ok b, s'))
  unfolding ◌>>=◌
  >>=-eq-ok m f s h = split (m s) refl h
    where
      split :
          (r : Result A × S) {b : B} {s' : S}
          → m s ≡ r
          → continue r f ≡ (ok b, s')
          → (a : A) × (t : S) × (m s ≡ (ok a, t)) × (f a t ≡ (ok b, s'))
      split (ok a, t) e h = (a, t, e, h)
      split (raise x, t) e h = cc

  pub >>=-eq-raise :
      (m : Exec S A) (f : A → Exec S B) (s : S) {e : Error} {s' : S}
      → (m >>= f) s ≡ (raise e, s')
      → (m s ≡ (raise e, s')) ⊎ ((a : A) × (t : S) × (m s ≡ (ok a, t)) × (f a t ≡ (raise e, s')))
  unfolding ◌>>=◌
  >>=-eq-raise m f s h = split (m s) refl h
    where
      split :
          (r : Result A × S) {e : Error} {s' : S}
          → m s ≡ r
          → continue r f ≡ (raise e, s')
          → (m s ≡ (raise e, s'))
            ⊎ ((a : A) × (t : S) × (m s ≡ (ok a, t)) × (f a t ≡ (raise e, s')))
      split (ok a, t) e h = inr (a, t, e, h)
      split (raise x, t) e h = inl (cc)
