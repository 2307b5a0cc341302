-- ===== src/Prelude/Members.antt =====
-- Membership in filtered and mapped lists, and tests of all elements.
use mathlib.Core.Path.{◌≡◌, refl, ap, ◌∙◌}
use mathlib.Core.Logic.{◌↔◌, ◌⊎◌, inl, inr, ⊎_elim}
use mathlib.Core.Bool.{Bool, true, false, ◌||◌}
use mathlib.Core.List.{List, [], ◌∷◌, ◌++◌, map, Memᴰ}
use mathlib.Core.List.Memᴰ
use native.Mathlib.Omega.{arith}
use pi_mobile_photobackup.Prelude.Tests.{Bool-cases}
use pi_mobile_photobackup.Prelude.Lists.{filter_p, any_p}

module _ {ℓ} {A : Type ℓ} where
  pub Memᴰ-append : (a : A) (xs ys : List A) → Memᴰ a (xs ++ ys) ↔ (Memᴰ a xs ⊎ Memᴰ a ys)
  Memᴰ-append a xs ys = (Memᴰ.append_cases xs, ⊎_elim (Memᴰ.append_left _) (Memᴰ.append_right xs))

  pub any_p-false :
      (p : A → Bool) (xs : List A) → (any_p p xs ≡ false) ↔ ((a : A) → Memᴰ a xs → p a ≡ false)
  any_p-false p [] = (λ h a m. absurd (Memᴰ.not-nil m), λ h. refl)
  any_p-false p (x ∷ xs) = (
    λ h a m. elim (Memᴰ.cases_cons m) [
      | inl e ↦ ap p e ∙ head_false h
      | inr later ↦ (any_p-false p xs).0 (tail_false h) a later
    ],
    λ h. both (h x (Memᴰ.head refl)) ((any_p-false p xs).1 (λ a m. h a (Memᴰ.tail m))),
  )
    where
      head_false : p x || any_p p xs ≡ false → p x ≡ false
      head_false h = ground (arith, h)

      tail_false : p x || any_p p xs ≡ false → any_p p xs ≡ false
      tail_false h = ground (arith, h)

      both : p x ≡ false → any_p p xs ≡ false → p x || any_p p xs ≡ false
      both h k = ground (arith, h, k)

  pub Memᴰ-filter_p :
      (p : A → Bool) (a : A) (xs : List A) → Memᴰ a (filter_p p xs) ↔ (Memᴰ a xs × (p a ≡ true))
  Memᴰ-filter_p p a [] = (λ m. absurd (Memᴰ.not-nil m), λ t. t.0)
  Memᴰ-filter_p p a (x ∷ xs) = elim (Bool-cases (p x)) [
    | inl kept ↦ rw kept (
      λ m. elim (Memᴰ.cases_cons m) [
        | inl e ↦ (Memᴰ.head e, ap p e ∙ kept)
        | inr later ↦ let t = (Memᴰ-filter_p p a xs).0 later in (Memᴰ.tail t.0, t.1)
      ],
      λ t. elim (Memᴰ.cases_cons t.0) [
        | inl e ↦ Memᴰ.head e
        | inr later ↦ Memᴰ.tail ((Memᴰ-filter_p p a xs).1 (later, t.1))
      ],
    )
    | inr dropped ↦ rw dropped (
      λ m. let t = (Memᴰ-filter_p p a xs).0 m in (Memᴰ.tail t.0, t.1),
      λ t. elim (Memᴰ.cases_cons t.0) [
        | inl e ↦ absurd (ground (arith, dropped, ap p e, t.1))
        | inr later ↦ (Memᴰ-filter_p p a xs).1 (later, t.1)
      ],
    )
  ]

module _ {ℓ κ} {A : Type ℓ} {B : Type κ} where
  pub Memᴰ-map :
      (f : A → B) (b : B) (xs : List A) → Memᴰ b (map f xs) ↔ ((a : A) × Memᴰ a xs × (b ≡ f a))
  Memᴰ-map f b [] = (λ m. absurd (Memᴰ.not-nil m), λ t. absurd (Memᴰ.not-nil t.1))
  Memᴰ-map f b (x ∷ xs) = (
    λ m. elim (Memᴰ.cases_cons m) [
      | inl e ↦ (x, Memᴰ.head refl, e)
      | inr later ↦ let t = (Memᴰ-map f b xs).0 later in (t.0, Memᴰ.tail t.1, t.2)
    ],
    λ t. elim (Memᴰ.cases_cons t.1) [
      | inl e ↦ Memᴰ.head (t.2 ∙ ap f e)
      | inr later ↦ Memᴰ.tail ((Memᴰ-map f b xs).1 (t.0, later, t.2))
    ],
  )
