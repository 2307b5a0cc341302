-- ===== src/Prelude/Lists.antt =====
-- Lists measured and cut by native numbers, under the library's names, and predicates on lists
-- by recursion.
use Prim.Native.Nat.{ℕ, zero, suc, ◌+◌, ◌-◌, min, max}
use mathlib.Core.Path.{◌≡◌, refl, sym, ap, ◌∙◌}
use mathlib.Core.Bool.{Bool, false, ◌||◌}
use mathlib.Core.List.{List, [], ◌∷◌, ◌++◌}
use native.Mathlib.Omega.{arith}
use pi_mobile_photobackup.Prelude.Tests.{if◌then◌else◌}

module _ {ℓ} {A : Type ℓ} where
  abbrev pub length : List A → ℕ
  length [] = 0
  length (x ∷ xs) = suc (length xs)

  abbrev pub take : ℕ → List A → List A
  take zero xs = []
  take (suc n) [] = []
  take (suc n) (x ∷ xs) = x ∷ take n xs

  abbrev pub drop : ℕ → List A → List A
  drop zero xs = xs
  drop (suc n) [] = []
  drop (suc n) (x ∷ xs) = drop n xs

  abbrev pub replicate : ℕ → A → List A
  replicate zero a = []
  replicate (suc n) a = a ∷ replicate n a

  -- How many elements pass a test.
  abbrev pub count_p : (A → Bool) → List A → ℕ
  count_p p [] = 0
  count_p p (x ∷ xs) = (if p x then 1 else 0) + count_p p xs

  -- The sum of a measure over the elements that pass a test.
  abbrev pub sum_p : (A → Bool) → (A → ℕ) → List A → ℕ
  sum_p p f [] = 0
  sum_p p f (x ∷ xs) = (if p x then f x else 0) + sum_p p f xs

  -- The largest measure over the elements that pass a test, 0 if there is none.
  abbrev pub max_p : (A → Bool) → (A → ℕ) → List A → ℕ
  max_p p f [] = 0
  max_p p f (x ∷ xs) = max (if p x then f x else 0) (max_p p f xs)

  -- The elements that pass a test, in order.
  abbrev pub filter_p : (A → Bool) → List A → List A
  filter_p p [] = []
  filter_p p (x ∷ xs) = let rest = filter_p p xs in if p x then x ∷ rest else rest

  -- Some element passes a test.
  abbrev pub any_p : (A → Bool) → List A → Bool
  any_p p [] = false
  any_p p (x ∷ xs) = p x || any_p p xs

  -- Every element satisfies the predicate.
  abbrev pub All {κ} : (A → Type κ) → List A → Type κ
  All P [] = Unit
  All P (x ∷ xs) = P x × All P xs

module _ {ℓ} {A : Type ℓ} where
  pub length-append : (xs ys : List A) → length (xs ++ ys) ≡ length xs + length ys
  length-append [] ys = omega arith
  length-append (x ∷ xs) ys = omega (arith, length-append xs ys)

  pub take-append-drop : (n : ℕ) (xs : List A) → take n xs ++ drop n xs ≡ xs
  take-append-drop zero xs = refl
  take-append-drop (suc n) [] = refl
  take-append-drop (suc n) (x ∷ xs) = ap (◌∷◌ x) (take-append-drop n xs)

  pub length-drop : (n : ℕ) (xs : List A) → length (drop n xs) ≡ length xs - n
  length-drop zero xs = omega arith
  length-drop (suc n) [] = omega arith
  length-drop (suc n) (x ∷ xs) = omega (arith, length-drop n xs)

  pub length-take : (n : ℕ) (xs : List A) → length (take n xs) ≡ min n (length xs)
  length-take zero xs = omega arith
  length-take (suc n) [] = omega arith
  length-take (suc n) (x ∷ xs) = omega (arith, length-take n xs)

  pub length-replicate : (n : ℕ) (a : A) → length (replicate n a) ≡ n
  length-replicate zero a = refl
  length-replicate (suc n) a = ap suc (length-replicate n a)

  pub All-append {κ} : (P : A → Type κ) (xs ys : List A) → All P xs → All P ys → All P (xs ++ ys)
  All-append P [] ys h k = k
  All-append P (x ∷ xs) ys h k = (h.0, All-append P xs ys h.1 k)

module _ {ℓ} {A : Type ℓ} (p : A → Bool) (f : A → ℕ) (x : A) where
  pub count_p-snoc :
      (xs : List A) → count_p p (xs ++ x ∷ []) ≡ count_p p xs + (if p x then 1 else 0)
  count_p-snoc [] = omega arith
  count_p-snoc (y ∷ ys) = omega (arith, count_p-snoc ys)

  pub sum_p-snoc :
      (xs : List A) → sum_p p f (xs ++ x ∷ []) ≡ sum_p p f xs + (if p x then f x else 0)
  sum_p-snoc [] = omega arith
  sum_p-snoc (y ∷ ys) = omega (arith, sum_p-snoc ys)

  pub max_p-snoc :
      (xs : List A) → max_p p f (xs ++ x ∷ []) ≡ max (max_p p f xs) (if p x then f x else 0)
  max_p-snoc [] = omega arith
  max_p-snoc (y ∷ ys) = omega (arith, max_p-snoc ys)

module _ {ℓ} {A : Type ℓ} where
  pub append_left_cancel : (xs : List A) {ys zs : List A} → xs ++ ys ≡ xs ++ zs → ys ≡ zs
  append_left_cancel [] h = h
  append_left_cancel (x ∷ xs) h = append_left_cancel xs (cc h)

  pub drop-append :
      (n : ℕ) (xs ys : List A) → drop n (xs ++ ys) ≡ drop n xs ++ drop (n - length xs) ys
  drop-append zero xs ys = let e : 0 ≡ 0 - length xs = omega arith in ap (λ k. xs ++ drop k ys) e
  drop-append (suc n) [] ys = let e : suc n ≡ suc n - 0 = omega arith in ap (λ k. drop k ys) e
  drop-append (suc n) (x ∷ xs) ys =
      let e : n - length xs ≡ suc n - suc (length xs) = omega arith in
      drop-append n xs ys ∙ ap (λ k. drop n xs ++ drop k ys) e

  pub drop-nil : (n : ℕ) → drop {A = A} n [] ≡ []
  drop-nil zero = refl
  drop-nil (suc n) = refl

  pub drop-drop : (m n : ℕ) (xs : List A) → drop m (drop n xs) ≡ drop (m + n) xs
  drop-drop m zero xs = let e : m ≡ m + 0 = omega arith in ap (λ k. drop k xs) e
  drop-drop m (suc n) [] = drop-nil m ∙ sym (drop-nil (m + suc n))
  drop-drop m (suc n) (x ∷ xs) =
      let e : suc (m + n) ≡ m + suc n = omega arith in
      drop-drop m n xs ∙ ap (λ k. drop k (x ∷ xs)) e
