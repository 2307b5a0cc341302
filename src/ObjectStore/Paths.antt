-- ===== src/ObjectStore/Paths.antt =====
-- object_store.py: the paths of objects and of partial copies, compared.
use pi_mobile_photobackup.Prelude.{
  ℕ, suc, ◌+◌, ◌≤◌, ◌≡◌, ◌≢◌, Text, codes, some, [], ◌∷◌, ◌++◌, arith, length, count_p, ltb,
  append_left_cancel, false,
}
use pi_mobile_photobackup.Identity.{is_dot}
use pi_mobile_photobackup.ObjectStore.{object_path, partial_path}

abbrev dots : Text → ℕ
dots = count_p is_dot

dots-append : (xs ys : Text) → dots (xs ++ ys) ≡ dots xs + dots ys
dots-append [] ys = omega arith
dots-append (x ∷ xs) ys = omega (arith, dots-append xs ys)

not_short : (n : ℕ) → ltb (suc (suc (suc (suc n)))) 4 ≡ false
not_short n = ground arith

module _ (root : Text) where
  -- The path of a digest of four characters or more, written out.
  object_path_long :
      (a b c d : ℕ) (rest : Text)
      → object_path root (a ∷ b ∷ c ∷ d ∷ rest)
        ≡ some (root ++ 47 ∷ a ∷ b ∷ 47 ∷ c ∷ d ∷ 47 ∷ a ∷ b ∷ c ∷ d ∷ rest)
  unfolding object_path
  object_path_long a b c d rest = rw (not_short (length rest))

  -- Digests of at least four characters with one object path are equal.
  pub object_path-injective :
      (s t p : Text)
      → 4 ≤ length s
      → 4 ≤ length t
      → object_path root s ≡ some p
      → object_path root t ≡ some p
      → s ≡ t
  object_path-injective (a ∷ b ∷ c ∷ d ∷ s) (a' ∷ b' ∷ c' ∷ d' ∷ t) p hs ht es et = cc (
      append_left_cancel root {ys = 47 ∷ a ∷ b ∷ 47 ∷ c ∷ d ∷ 47 ∷ a ∷ b ∷ c ∷ d ∷ s}
        {zs = 47 ∷ a' ∷ b' ∷ 47 ∷ c' ∷ d' ∷ 47 ∷ a' ∷ b' ∷ c' ∷ d' ∷ t}
        (cc (es, et, object_path_long a b c d s, object_path_long a' b' c' d' t)))
  object_path-injective _ _ p hs ht es et = absurd (omega arith)

  pub object_path-some : (s : Text) → 4 ≤ length s → (p : Text) × (object_path root s ≡ some p)
  object_path-some (a ∷ b ∷ c ∷ d ∷ s) h = (_, object_path_long a b c d s)
  object_path-some _ h = absurd (omega arith)

  dots-object_path :
      (s p : Text) → dots s ≡ 0 → object_path root s ≡ some p → 4 ≤ length s → dots p ≡ dots root
  dots-object_path (a ∷ b ∷ c ∷ d ∷ s) p none_in e h = ground (
    arith,
    object_path_long a b c d s,
    dots-append root (47 ∷ a ∷ b ∷ 47 ∷ c ∷ d ∷ 47 ∷ a ∷ b ∷ c ∷ d ∷ s),
  )
  dots-object_path _ p none_in e h = absurd (omega arith)

  partial_path_lem :
      (s p : Text)
      → object_path root s ≡ some p
      → partial_path root s ≡ some (p ++ codes ".aethereal-partial")
  unfolding partial_path
  partial_path_lem s p e = rw e

  -- For digests of at least four characters and without a dot, the partial path of one is never
  -- the object path of another, or of the same.
  pub object_path-ne-partial_path :
      (s t p q : Text)
      → 4 ≤ length s
      → 4 ≤ length t
      → dots s ≡ 0
      → dots t ≡ 0
      → object_path root s ≡ some p
      → partial_path root t ≡ some q
      → p ≢ q
  object_path-ne-partial_path s t p q hs ht ds dt es et same =
      let (o, e) = object_path-some t ht in
      ground (
        arith,
        dots-object_path s p ds es,
        dots-object_path t o dt e,
        partial_path_lem t o e,
        dots-append o (codes ".aethereal-partial"),
      )
