-- ===== src/World/Store.antt =====
-- When the object store is sound, and what keeps it so.
use pi_mobile_photobackup.Prelude.{
  ℕ, ◌≤◌, ◌<◌, ◌≡◌, ◌⊎◌, inl, inr, Text, Bytes, true, false, some, List, [], ◌∷◌, arith, ◌==◌,
  text_eq, text_eq_iff, length, count_p, All, Bool-cases,
}
use pi_mobile_photobackup.Identity.{Sha256, is_dot}
use pi_mobile_photobackup.ObjectStore.{object_path}
use pi_mobile_photobackup.ObjectStore.Paths.{object_path-injective}
use pi_mobile_photobackup.Files.{Files, inode, blob, exists, unlink, create, write, link, replace}
use pi_mobile_photobackup.Files.Laws.{
  inode-unlink, inode-create, inode-link, inode-replace, blob-write, blob-create,
}
use pi_mobile_photobackup.Manifest.{Manifest, ObjectRow, is_verified}

-- A digest as SHA-256 prints it: long enough for the sharded path, and without a dot.
pub record IsDigest (s : Text) : Type 0 where
  pub long : 4 ≤ length s
  pub no_dot : count_p is_dot s ≡ 0

-- A path is that of the object of some digest.
abbrev pub IsObjectPath : Text → Text → Type 0
IsObjectPath root p = (s : Text) × IsDigest s × (object_path root s ≡ some p)

module _ (sha : Sha256) (root : Text) where
  -- Whatever stands at the object path of a digest has this digest, and no name refers to an inode
  -- that is still to come.
  pub record StoreSound (f : Files) : Type 0 where
    pub stored :
        (s p : Text) (i : ℕ)
        → IsDigest s
        → object_path root s ≡ some p
        → inode p f ≡ some i
        → sha.hexdigest (blob i f) ≡ s
    pub old : (p : Text) (i : ℕ) → inode p f ≡ some i → i < f.next_inode

  -- A row that says VERIFIED has its object in the store.
  abbrev pub RowSound : Files → ObjectRow → Type 0
  RowSound f o =
      is_verified o.status ≡ true
      → IsObjectPath root o.object_path × (exists o.object_path f ≡ true)

  pub record Sound (f : Files) (d : Manifest) : Type 0 where
    pub store : StoreSound f
    pub rows : All (RowSound f) d.objects

-- `i` has no name but `p`.
abbrev pub OnlyName : Text → ℕ → Files → Type 0
OnlyName p i f = (q : Text) → inode q f ≡ some i → p ≡ q

-- Two paths are the same, or the text comparison tells them apart.
same_or_other : (p q : Text) → (p ≡ q) ⊎ (text_eq p q ≡ false)
same_or_other p q = elim (Bool-cases (text_eq p q)) [
  | inl e ↦ inl ((text_eq_iff p q).0 e)
  | inr e ↦ inr e
]

module _ (sha : Sha256) (root : Text) (f : Files) (h : StoreSound sha root f) where
  pub unlink-StoreSound : (p : Text) → StoreSound sha root (unlink p f)
  unfolding unlink
  unlink-StoreSound p = record {
    stored = λ s q i d e n. h.stored s q i d e (ground (arith, inode-unlink p q f));
    old = λ q i n. h.old q i (ground (arith, inode-unlink p q f));
  }

  pub create-StoreSound : (p : Text) → (IsObjectPath root p → ⊥) → StoreSound sha root (create p f)
  create-StoreSound p not_object = record {
    stored = λ s q i d e n. elim (same_or_other p q) [
      | inl same ↦ absurd (not_object (s, d, rw same e))
      | inr other ↦
          let n' : inode q f ≡ some i = ground (arith, inode-create p q f) in
          ground (arith, h.stored s q i d e n', h.old q i n', blob-create p i f)
    ];
    old = λ q i n. unfold create in ground (arith, inode-create p q f, h.old q i);
  }

  pub write-StoreSound :
      (p : Text) (i : ℕ) (b : Bytes)
      → (IsObjectPath root p → ⊥)
      → OnlyName p i f
      → StoreSound sha root (write i b f)
  write-StoreSound p i b not_object only = record {
    stored = λ s q j d e n.
        let n' : inode q f ≡ some j = unfold write in n in
        elim (Bool-cases (i == j)) [
          | inl same ↦
              let here : inode q f ≡ some i = ground arith in
              absurd (not_object (s, d, rw (only q here) e))
          | inr other ↦ ground (arith, h.stored s q j d e n', blob-write i j b f)
        ];
    old = λ q j n. unfold write in h.old q j n;
  }

  pub link-StoreSound :
      (i : ℕ) (p : Text)
      → (IsObjectPath root p → ⊥)
      → i < f.next_inode
      → StoreSound sha root (link i p f)
  link-StoreSound i p not_object known = record {
    stored = λ s q j d e n. elim (same_or_other p q) [
      | inl same ↦ absurd (not_object (s, d, rw same e))
      | inr other ↦ unfold link in h.stored s q j d e (ground (arith, inode-link p q f i))
    ];
    old = λ q j n. unfold link in ground (arith, inode-link p q f i, h.old q j);
  }

  -- A file whose content has the digest may take the object path of the digest.
  pub replace-StoreSound :
      (p : Text) (i : ℕ) (s q : Text)
      → object_path root s ≡ some q
      → IsDigest s
      → inode p f ≡ some i
      → sha.hexdigest (blob i f) ≡ s
      → StoreSound sha root (replace p i q f)
  unfolding replace
  replace-StoreSound p i s q e d n good = record {
    stored = λ t r j dt et nt. elim (same_or_other q r) [
      | inl same ↦
          let here : i ≡ j = ground (arith, inode-replace p q f i r, text_eq_iff q r) in
          let digests : s ≡ t = object_path-injective root s t q d.long dt.long e (rw same et) in
          ground arith
      | inr other ↦ h.stored t r j dt et (ground (arith, inode-replace p q f i r))
    ];
    old = λ r j nr. ground (arith, inode-replace p q f i r, h.old r j, h.old p i);
  }

-- What an operation leaves of the files that the rows name.
abbrev pub Retains : Text → Files → Files → Type 0
Retains root f g = (p : Text) → IsObjectPath root p → exists p f ≡ true → exists p g ≡ true

module _ (root : Text) (f : Files) where
  pub unlink-Retains : (p : Text) → (IsObjectPath root p → ⊥) → Retains root f (unlink p f)
  unfolding exists
  unlink-Retains p not_object q o e = elim (same_or_other p q) [
    | inl same ↦ absurd (not_object (rw same o))
    | inr other ↦ ground (arith, inode-unlink p q f)
  ]

  pub create-Retains : (p : Text) → Retains root f (create p f)
  unfolding exists
  create-Retains p q o e = ground (arith, inode-create p q f)

  pub write-Retains : (i : ℕ) (b : Bytes) → Retains root f (write i b f)
  unfolding exists write
  write-Retains i b q o e = e

  pub link-Retains : (i : ℕ) (p : Text) → Retains root f (link i p f)
  unfolding exists
  link-Retains i p q o e = ground (arith, inode-link p q f i)

  pub replace-Retains :
      (p : Text) (i : ℕ) (q : Text) → (IsObjectPath root p → ⊥) → Retains root f (replace p i q f)
  unfolding exists
  replace-Retains p i q not_object r o e = elim (same_or_other p r) [
    | inl same ↦ absurd (not_object (rw same o))
    | inr other ↦ ground (arith, inode-replace p q f i r)
  ]

rows-Retains :
    (root : Text) (sha : Sha256) (f g : Files) (os : List ObjectRow)
    → Retains root f g
    → All (RowSound sha root f) os
    → All (RowSound sha root g) os
rows-Retains root sha f g [] keep h = tt
rows-Retains root sha f g (o ∷ os) keep h = (
  λ v. ((h.0 v).0, keep o.object_path (h.0 v).0 (h.0 v).1),
  rows-Retains root sha f g os keep h.1,
)

pub Sound-Retains :
    (sha : Sha256) (root : Text) (f g : Files) (d : Manifest)
    → StoreSound sha root g
    → Retains root f g
    → Sound sha root f d
    → Sound sha root g d
Sound-Retains sha root f g d store keep h = record {
  store = store;
  rows = rows-Retains root sha f g d.objects keep h.rows;
}
