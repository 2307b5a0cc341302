-- ===== src/Manifest/Lookup.antt =====
-- What the upserts of the manifest leave for later look-ups.
use pi_mobile_photobackup.Prelude.{
  ◌↔◌, false, ℕ, ◌≡◌, refl, Text, true, none, some, List, [], ◌∷◌, ◌++◌, arith, ◌==◌, ==_iff,
  Option-cases, Bool-cases, inl, inr,
}
use pi_mobile_photobackup.Identity.{ContentIdentity, identity_eq, identity_eq_iff}
use pi_mobile_photobackup.Manifest.{
  first_verified, verified_object_path, IdentityRow, ObjectRow, Manifest, find_identity,
  upsert_content_identity, is_verified, names_identity, any_verified, has_verified_object,
  find_object, update_object, mark_content_object_verified,
}

names_identity_of_find :
    (c : ContentIdentity) (i : ℕ) (ids : List IdentityRow)
    → find_identity c ids ≡ some i
    → names_identity i c ids ≡ true
unfolding find_identity names_identity
names_identity_of_find c i [] h = absurd (cc h)
names_identity_of_find c i (r ∷ rs) h =
    ground (arith, names_identity_of_find c i rs, h, ==_iff r.row_id i)

find_identity-snoc :
    (c : ContentIdentity) (r : IdentityRow) (ids : List IdentityRow)
    → find_identity c ids ≡ none
    → identity_eq r.identity c ≡ true
    → find_identity c (ids ++ r ∷ []) ≡ some r.row_id
unfolding find_identity
find_identity-snoc c r [] h same = rw same refl
find_identity-snoc c r (s ∷ ss) h same = ground (arith, h, find_identity-snoc c r ss)

-- The row id that the upsert returns is that of the identity, and asking again changes nothing.
pub find_identity-upsert :
    (c : ContentIdentity) (m : Manifest)
    → let (i, m') = upsert_content_identity c m in
      (find_identity c m'.identities ≡ some i) × (m'.objects ≡ m.objects)
unfolding upsert_content_identity
find_identity-upsert c m = elim (Option-cases (find_identity c m.identities)) [
  | inl e ↦
      rw (e, upsert_content_identity)
        (find_identity-snoc c _ m.identities e ((identity_eq_iff c c).1 refl), refl)
  | inr (i, e) ↦ rw (e, upsert_content_identity) (e, refl)
]

any_verified-update :
    (c : ContentIdentity) (ids : List IdentityRow) (i existing : ℕ) (change : ObjectRow → ObjectRow)
    (os : List ObjectRow)
    → names_identity i c ids ≡ true
    → ((o : ObjectRow)
        → (is_verified (change o).status ≡ true)
          × ((change o).content_identity_id ≡ o.content_identity_id))
    → find_object i os ≡ some existing
    → any_verified c ids (update_object existing change os) ≡ true
unfolding find_object update_object any_verified
any_verified-update c ids i existing change [] named h e = absurd (cc e)
any_verified-update c ids i existing change (o ∷ os) named h e =
    elim (Bool-cases (o.content_identity_id == i)) [
      | inl at ↦
          let same : o.row_id ≡ existing = ground (arith, e, at) in
          let id_ : o.content_identity_id ≡ i = ground (arith, at) in
          rw ((==_iff o.row_id existing).1 same, (h o).0, (h o).1, id_, named) refl
      | inr other ↦ ground (arith, any_verified-update c ids i existing change os named h, e, other)
    ]

any_verified-snoc :
    (c : ContentIdentity) (ids : List IdentityRow) (o : ObjectRow) (os : List ObjectRow)
    → is_verified o.status ≡ true
    → names_identity o.content_identity_id c ids ≡ true
    → any_verified c ids (os ++ o ∷ []) ≡ true
unfolding any_verified
any_verified-snoc c ids o [] v n = rw (v, n) refl
any_verified-snoc c ids o (p ∷ ps) v n = ground (arith, any_verified-snoc c ids o ps v n)

-- Once an object is marked as verified, its identity is found verified.
pub has_verified_object-mark :
    (c : ContentIdentity) (i : ℕ) (path : Text) (m : Manifest)
    → find_identity c m.identities ≡ some i
    → has_verified_object c (mark_content_object_verified i path m).1 ≡ true
unfolding has_verified_object mark_content_object_verified
has_verified_object-mark c i path m h =
    let named = names_identity_of_find c i m.identities h in
    elim (Option-cases (find_object i m.objects)) [
      | inl e ↦
          rw (e, mark_content_object_verified)
            (any_verified-snoc c m.identities _ m.objects refl named)
      | inr (existing, e) ↦
          rw (e, mark_content_object_verified)
            (any_verified-update c m.identities i existing _ m.objects named (λ o. (refl, refl)) e)
    ]

first_verified_lem :
    (c : ContentIdentity) (ids : List IdentityRow) (os : List ObjectRow)
    → (first_verified c ids os ≡ none) ↔ (any_verified c ids os ≡ false)
unfolding first_verified any_verified
first_verified_lem c ids [] = ((λ e. refl), (λ e. refl))
first_verified_lem c ids (o ∷ os) = ground (arith, first_verified_lem c ids os)

-- The manifest has no path of a verified object of an identity exactly when it says that there is
-- no such object.
pub verified_object_path-has_verified_object :
    (c : ContentIdentity) (m : Manifest)
    → (verified_object_path c m ≡ none) ↔ (has_verified_object c m ≡ false)
unfolding verified_object_path has_verified_object
verified_object_path-has_verified_object c m = first_verified_lem c m.identities m.objects
