-- ===== src/World/Rows.antt =====
-- What the statements of the manifest do to rows that say VERIFIED, and what the journal keeps.
use pi_mobile_photobackup.Prelude.{
  ℕ, ◌≡◌, inl, inr, Text, true, some, List, [], ◌∷◌, arith, ◌==◌, All, All-append, Bool-cases,
  Option-cases,
}
use pi_mobile_photobackup.Identity.{Sha256, ContentIdentity}
use pi_mobile_photobackup.Files.{Files, exists}
use pi_mobile_photobackup.Manifest.{
  Manifest, ObjectRow, EntryState, entry_pending, upsert_content_identity,
  upsert_content_object_pending, mark_content_object_verified, insert_session_entry,
  finalize_session_entry, update_object, find_object,
}
use pi_mobile_photobackup.World.Rules.{Spec, Spec-on_db, Spec-try_db, Spec-bind}
use pi_mobile_photobackup.World.Store.{IsObjectPath, RowSound, Sound}
use pi_mobile_photobackup.Journal.{record_pending_finalize, mark_verified}

objects-upsert_content_identity :
    (c : ContentIdentity) (d : Manifest) → (upsert_content_identity c d).1.objects ≡ d.objects
unfolding upsert_content_identity
objects-upsert_content_identity c d = ground arith

objects-insert_session_entry :
    (job : Text) (i : ℕ) (path : Text) (state : EntryState) (d : Manifest) (e : ℕ) (d' : Manifest)
    → insert_session_entry job i path state d ≡ some (e, d')
    → d'.objects ≡ d.objects
unfolding insert_session_entry
objects-insert_session_entry job i path state d e d' h = ground arith

objects-finalize_session_entry :
    (job : Text) (i : ℕ) (path : Text) (d : Manifest) (e : ℕ) (d' : Manifest)
    → finalize_session_entry job i path d ≡ some (e, d')
    → d'.objects ≡ d.objects
unfolding finalize_session_entry
objects-finalize_session_entry job i path d e d' h = ground arith

module _ (P : ObjectRow → Type 0) (change : ObjectRow → ObjectRow)
    (good : (o : ObjectRow) → P (change o)) where
  All-update_object : (i : ℕ) (os : List ObjectRow) → All P os → All P (update_object i change os)
  unfolding update_object
  All-update_object i [] h = tt
  All-update_object i (o ∷ os) h = elim (Bool-cases (o.row_id == i)) [
    | inl e ↦ rw e (good o, All-update_object i os h.1)
    | inr e ↦ rw e (h.0, All-update_object i os h.1)
  ]

module _ (sha : Sha256) (root : Text) (f : Files) (d : Manifest) (h : Sound sha root f d) where
  Sound-objects : (d' : Manifest) → d'.objects ≡ d.objects → Sound sha root f d'
  Sound-objects d' e = record { store = h.store; rows = rw e h.rows }

  Sound-pending :
      (i : ℕ) (path temp : Text) → Sound sha root f (upsert_content_object_pending i path temp d).1
  unfolding upsert_content_object_pending
  Sound-pending i path temp = elim (Option-cases (find_object i d.objects)) [
    | inl e ↦
        rw (e, upsert_content_object_pending)
          (record {
            store = h.store;
            rows = All-append (RowSound sha root f) d.objects _ h.rows ((λ v. absurd (cc v)), tt);
          })
    | inr (j, e) ↦
        rw (e, upsert_content_object_pending)
          (record {
            store = h.store;
            rows =
                All-update_object (RowSound sha root f) _ (λ _ v. absurd (cc v)) j d.objects h.rows;
          })
  ]

  Sound-mark :
      (i : ℕ) (path : Text)
      → IsObjectPath root path
      → exists path f ≡ true
      → Sound sha root f (mark_content_object_verified i path d).1
  unfolding mark_content_object_verified
  Sound-mark i path o there = elim (Option-cases (find_object i d.objects)) [
    | inl e ↦
        rw (e, mark_content_object_verified)
          (record {
            store = h.store;
            rows = All-append (RowSound sha root f) d.objects _ h.rows ((λ v. (o, there)), tt);
          })
    | inr (j, e) ↦
        rw (e, mark_content_object_verified)
          (record {
            store = h.store;
            rows = All-update_object (RowSound sha root f) _ (λ _ v. (o, there)) j d.objects h.rows;
          })
  ]

module _ (sha : Sha256) (root : Text) (X : Files → Type 0) where
  -- The journal's first record keeps the manifest sound, and touches no file.
  pub record_pending_finalize_lem :
      (job : Text) (c : ContentIdentity) (temp final session : Text)
      → Spec
          (λ f d. Sound sha root f d × X f)
          (record_pending_finalize job c temp final session)
          (λ _ f d. Sound sha root f d × X f)
          (Sound sha root)
  unfolding record_pending_finalize
  record_pending_finalize_lem job c temp final session =
      Spec-bind (λ _ f d. Sound sha root f d × X f)
        (Spec-on_db _ (λ f d h. h.0)
          (λ f d h. (Sound-objects sha root f d h.0 _ (objects-upsert_content_identity c d), h.1)))
        λ i.
          Spec-bind (λ _ f d. Sound sha root f d × X f)
            (Spec-on_db _ (λ f d h. h.0)
              (λ f d h. (Sound-pending sha root f d h.0 i final temp, h.1)))
            λ j.
              Spec-try_db _ (λ f d h. h.0)
                (λ f d e d' h made. (
                  Sound-objects sha root f d h.0 d'
                      (objects-insert_session_entry job j session entry_pending d e d' made),
                  h.1,
                ))

module _ (sha : Sha256) (root : Text) where
  -- The journal's second record wants the object in its place.
  pub mark_verified_lem :
      (job : Text) (c : ContentIdentity) (final session : Text)
      → IsObjectPath root final
      → Spec
          (λ f d. Sound sha root f d × (exists final f ≡ true))
          (mark_verified job c final session)
          (λ _ f d. Sound sha root f d × (exists final f ≡ true))
          (Sound sha root)
  unfolding mark_verified
  mark_verified_lem job c final session o =
      Spec-bind (λ _ f d. Sound sha root f d × (exists final f ≡ true))
        (Spec-on_db _ (λ f d h. h.0)
          (λ f d h. (Sound-objects sha root f d h.0 _ (objects-upsert_content_identity c d), h.1)))
        λ i.
          Spec-bind (λ _ f d. Sound sha root f d × (exists final f ≡ true))
            (Spec-on_db _ (λ f d h. h.0)
              (λ f d h. (Sound-mark sha root f d h.0 i final o h.1, h.1)))
            λ j.
              Spec-try_db _ (λ f d h. h.0)
                (λ f d e d' h made. (
                  Sound-objects sha root f d h.0 d'
                      (objects-finalize_session_entry job j session d e d' made),
                  h.1,
                ))
