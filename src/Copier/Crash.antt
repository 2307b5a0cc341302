-- ===== src/Copier/Crash.antt =====
-- The steps of a copy in copier.py: the object store and the rows at each point where the power may
-- fail, and however the copy ends.
use pi_mobile_photobackup.Prelude.{
  ℕ, zero, suc, ◌≡◌, refl, sym, ◌≢◌, ◌∙◌, Text, Bytes, true, not, ◌||◌, Option, none, some, arith,
  text_eq, text_eq_iff, ◌==◌, if◌then◌else◌,
}
use pi_mobile_photobackup.Prelude.Maybe.{eq_of_some}
use pi_mobile_photobackup.Identity.{Sha256, ContentIdentity, hash_stream, content_identity_of_bytes}
use pi_mobile_photobackup.Identity.Streaming.{hash_stream_lem}
use pi_mobile_photobackup.ObjectStore.{object_path}
use pi_mobile_photobackup.Effects.{pure, ◌>>◌}
use pi_mobile_photobackup.Files.{Files, unlink, write, inode, blob, exists}
use pi_mobile_photobackup.Files.Laws.{inode-create, inode-link, exists_of_inode}
use pi_mobile_photobackup.World.{SourceRead, missing, readable, fails_at, Environment, on_files}
use pi_mobile_photobackup.World.Rules.{
  Prop, Spec, Spec-pure, Spec-throw, Spec-gets, Spec-require, Spec-if, Spec-on_files,
  Spec-open_source, Spec-bind, Spec-weaken, Spec-given,
}
use pi_mobile_photobackup.World.Store.{
  IsDigest, IsObjectPath, Sound, OnlyName, unlink-StoreSound, create-StoreSound, write-StoreSound,
  link-StoreSound, replace-StoreSound, unlink-Retains, create-Retains, write-Retains, link-Retains,
  replace-Retains, Sound-Retains,
}
use pi_mobile_photobackup.World.Rows.{record_pending_finalize_lem, mark_verified_lem}
use pi_mobile_photobackup.Copier
use pi_mobile_photobackup.Copier.{
  CopyResult, failed_outcome, AttemptResult, attempt_ok, attempt_source_unstable,
  attempt_destination_mismatch, is_ok, Attempt, copy_loop, digest_of, create_exclusive, link_at,
  link_into_session, link_verified_object, write_partial, verify_landed, copy_delivered,
  copy_and_verify_once, rename, finalize, copy_rounds, copy_verify_finalize,
}

pub unstable_ne_ok : attempt_source_unstable ≢ attempt_ok
unstable_ne_ok h = cc

pub failed_ne_verified : (r : AttemptResult) → failed_outcome r ≢ Copier.verified
unfolding failed_outcome
failed_ne_verified attempt_ok h = cc
failed_ne_verified attempt_source_unstable h = cc
failed_ne_verified attempt_destination_mismatch h = cc

pub ok_of_is_ok : (r : AttemptResult) → is_ok r ≡ true → r ≡ attempt_ok
ok_of_is_ok r h = ground arith

module _ (sha : Sha256) (root : Text) where
  abbrev pub S : Prop
  S = Sound sha root

  -- Dropping a name that is no object path.
  unlink_lem : (p : Text) → (IsObjectPath root p → ⊥) → Spec S (on_files (unlink p)) (λ _. S) S
  unlink_lem p not_object =
      Spec-on_files _ (λ f d h. h)
        (λ f d h.
          Sound-Retains sha root f _ d (unlink-StoreSound sha root f h.store p)
            (unlink-Retains root f p not_object) h)

  -- A session link never takes an object's path.
  link_into_session_lem :
      (final session : Text)
      → (IsObjectPath root session → ⊥)
      → Spec S (link_into_session final session) (λ _ f d. S f d × (exists final f ≡ true)) S
  unfolding link_into_session
  link_into_session_lem final session not_object =
      Spec-bind (λ o f d. S f d × (inode final f ≡ o)) (Spec-gets _ (λ w h. (h, refl)))
        λ o.
          Spec-bind (λ i f d. S f d × (inode final f ≡ some i))
            (Spec-require _ o (λ f d h. h.0) (λ i e f d h. (h.0, h.1 ∙ e)))
            λ i.
              Spec-bind
                (λ taken f d. (S f d × (inode final f ≡ some i)) × (inode session f ≡ taken))
                (Spec-gets _ (λ w h. (h, refl))) (at i)
    where
      at :
          (i : ℕ) (taken : Option ℕ)
          → Spec
              (λ f d. (S f d × (inode final f ≡ some i)) × (inode session f ≡ taken))
              (link_at i session taken)
              (λ _ f d. S f d × (exists final f ≡ true))
              S
      at i none =
          Spec-on_files _ (λ f d h. h.0.0)
            (λ f d h. (
              Sound-Retains sha root f _ d
                  (link-StoreSound sha root f h.0.0.store i session not_object
                    (h.0.0.store.old final i h.0.1))
                  (link-Retains root f i session) h.0.0,
              exists_of_inode final _ {i = i} (
                  ground
                    (arith, inode-link session final f i, h.0.1, h.1, text_eq_iff session final)),
            ))
      at i (some j) =
          Spec-if (j == i) _ _ (λ _. Spec-pure tt (λ f d h. (h.0.0, exists_of_inode final f h.0.1)))
            (λ _. Spec-throw _ (λ f d h. h.0.0))

  -- Where an object has its place.
  abbrev pub Placed : ContentIdentity → CopyResult → Prop
  Placed c result f d =
      S f d
      × (result.outcome ≡ Copier.verified
          → (p : Text) × (object_path root c.sha256 ≡ some p) × (exists p f ≡ true))

  pub link_verified_object_lem :
      (job : Text) (c : ContentIdentity) (session : Text)
      → IsDigest c.sha256
      → (IsObjectPath root session → ⊥)
      → Spec S (link_verified_object job root c session) (Placed c) S
  unfolding link_verified_object
  link_verified_object_lem job c session digest not_object =
      Spec-bind (λ final f d. S f d × (object_path root c.sha256 ≡ some final))
        (Spec-require _ _ (λ f d h. h) (λ final e f d h. (h, e)))
        λ final. Spec-given _ λ e.
          Spec-bind (λ _. S) (Spec-gets _ (λ w h. h))
            λ there.
              Spec-if there _ _
                (λ _.
                  Spec-bind (λ _ f d. S f d × (exists final f ≡ true))
                    (link_into_session_lem final session not_object)
                    λ _.
                      Spec-bind (λ _ f d. S f d × (exists final f ≡ true))
                        (mark_verified_lem sha root job c final session (c.sha256, digest, e))
                        λ _. Spec-pure _ (λ f d h. (h.0, λ _. (final, e, h.1))))
                (λ _. Spec-throw _ (λ f d h. h))

  -- The digest that `hash_stream` returns is that of the content, and hashing changes nothing.
  digest_of_lem :
      (content : Bytes) (n : ℕ) (P : Prop)
      → Spec P
          (digest_of (hash_stream sha content n))
          (λ h f d. P f d × (h ≡ sha.hexdigest content))
          P
  unfolding digest_of content_identity_of_bytes
  digest_of_lem content zero P = unfold hash_stream in Spec-throw _ (λ f d h. h)
  digest_of_lem content (suc n) P =
      rw (hash_stream_lem sha content (suc n) (omega arith)) (Spec-pure _ (λ f d h. (h, refl)))

  module _ (env : Environment) (n : ℕ) (partial : Text) (not_object : IsObjectPath root partial → ⊥)
      (c : ContentIdentity) where
    -- The partial file holds content of the expected digest.
    abbrev Loaded : Attempt → Prop
    Loaded a f d =
        S f d
        × (a.result ≡ attempt_ok
            → (i : ℕ) × (inode partial f ≡ some i) × (sha.hexdigest (blob i f) ≡ c.sha256))

    abbrev Fresh : ℕ → Prop
    Fresh i f d = S f d × (inode partial f ≡ some i) × OnlyName partial i f

    create_exclusive_lem : Spec S (create_exclusive partial) Fresh S
    unfolding create_exclusive
    create_exclusive_lem =
        Spec-bind (λ _. S) (Spec-gets _ (λ w h. h))
          λ taken.
            Spec-if taken _ _ (λ _. Spec-throw _ (λ f d h. h))
              (λ _.
                Spec-bind (λ i f d. S f d × (f.next_inode ≡ i)) (Spec-gets _ (λ w h. (h, refl)))
                  λ i.
                    Spec-bind (λ _. Fresh i)
                      (Spec-on_files _ (λ f d h. h.0)
                        (λ f d h. (
                          Sound-Retains sha root f _ d
                              (create-StoreSound sha root f h.0.store partial not_object)
                              (create-Retains root f partial) h.0,
                          ground (
                            arith,
                            inode-create partial partial f,
                            h.1,
                            text_eq_iff partial partial,
                          ),
                          λ q e. ground (
                            arith,
                            inode-create partial q f,
                            h.1,
                            text_eq_iff partial q,
                            h.0.store.old q i,
                          ),
                        )))
                      λ _. Spec-pure i (λ f d h. h))

    write_partial_lem :
        (i : ℕ) (out : Bytes) → Spec (Fresh i) (write_partial sha env n i out) (λ _. Fresh i) S
    unfolding write_partial
    write_partial_lem i out =
        Spec-bind (λ _. Fresh i) (Spec-gets _ (λ w h. h))
          λ k.
            Spec-on_files _ (λ f d h. h.0)
              (λ f d h. (
                Sound-Retains sha root f _ d
                    (write-StoreSound sha root f h.0.store partial i (env.lands k out) not_object
                      h.2)
                    (write-Retains root f i (env.lands k out)) h.0,
                unfold write in h.1,
                unfold write in h.2,
              ))

    verify_landed_lem :
        (h2 : Text) (size : ℕ) → Spec S (verify_landed sha env n partial c h2 size) Loaded S
    unfolding verify_landed
    verify_landed_lem h2 size =
        Spec-bind (λ o f d. S f d × (inode partial f ≡ o)) (Spec-gets _ (λ w h. (h, refl)))
          λ o.
            Spec-bind (λ i f d. S f d × (inode partial f ≡ some i))
              (Spec-require _ o (λ f d h. h.0) (λ i e f d h. (h.0, h.1 ∙ e)))
              λ i.
                Spec-bind
                  (λ content f d. (S f d × (inode partial f ≡ some i)) × (blob i f ≡ content))
                  (Spec-gets _ (λ w h. (h, refl)))
                  λ content.
                    Spec-bind _
                      (Spec-weaken (λ f d h. h) (λ _ f d h. h) (λ f d h. h.0.0)
                        (digest_of_lem content n _))
                      λ h3.
                        Spec-if (text_eq h3 c.sha256) _ _
                          (λ same. Spec-pure _ (λ f d h. (
                            h.0.0.0,
                            λ _. (i, h.0.0.1, ground (arith, h.0.1, h.1, text_eq_iff h3 c.sha256)),
                          )))
                          (λ _.
                            Spec-bind (λ _. S)
                              (Spec-weaken (λ f d h. h.0.0.0) (λ _ f d h. h) (λ f d h. h)
                                (unlink_lem partial not_object))
                              λ _. Spec-pure _ (λ f d h. (h, λ wrong. absurd (cc wrong))))

    copy_delivered_lem :
        (source : SourceRead) → Spec S (copy_delivered sha env n partial c source) Loaded S
    unfolding copy_delivered
    copy_delivered_lem missing = Spec-throw _ (λ f d h. h)
    copy_delivered_lem (fails_at b) =
        Spec-bind Fresh create_exclusive_lem
          λ i. Spec-bind (λ _. Fresh i) (write_partial_lem i b) λ _. Spec-throw _ (λ f d h. h.0)
    copy_delivered_lem (readable b) = Spec-bind Fresh create_exclusive_lem λ i.
        Spec-bind (λ _. Fresh i) (Spec-require _ _ (λ f d h. h.0) (λ _ _ f d h. h))
          λ loop.
            Spec-bind (λ _. Fresh i) (write_partial_lem i loop.2)
              λ _. Spec-weaken (λ f d h. h.0) (λ _ f d h. h) (λ f d h. h) (compared loop.0 loop.1)
      where
        unstable : ℕ → Text → Attempt
        unstable size h2 = record {
          result = attempt_source_unstable;
          h2 = h2;
          h3 = none;
          size = size;
        }

        compared :
            (size : ℕ) (fed : Bytes)
            → Spec S
                (if not (size == c.size_bytes) || not (text_eq (sha.hexdigest fed) c.sha256)
                  then (do on_files (unlink partial); pure (unstable size (sha.hexdigest fed)))
                  else verify_landed sha env n partial c (sha.hexdigest fed) size)
                Loaded
                S
        compared size fed =
            Spec-if (not (size == c.size_bytes) || not (text_eq (sha.hexdigest fed) c.sha256)) _ _
              (λ _.
                Spec-bind (λ _. S) (unlink_lem partial not_object)
                  λ _. Spec-pure _ (λ f d h. (h, λ wrong. absurd (unstable_ne_ok wrong))))
              (λ _. verify_landed_lem (sha.hexdigest fed) size)

    copy_and_verify_once_lem :
        (source_path : Text)
        → Spec S (copy_and_verify_once sha env n source_path partial c) Loaded S
    unfolding copy_and_verify_once
    copy_and_verify_once_lem source_path =
        Spec-bind (λ _. S) (unlink_lem partial not_object)
          λ _. Spec-bind (λ _. S) (Spec-open_source env source_path) copy_delivered_lem

    module _ (job source_path session : Text) (not_session : IsObjectPath root session → ⊥)
        (digest : IsDigest c.sha256) (final : Text)
        (place : object_path root c.sha256 ≡ some final) where
      abbrev Verified : Files → Type 0
      Verified f = (i : ℕ) × (inode partial f ≡ some i) × (sha.hexdigest (blob i f) ≡ c.sha256)

      rename_lem :
          Spec
            (λ f d. S f d × Verified f)
            (rename sha env n job source_path session c partial final)
            (λ _. S)
            S
      unfolding rename
      rename_lem =
          Spec-bind (λ o f d. (S f d × Verified f) × (inode partial f ≡ o))
            (Spec-gets _ (λ w h. (h, refl)))
            λ o.
              Spec-bind (λ i f d. (S f d × Verified f) × (inode partial f ≡ some i))
                (Spec-require _ o (λ f d h. h.0.0) (λ i e f d h. (h.0, h.1 ∙ e)))
                λ i.
                  Spec-on_files _ (λ f d h. h.0.0)
                    (λ f d h.
                      let same : h.0.1.0 ≡ i = eq_of_some (sym h.0.1.1 ∙ h.1) in
                      Sound-Retains sha root f _ d
                        (replace-StoreSound sha root f h.0.0.store partial i c.sha256 final place
                          digest h.1 (rw (← same) h.0.1.2))
                        (replace-Retains root f partial i final not_object) h.0.0)

      finalize_lem :
          (a : Attempt) (k : ℕ)
          → Spec
              (λ f d. S f d × Verified f)
              (finalize sha env n job source_path session c partial final a k)
              (Placed c)
              S
      unfolding finalize
      finalize_lem a k =
          Spec-bind (λ _ f d. S f d × Verified f)
            (record_pending_finalize_lem sha root Verified job c partial final session)
            λ _.
              Spec-bind (λ _. S) rename_lem
                λ _.
                  Spec-bind (λ _ f d. S f d × (exists final f ≡ true))
                    (link_into_session_lem final session not_session)
                    λ _.
                      Spec-bind (λ _ f d. S f d × (exists final f ≡ true))
                        (mark_verified_lem sha root job c final session (c.sha256, digest, place))
                        λ _. Spec-pure _ (λ f d h. (h.0, λ _. (final, place, h.1)))

      pub copy_rounds_lem :
          (rounds k : ℕ) (last : AttemptResult) (h2 h3 : Option Text)
          → Spec S
              (copy_rounds sha env n job source_path session c rounds partial final k last h2 h3)
              (Placed c)
              S
      unfolding copy_rounds
      copy_rounds_lem zero k last h2 h3 =
          Spec-bind (λ _. S) (unlink_lem partial not_object)
            λ _. Spec-pure _ (λ f d h. (h, λ wrong. absurd (failed_ne_verified last wrong)))
      copy_rounds_lem (suc rounds) k last h2 h3 =
          Spec-bind Loaded (copy_and_verify_once_lem source_path) λ a.
            Spec-if (is_ok a.result) _ _
              (λ e.
                Spec-weaken (λ f d h. (h.0, h.1 (ok_of_is_ok a.result e))) (λ _ f d h. h)
                  (λ f d h. h) (finalize_lem a (suc k)))
              (λ _.
                Spec-weaken (λ f d h. h.0) (λ _ f d h. h) (λ f d h. h)
                  (copy_rounds_lem rounds (suc k) a.result (some a.h2) a.h3))
