-- ===== src/Linux/Mounts/Refusals.antt =====
-- linux/mount.py: what the mount of a source does before it refuses a mount.
use pi_mobile_photobackup.Prelude.{
  Text, codes, Bool, true, false, Option, none, some, List, [], ◌∷◌, ◌≡◌, ◌≢◌, refl, ap, subst, ◌∙◌,
  ◌⊎◌, inl, inr, Bool-cases, if◌then◌else◌,
}
use pi_mobile_photobackup.Effects.{
  require, value_error, Error, Result, ok, raise, Exec, pure, throw, ◌>>=◌, ◌>>◌,
  called_process_error, not_implemented, source_protection_failure,
}
use pi_mobile_photobackup.Effects.Inversion.{>>=-eq-ok, >>=-eq-raise}
use pi_mobile_photobackup.Linux.Mounts.{
  SourceMount, Commands, require_linux, set_block_read_only, get_block_read_only, mount_read_only,
  effective_read_only, read_mountinfo, tear_down, unmount, ignore_failure, mount_source_read_only,
}

-- Where a program ends that raises a SourceProtectionFailure.
abbrev Refuses : {S A : Type 0} → (S → Type 0) → Exec S A → Type 0
Refuses {S} Q m = (s s' : S) → m s ≡ (raise source_protection_failure, s') → Q s'

module _ {S A B : Type 0} (Q : S → Type 0) where
  Refuses->>= :
      (m : Exec S A) (f : A → Exec S B)
      → Refuses Q m
      → ((a : A) → Refuses Q (f a))
      → Refuses Q (m >>= f)
  Refuses->>= m f hm hf s s' h = elim (>>=-eq-raise m f s h) [
    | inl first ↦ hm s s' first
    | inr t ↦ hf t.0 t.1 s' t.3
  ]

module _ {S : Type 0} (commands : Commands S) where
  -- A command that fails is another exception than the one that the mount raises.
  pub record HasOwnErrors : Type 0 where
    pub run_error :
        (args : List Text) (s s' : S) → commands.run args s ≢ (raise source_protection_failure, s')
    pub mkdir_error :
        (path : Text) (s s' : S) → commands.mkdir path s ≢ (raise source_protection_failure, s')
    pub read_error : (s s' : S) → commands.read_text s ≢ (raise source_protection_failure, s')

  -- The last command was to unmount the mount point.
  pub record IsTakenDown (point : Text) (s : S) : Type 0 where
    pub before : S
    pub result : Result Text
    pub unmounted : commands.run (codes "umount" ∷ point ∷ []) before ≡ (result, s)

module _ {S : Type 0} (commands : Commands S) (own : HasOwnErrors commands) (Q : S → Type 0) where
  Refuses-pure : {A : Type 0} (a : A) → Refuses Q (pure {S = S} a)
  unfolding pure
  Refuses-pure a s s' h = cc

  Refuses-run : (args : List Text) → Refuses Q (commands.run args)
  Refuses-run args s s' h = absurd (own.run_error args s s' h)

  Refuses-require_linux : Refuses Q (require_linux commands)
  unfolding require_linux pure throw
  Refuses-require_linux s s' h = elim (Bool-cases commands.is_linux) [
    | inl e ↦ cc (e, h)
    | inr e ↦ cc (e, h)
  ]

  Refuses-set_block_read_only :
      (device : Text) (read_only : Bool) → Refuses Q (set_block_read_only commands device read_only)
  unfolding set_block_read_only
  Refuses-set_block_read_only device read_only =
      Refuses->>= Q _ _ Refuses-require_linux
        (λ u. Refuses->>= Q _ _ (Refuses-run _) (λ out. Refuses-pure _))

  Refuses-get_block_read_only : (device : Text) → Refuses Q (get_block_read_only commands device)
  unfolding get_block_read_only
  Refuses-get_block_read_only device =
      Refuses->>= Q _ _ Refuses-require_linux
        (λ u. Refuses->>= Q _ _ (Refuses-run _) (λ out. Refuses-pure _))

  Refuses-mount_read_only :
      (device point : Text) (fstype : Option Text)
      → Refuses Q (mount_read_only commands device point fstype)
  unfolding mount_read_only
  Refuses-mount_read_only device point fstype = Refuses->>= Q _ _ Refuses-require_linux (λ u.
      Refuses->>= Q _ _ (λ s s' h. absurd (own.mkdir_error point s s' h))
        (λ made. Refuses->>= Q _ _ (Refuses-run _) (λ out. Refuses-pure _)))

  Refuses-require : {A : Type 0} (o : Option A) → Refuses Q (require {S = S} value_error o)
  unfolding require throw pure
  Refuses-require none s s' h = cc
  Refuses-require (some a) s s' h = cc

  Refuses-read_mountinfo : Refuses Q (read_mountinfo commands)
  unfolding read_mountinfo
  Refuses-read_mountinfo =
      Refuses->>= Q _ _ (λ s s' h. absurd (own.read_error s s' h)) (λ text. Refuses-require _)

  Refuses-effective_read_only : (point : Text) → Refuses Q (effective_read_only commands point)
  unfolding effective_read_only
  Refuses-effective_read_only point =
      Refuses->>= Q _ _ Refuses-read_mountinfo (λ es. Refuses-pure _)

  Refuses-unmount : (point : Text) → Refuses Q (unmount commands point)
  unfolding unmount
  Refuses-unmount point =
      Refuses->>= Q _ _ Refuses-require_linux
        (λ u. Refuses->>= Q _ _ (Refuses-run _) (λ out. Refuses-pure _))

is_command_error-ne :
    (e : Error)
    → (◌≡◌ {A = Result (Unit {0})} (raise e) (ok tt))
      ⊎ (◌≡◌ {A = Result (Unit {0})} (raise e) (raise called_process_error))
    → e ≢ not_implemented
is_command_error-ne e (inl a) b = cc
is_command_error-ne e (inr a) b = cc

module _ {S : Type 0} (commands : Commands S) (own : HasOwnErrors commands) (point : Text) where
  require_linux-raise :
      (s s' : S) (e : Error) → require_linux commands s ≡ (raise e, s') → e ≡ not_implemented
  unfolding require_linux pure throw
  require_linux-raise s s' e h = elim (Bool-cases commands.is_linux) [
    | inl on ↦ cc (on, h)
    | inr off ↦ cc (off, h)
  ]

  -- How the unmounting ends where `tear_down` goes on.
  unmount-IsTakenDown :
      (s s' : S) (r : Result (Unit {0}))
      → unmount commands point s ≡ (r, s')
      → (r ≡ ok tt) ⊎ (r ≡ raise called_process_error)
      → IsTakenDown commands point s'
  unfolding unmount pure require_linux throw
  unmount-IsTakenDown s s' (ok u) h how =
      let t = >>=-eq-ok (require_linux commands) _ s h in
      let r = >>=-eq-ok (commands.run (codes "umount" ∷ point ∷ [])) _ t.1 t.3 in
      let same : r.1 ≡ s' = cc r.3 in
      record { before = t.1; result = ok r.0; unmounted = r.2 ∙ ap (λ u. (ok r.0, u)) same }
  unmount-IsTakenDown s s' (raise e) h how = elim (>>=-eq-raise (require_linux commands) _ s h) [
    | inl first ↦ absurd (is_command_error-ne e how (require_linux-raise s s' e first))
    | inr t ↦ elim (>>=-eq-raise (commands.run (codes "umount" ∷ point ∷ [])) _ t.1 t.3) [
      | inl failed ↦ record { before = t.1; result = raise e; unmounted = failed }
      | inr r ↦ cc r.3
    ]
  ]

  ignore_failure-raise :
      (r : Result (Unit {0})) (t s' : S) (e : Error)
      → ignore_failure (r, t) ≡ (raise e, s')
      → ◌≡◌ {A = Result (Unit {0}) × S} (r, t) (raise e, s')
  unfolding ignore_failure
  ignore_failure-raise (ok v) t s' e h = cc
  ignore_failure-raise (raise called_process_error) t s' e h = cc
  ignore_failure-raise (raise x) t s' e h = h

  ignore_failure-ok :
      (r : Result (Unit {0})) (t s' : S) (u : Unit {0})
      → ignore_failure (r, t) ≡ (ok u, s')
      → ((r ≡ ok tt) ⊎ (r ≡ raise called_process_error)) × (t ≡ s')
  unfolding ignore_failure
  ignore_failure-ok (ok v) t s' u h = (inl refl, cc)
  ignore_failure-ok (raise called_process_error) t s' u h = (inr refl, cc)
  ignore_failure-ok (raise e) t s' u h = cc

  tear_down-IsTakenDown :
      (s s' : S) (u : Unit {0})
      → tear_down commands point s ≡ (ok u, s')
      → IsTakenDown commands point s'
  unfolding tear_down
  tear_down-IsTakenDown s s' u h =
      let t = ignore_failure-ok (unmount commands point s).0 (unmount commands point s).1 s' u h in
      unmount-IsTakenDown s s' (unmount commands point s).0
        (ap (λ x. ((unmount commands point s).0, x)) t.1) t.0

  -- The last step, for what the mount table showed.
  Refuses-last :
      (result : SourceMount) (mount_ro : Bool)
      → Refuses (IsTakenDown commands point) (
          if mount_ro
          then pure result
          else tear_down commands point >> throw source_protection_failure)
  unfolding pure throw
  Refuses-last result true s s' h = cc
  Refuses-last result false s s' h = elim (>>=-eq-raise (tear_down commands point) _ s h) [
    | inl first ↦ Refuses-unmount commands own (IsTakenDown commands point) point s s' (
        unfold tear_down in
        ignore_failure-raise (unmount commands point s).0 (unmount commands point s).1 s'
          source_protection_failure first)
    | inr t ↦
        let same : t.1 ≡ s' = cc t.3 in
        subst (IsTakenDown commands point) same (tear_down-IsTakenDown s t.1 t.0 t.2)
  ]

  -- If no command, no creation of a directory and no reading of the mount table itself raises a
  -- SourceProtectionFailure, then `mount_source_read_only` raises it only after the command that
  -- unmounts the mount point, as the last command it runs.
  pub mount_source_read_only-IsTakenDown :
      (device : Text) (fstype : Option Text) (s s' : S)
      → mount_source_read_only commands device point fstype s
        ≡ (raise source_protection_failure, s')
      → IsTakenDown commands point s'
  unfolding mount_source_read_only
  mount_source_read_only-IsTakenDown device fstype =
      let Q = IsTakenDown commands point in
      Refuses->>= Q _ _ (Refuses-require_linux commands own Q) (λ u0.
        Refuses->>= Q _ _ (Refuses-set_block_read_only commands own Q device true) (λ u1.
          Refuses->>= Q _ _ (Refuses-get_block_read_only commands own Q device) (λ block_ro.
            Refuses->>= Q _ _ (Refuses-mount_read_only commands own Q device point fstype) (λ u2.
              Refuses->>= Q _ _ (Refuses-effective_read_only commands own Q point)
                (λ mount_ro. Refuses-last _ mount_ro)))))
