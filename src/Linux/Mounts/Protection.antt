-- ===== src/Linux/Mounts/Protection.antt =====
-- linux/mount.py: what the mount of a source has seen of the mount table when it returns.
use pi_mobile_photobackup.Prelude.{
  Text, Bool, true, false, Option, none, some, List, ◌≡◌, refl, ap, subst, ◌∙◌, if◌then◌else◌,
}
use pi_mobile_photobackup.Effects.{ok, pure, throw, ◌>>◌, source_protection_failure}
use pi_mobile_photobackup.Effects.Inversion.{>>=-eq-ok}
use pi_mobile_photobackup.Linux.MountInfo.{MountInfoEntry, entry_read_only, find_by_mount_point}
use pi_mobile_photobackup.Linux.Mounts.{
  SourceMount, Commands, require_linux, set_block_read_only, get_block_read_only, mount_read_only,
  effective_read_only, read_mountinfo, tear_down, found_read_only, mount_source_read_only,
}

module _ {S : Type 0} (commands : Commands S) where
  found_read_only-true :
      (o : Option MountInfoEntry)
      → found_read_only commands o ≡ true
      → (e : MountInfoEntry) × (o ≡ some e) × (entry_read_only e ≡ true)
  unfolding found_read_only
  found_read_only-true none h = cc
  found_read_only-true (some e) h = (e, refl, h)

  -- The mount table was read last, and its entry for the mount point is read-only.
  pub record IsSeenReadOnly (point : Text) (s : S) : Type 0 where
    pub before : S
    pub entries : List MountInfoEntry
    pub entry : MountInfoEntry
    pub read_last : read_mountinfo commands before ≡ (ok entries, s)
    pub found : find_by_mount_point commands.normal entries point ≡ some entry
    pub read_only : entry_read_only entry ≡ true

  effective_read_only-true :
      (point : Text) (s s' : S)
      → effective_read_only commands point s ≡ (ok true, s')
      → IsSeenReadOnly point s'
  unfolding effective_read_only pure
  effective_read_only-true point s s' h =
      let t =
        >>=-eq-ok (read_mountinfo commands)
          (λ es. pure (found_read_only commands (find_by_mount_point commands.normal es point))) s
          h in
      let e = found_read_only-true (find_by_mount_point commands.normal t.0 point) (cc t.3) in
      let same : t.1 ≡ s' = cc t.3 in
      record {
        before = s;
        entries = t.0;
        entry = e.0;
        read_last = t.2 ∙ ap (λ u. (ok t.0, u)) same;
        found = e.1;
        read_only = e.2;
      }

  -- The last step, for what the mount table showed.
  concluded :
      (result : SourceMount) (point : Text) (mount_ro : Bool) (s s' : S) (m : SourceMount)
      → (if mount_ro
            then pure result
            else tear_down commands point >> throw source_protection_failure)
          s
        ≡ (ok m, s')
      → (mount_ro ≡ true) × (m ≡ result) × (s ≡ s')
  unfolding pure throw
  concluded result point true s s' m h = (refl, cc, cc)
  concluded result point false s s' m h =
      let t = >>=-eq-ok (tear_down commands point) (λ u. throw source_protection_failure) s h in
      cc t.3

  -- If `mount_source_read_only` returns a mount, this is a mount of the given device at the given
  -- point that is marked read-only, and the last thing done was to read the mount table, whose
  -- entry for the mount point was found and has the option `ro`.
  pub mount_source_read_only-IsSeenReadOnly :
      (device point : Text) (fstype : Option Text) (s s' : S) (m : SourceMount)
      → mount_source_read_only commands device point fstype s ≡ (ok m, s')
      → (m.device ≡ device)
        × (m.mount_point ≡ point)
        × (m.mount_read_only ≡ true)
        × IsSeenReadOnly point s'
  unfolding mount_source_read_only
  mount_source_read_only-IsSeenReadOnly device point fstype s s' m h =
      let t0 = >>=-eq-ok (require_linux commands) _ s h in
      let t1 = >>=-eq-ok (set_block_read_only commands device true) _ t0.1 t0.3 in
      let t2 = >>=-eq-ok (get_block_read_only commands device) _ t1.1 t1.3 in
      let t3 = >>=-eq-ok (mount_read_only commands device point fstype) _ t2.1 t2.3 in
      let t4 = >>=-eq-ok (effective_read_only commands point) _ t3.1 t3.3 in
      let result : SourceMount = record {
        device = device;
        mount_point = point;
        block_read_only = t2.0;
        mount_read_only = t4.0;
      } in
      let c = concluded result point t4.0 t4.1 s' m t4.3 in
      let seen = effective_read_only-true point t3.1 t4.1 (t4.2 ∙ ap (λ b. (ok b, t4.1)) c.0) in
      (
        ap (λ (x : SourceMount). x.device) c.1,
        ap (λ (x : SourceMount). x.mount_point) c.1,
        ap (λ (x : SourceMount). x.mount_read_only) c.1 ∙ c.0,
        subst (IsSeenReadOnly point) c.2 seen,
      )
