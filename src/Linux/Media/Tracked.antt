-- ===== src/Linux/Media/Tracked.antt =====
-- linux/media.py: which mounts are tracked after an unmount.
use mathlib.Core.List.{Memᴰ}
use mathlib.Core.List.Memᴰ
use pi_mobile_photobackup.Prelude.{
  Text, text_eq, text_eq_refl, eq_of_text_eq, Bool, not, none, some, List, [], ◌∷◌, filter_p, map,
  ◌≡◌, ◌≢◌, refl, sym, ap, subst, inl, inr, Bool-cases, Option-cases, arith,
}
use pi_mobile_photobackup.Prelude.Members.{Memᴰ-filter_p, Memᴰ-map}
use pi_mobile_photobackup.Linux.Devices.{BlockDevice}
use pi_mobile_photobackup.Linux.Validation.{is_in}
use pi_mobile_photobackup.Linux.Validation.Laws.{is_in-Memᴰ}
use pi_mobile_photobackup.Linux.Mounts.{SourceMount, MountService}
use pi_mobile_photobackup.Linux.Media.{
  Media, MediaConfig, device_key, look_up_mount, remove_mount, unmount_key, unmount_keys, eject_all,
  release_absent, eject, mark_ejected, raw_candidates,
}

pub look_up_mount-some :
    (key : Text) (mounts : List (Text × SourceMount)) (mount : SourceMount)
    → look_up_mount key mounts ≡ some mount
    → Memᴰ (key, mount) mounts
unfolding look_up_mount
look_up_mount-some key [] mount h = cc
look_up_mount-some key ((k, m) ∷ rest) mount h = elim (Bool-cases (text_eq k key)) [
  | inl same ↦
      let e : m ≡ mount = ground (arith, same, h) in
      Memᴰ.head (λ i. (sym (eq_of_text_eq k key same) i, sym e i))
  | inr other ↦ Memᴰ.tail (look_up_mount-some key rest mount (ground (arith, other, h)))
]

look_up_mount-none :
    (key : Text) (mounts : List (Text × SourceMount)) (mount : SourceMount)
    → look_up_mount key mounts ≡ none
    → ¬ Memᴰ (key, mount) mounts
unfolding look_up_mount
look_up_mount-none key [] mount h m = Memᴰ.not-nil m
look_up_mount-none key ((k, x) ∷ rest) mount h m = elim (Bool-cases (text_eq k key)) [
  | inl same ↦ ground (arith, same, h)
  | inr other ↦ elim (Memᴰ.cases_cons m) [
    | inl e ↦
        let e0 : key ≡ k = ap (λ (t : Text × SourceMount). t.0) e in
        ground (arith, other, ap (λ t. text_eq t key) e0, text_eq_refl key)
    | inr later ↦ look_up_mount-none key rest mount (ground (arith, other, h)) later
  ]
]

module _ {S : Type 0} (service : MountService S) where
  -- Unmounting forgets the mounts under the key, and no other.
  Memᴰ-unmount_key :
      (key k : Text) (mount : SourceMount) (m : Media S)
      → Memᴰ (k, mount) (unmount_key service key m).mounted
      → Memᴰ (k, mount) m.mounted × (k ≢ key)
  unfolding unmount_key remove_mount
  Memᴰ-unmount_key key k mount m within = elim (Option-cases (look_up_mount key m.mounted)) [
    | inl absent ↦
        let here : Memᴰ (k, mount) m.mounted = rw (absent, unmount_key) at within in
        (
          here,
          λ e.
              look_up_mount-none key m.mounted mount absent
                (subst (λ x. Memᴰ (x, mount) m.mounted) e here),
        )
    | inr t ↦
        let kept : Memᴰ (k, mount) (filter_p (λ u. not (text_eq u.0 key)) m.mounted) =
          rw (t.1, unmount_key) at within in
        let u = (Memᴰ-filter_p (λ u. not (text_eq u.0 key)) (k, mount) m.mounted).0 kept in
        (u.0, λ e. ground (arith, u.1, ap (λ x. text_eq x key) e, text_eq_refl key))
  ]

  Memᴰ-unmount_keys :
      (keys : List Text) (k : Text) (mount : SourceMount) (m : Media S)
      → Memᴰ (k, mount) (unmount_keys service keys m).mounted
      → Memᴰ (k, mount) m.mounted × (¬ Memᴰ k keys)
  unfolding unmount_keys
  Memᴰ-unmount_keys [] k mount m within = (within, Memᴰ.not-nil)
  Memᴰ-unmount_keys (key ∷ keys) k mount m within =
      let t = Memᴰ-unmount_keys keys k mount (unmount_key service key m) within in
      let u = Memᴰ-unmount_key key k mount m t.0 in
      (u.0, λ here. elim (Memᴰ.cases_cons here) [ inl e ↦ u.1 e | inr later ↦ t.1 later ])

  no_members :
      (mounts : List (Text × SourceMount))
      → ((k : Text) (mount : SourceMount) → ¬ Memᴰ (k, mount) mounts)
      → mounts ≡ []
  no_members [] h = refl
  no_members ((k, mount) ∷ rest) h = absurd (h k mount (Memᴰ.head refl))

  keys_of :
      (k : Text) (mount : SourceMount) (mounts : List (Text × SourceMount))
      → Memᴰ (k, mount) mounts
      → Memᴰ k (map (λ t. t.0) mounts)
  keys_of k mount mounts h =
      (Memᴰ-map (λ (t : Text × SourceMount). t.0) k mounts).1 ((k, mount), h, refl)

  eject_all-mounted : (m : Media S) → (eject_all service m).mounted ≡ []
  unfolding eject_all
  eject_all-mounted m =
      let keys = map (λ (t : Text × SourceMount). t.0) m.mounted in
      no_members (unmount_keys service keys m).mounted (λ k mount within.
        let t = Memᴰ-unmount_keys keys k mount m within in t.1 (keys_of k mount m.mounted t.0))

  pub eject-mounted :
      (config : MediaConfig) (devices : List BlockDevice) (m : Media S)
      → (eject service config devices m).1.mounted ≡ []
  unfolding eject
  eject-mounted config devices m =
      eject_all-mounted
        (record m { ejected = (mark_ejected (raw_candidates config devices) m.ejected).1 })

  -- What is left after the absent cards are released has a present card's key.
  pub Memᴰ-release_absent :
      (present : List BlockDevice) (k : Text) (mount : SourceMount) (m : Media S)
      → Memᴰ (k, mount) (release_absent service present m).mounted
      → Memᴰ (k, mount) m.mounted × ((d : BlockDevice) × Memᴰ d present × (k ≡ device_key d))
  unfolding release_absent
  Memᴰ-release_absent present k mount m within =
      let keys = map (λ (t : Text × SourceMount). t.0) m.mounted in
      let absent : Text → Bool = λ key. not (is_in (map device_key present) key) in
      let t = Memᴰ-unmount_keys (filter_p absent keys) k mount m within in
      (
        t.0,
        elim (Bool-cases (is_in (map device_key present) k)) [
          | inl here ↦
              let u = (is_in-Memᴰ (map device_key present) k).0 here in
              (Memᴰ-map device_key k present).0 u
          | inr gone ↦
              absurd
                (t.1 ((Memᴰ-filter_p absent k keys).1 (keys_of k mount m.mounted t.0, ap not gone)))
        ],
      )
