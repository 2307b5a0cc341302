-- ===== src/Linux/Validation/Laws.antt =====
-- What an accepted destination is, and which partitions are offered as a source.
use mathlib.Core.List.{Memᴰ}
use mathlib.Core.List.Memᴰ
use pi_mobile_photobackup.Prelude.{
  Text, text_eq, text_eq_refl, eq_of_text_eq, true, false, Option, none, some, List, [], ◌∷◌,
  filter_p, ◌≡◌, ◌≢◌, ◌↔◌, refl, sym, ap, subst, ◌∙◌, inl, inr, Bool-cases, arith,
}
use pi_mobile_photobackup.Prelude.Members.{Memᴰ-append, any_p-false, Memᴰ-filter_p, Memᴰ-map}
use pi_mobile_photobackup.Linux.Devices.{
  BlockDevice, columns, is_empty, flatten, flatten_devices, has_uuid, find_by_uuid,
}
use pi_mobile_photobackup.Linux.Validation.{
  validate_destination, validated, refused, reasons_against, is_none_left, reason_if, is_text,
  is_system_mount, is_system_disk, system_disk_names, is_in, is_candidate, is_supported,
  candidates_of, find_source_candidates,
}

-- A filesystem that may be written to as the destination.
pub record IsUsable (filesystem : Text) (d : BlockDevice) : Type 0 where
  pub right_filesystem : (columns d).fstype ≡ some filesystem
  pub mounted : is_empty (columns d).mountpoint ≡ false
  pub writable : (columns d).read_only ≡ false

is_text-eq : (t : Text) (o : Option Text) → (is_text t o ≡ true) ↔ (o ≡ some t)
unfolding is_text
is_text-eq t none = (λ h. cc, λ h. cc)
is_text-eq t (some u) =
    (λ h. ap some (eq_of_text_eq u t h), λ h. let e : u ≡ t = cc in rw e (text_eq_refl t))

reasons_against-IsUsable :
    (filesystem : Text) (d : BlockDevice)
    → (is_none_left (reasons_against filesystem d) ≡ true) ↔ IsUsable filesystem d
unfolding reasons_against reason_if is_none_left
reasons_against-IsUsable filesystem d = (
  λ h. record {
    right_filesystem = (is_text-eq filesystem (columns d).fstype).0 (ground (arith, h));
    mounted = ground (arith, h);
    writable = ground (arith, h);
  },
  λ u.
      let right = (is_text-eq filesystem (columns d).fstype).1 u.right_filesystem in
      ground (arith, right, u.mounted, u.writable),
)

validated-ok :
    (uuid filesystem : Text) (matches : List BlockDevice)
    → ((validated uuid filesystem matches).ok ≡ true) ↔ (
        (d : BlockDevice) × (matches ≡ d ∷ [])
        × IsUsable filesystem d
        × ((validated uuid filesystem matches).found ≡ some d))
unfolding validated refused
validated-ok uuid filesystem [] = (λ h. cc, λ t. cc)
validated-ok uuid filesystem (d ∷ []) = (
  λ h. (d, refl, (reasons_against-IsUsable filesystem d).0 h, refl),
  λ t. let e : d ≡ t.0 = cc t.1 in rw e ((reasons_against-IsUsable filesystem t.0).1 t.2),
)
validated-ok uuid filesystem (d ∷ e ∷ ds) = (λ h. cc, λ t. cc)

-- A destination is accepted exactly when the configured UUID is not empty, one device only of all
-- disks and partitions has it, and this device has the required filesystem, is mounted, and is not
-- read-only; the device that the validation names is this one.
pub validate_destination-ok :
    (devices : List BlockDevice) (uuid filesystem : Text)
    → ((validate_destination devices uuid filesystem).ok ≡ true) ↔ (
        (d : BlockDevice) × (uuid ≢ [])
        × (find_by_uuid devices uuid ≡ d ∷ [])
        × IsUsable filesystem d
        × ((validate_destination devices uuid filesystem).found ≡ some d))
unfolding validate_destination find_by_uuid refused
validate_destination-ok devices [] filesystem = (λ h. cc, λ t. absurd (t.1 refl))
validate_destination-ok devices (u ∷ us) filesystem =
    let matches = filter_p (has_uuid (u ∷ us)) (flatten_devices devices) in
    let iff = validated-ok (u ∷ us) filesystem matches in
    (λ h. let t = iff.0 h in (t.0, λ e. cc e, t.1, t.2, t.3), λ t. iff.1 (t.0, t.2, t.3, t.4))

pub is_in-false :
    (texts : List Text) (t : Text) → (is_in texts t ≡ false) ↔ ((u : Text) → Memᴰ u texts → u ≢ t)
unfolding is_in
is_in-false texts t =
    let iff = any_p-false (λ u. text_eq u t) texts in
    (
      λ h u m e. let k = iff.0 h u m in ground (arith, k, ap (text_eq u) (sym e), text_eq_refl u),
      λ h. iff.1 (λ u m. elim (Bool-cases (text_eq u t)) [
        | inl same ↦ absurd (h u m (eq_of_text_eq u t same))
        | inr other ↦ other
      ]),
    )

pub is_in-Memᴰ : (texts : List Text) (t : Text) → (is_in texts t ≡ true) ↔ Memᴰ t texts
unfolding is_in
is_in-Memᴰ [] t = (λ h. cc, λ m. absurd (Memᴰ.not-nil m))
is_in-Memᴰ (u ∷ us) t = elim (Bool-cases (text_eq u t)) [
  | inl same ↦ (λ h. Memᴰ.head (sym (eq_of_text_eq u t same)), λ m. rw same refl)
  | inr other ↦ rw other (
    λ h. Memᴰ.tail ((is_in-Memᴰ us t).0 h),
    λ m. elim (Memᴰ.cases_cons m) [
      | inl e ↦ ground (arith, other, ap (λ x. text_eq x t) e, text_eq_refl t)
      | inr later ↦ (is_in-Memᴰ us t).1 later
    ],
  )
]

-- Nothing on the disks of this name is mounted where the running system lives.
abbrev pub IsNoSystemDisk : List BlockDevice → Text → Type 0
IsNoSystemDisk devices name =
    (disk d : BlockDevice)
    → Memᴰ disk devices
    → (columns disk).name ≡ name
    → Memᴰ d (flatten disk)
    → is_system_mount (columns d).mountpoint ≡ false

system_disk_names-false :
    (devices : List BlockDevice) (name : Text)
    → (is_in (system_disk_names devices) name ≡ false) ↔ IsNoSystemDisk devices name
unfolding system_disk_names is_system_disk
system_disk_names-false devices name =
    let name_of : BlockDevice → Text = λ d. (columns d).name in
    let disks = filter_p is_system_disk devices in
    (
      λ h disk d listed same within. elim (Bool-cases (is_system_disk disk)) [
        | inl system ↦
            let named =
              (Memᴰ-map name_of (name_of disk) disks).1
                (disk, (Memᴰ-filter_p is_system_disk disk devices).1 (listed, system), refl) in
            absurd ((is_in-false (system_disk_names devices) name).0 h (name_of disk) named same)
        | inr other ↦
            (any_p-false (λ e. is_system_mount (columns e).mountpoint) (flatten disk)).0 other d
              within
      ],
      λ clear. (is_in-false (system_disk_names devices) name).1 (λ u m same.
          let t = (Memᴰ-map name_of u disks).0 m in
          let s = (Memᴰ-filter_p is_system_disk t.0 devices).0 t.1 in
          let quiet =
            (any_p-false (λ e. is_system_mount (columns e).mountpoint) (flatten t.0)).1
              (λ d within. clear t.0 d s.0 (sym t.2 ∙ same) within) in
          cc (quiet, s.1)),
    )

Memᴰ-candidates_of :
    (system : List Text) (destination : Text) (supported : List Text) (d : BlockDevice)
    (disks : List BlockDevice)
    → Memᴰ d (candidates_of system destination supported disks) ↔ (
        (disk : BlockDevice) × Memᴰ disk disks
        × Memᴰ d (flatten disk)
        × (is_in system (columns disk).name ≡ false)
        × (is_candidate destination supported d ≡ true))
unfolding candidates_of
Memᴰ-candidates_of system destination supported d [] =
    (λ m. absurd (Memᴰ.not-nil m), λ t. absurd (Memᴰ.not-nil t.1))
Memᴰ-candidates_of system destination supported d (disk ∷ disks) =
    let ih = Memᴰ-candidates_of system destination supported d disks in
    let keep = is_candidate destination supported in
    elim (Bool-cases (is_in system (columns disk).name)) [
      | inl skipped ↦ rw skipped (
        λ m. let t = ih.0 m in (t.0, Memᴰ.tail t.1, t.2, t.3, t.4),
        λ t. elim (Memᴰ.cases_cons t.1) [
          | inl e ↦ absurd (ground (arith, skipped, ap (λ x. is_in system (columns x).name) e, t.3))
          | inr later ↦ ih.1 (t.0, later, t.2, t.3, t.4)
        ],
      )
      | inr taken ↦ rw taken (
        λ m.
            elim ((Memᴰ-append d (filter_p keep (flatten disk))
                (candidates_of system destination supported disks)).0
              m) [
                | inl here ↦
                    let t = (Memᴰ-filter_p keep d (flatten disk)).0 here in
                    (disk, Memᴰ.head refl, t.0, taken, t.1)
                | inr later ↦ let t = ih.0 later in (t.0, Memᴰ.tail t.1, t.2, t.3, t.4)
              ],
        λ t.
            (Memᴰ-append d (filter_p keep (flatten disk))
                (candidates_of system destination supported disks)).1
              (elim (Memᴰ.cases_cons t.1) [
                | inl e ↦ inl (
                    (Memᴰ-filter_p keep d (flatten disk)).1
                      (subst (λ x. Memᴰ d (flatten x)) e t.2, t.4))
                | inr later ↦ inr (ih.1 (t.0, later, t.2, t.3, t.4))
              ]),
      )
    ]

-- What makes a partition a source: a supported filesystem, and another UUID than the destination.
pub record IsSource (destination : Text) (supported : List Text) (d : BlockDevice) : Type 0 where
  pub filesystem : Text
  pub has_filesystem : (columns d).fstype ≡ some filesystem
  pub in_supported : is_in supported filesystem ≡ true
  pub not_destination : (columns d).uuid ≢ some destination

is_supported_iff :
    (supported : List Text) (o : Option Text)
    → (is_supported supported o ≡ true) ↔ ((f : Text) × (o ≡ some f) × (is_in supported f ≡ true))
unfolding is_supported
is_supported_iff supported none = (λ h. cc, λ t. cc)
is_supported_iff supported (some f) = (λ h. (f, refl, h), λ t. let e : f ≡ t.0 = cc in rw e t.2)

has_uuid-false :
    (uuid : Text) (d : BlockDevice) → (has_uuid uuid d ≡ false) ↔ ((columns d).uuid ≢ some uuid)
unfolding has_uuid
has_uuid-false uuid d =
    elim (columns d).uuid
      as (λ o. (elim o [ none ↦ false | some u ↦ text_eq u uuid ] ≡ false) ↔ (o ≢ some uuid)) [
        | none ↦ (λ h e. cc, λ h. refl)
        | some u ↦ (
          λ h e.
              let same : u ≡ uuid = cc in
              ground (arith, h, ap (text_eq u) (sym same), text_eq_refl u),
          λ h. elim (Bool-cases (text_eq u uuid)) [
            | inl same ↦ absurd (h (ap some (eq_of_text_eq u uuid same)))
            | inr other ↦ other
          ],
        )
      ]

is_candidate-IsSource :
    (destination : Text) (supported : List Text) (d : BlockDevice)
    → (is_candidate destination supported d ≡ true) ↔ IsSource destination supported d
unfolding is_candidate
is_candidate-IsSource destination supported d = (
  λ h.
      let t = (is_supported_iff supported (columns d).fstype).0 (ground (arith, h)) in
      record {
        filesystem = t.0;
        has_filesystem = t.1;
        in_supported = t.2;
        not_destination = (has_uuid-false destination d).0 (ground (arith, h));
      },
  λ s.
      let fits =
        (is_supported_iff supported (columns d).fstype).1
          (s.filesystem, s.has_filesystem, s.in_supported) in
      let other = (has_uuid-false destination d).1 s.not_destination in ground (arith, fits, other),
)

-- A device, a partition or a whole disk, is offered as a source exactly when it belongs to a
-- listed disk such that nothing on a disk of this name is mounted at /, at /boot or below /boot/,
-- its filesystem is one of the supported ones, and its UUID is not that of the destination. So a
-- whole disk with a supported filesystem of its own is offered too, which the docstring of the
-- function says is excluded.
pub Memᴰ-find_source_candidates :
    (devices : List BlockDevice) (destination : Text) (supported : List Text) (d : BlockDevice)
    → Memᴰ d (find_source_candidates devices destination supported) ↔ (
        (disk : BlockDevice) × Memᴰ disk devices
        × Memᴰ d (flatten disk)
        × IsNoSystemDisk devices (columns disk).name
        × IsSource destination supported d)
unfolding find_source_candidates
Memᴰ-find_source_candidates devices destination supported d =
    let iff = Memᴰ-candidates_of (system_disk_names devices) destination supported d devices in
    (
      λ m.
          let t = iff.0 m in
          (
            t.0,
            t.1,
            t.2,
            (system_disk_names-false devices (columns t.0).name).0 t.3,
            (is_candidate-IsSource destination supported d).0 t.4,
          ),
      λ t. iff.1 (
        t.0,
        t.1,
        t.2,
        (system_disk_names-false devices (columns t.0).name).1 t.3,
        (is_candidate-IsSource destination supported d).1 t.4,
      ),
    )
