-- ===== src/Tests/Medias.antt =====
-- Examples for the destination, the sources and the media manager.
use mathlib.Core.List.{Memᴰ}
use mathlib.Core.List.Memᴰ
use pi_mobile_photobackup.Prelude.{
  Text, codes, Bool, true, false, Option, none, some, List, [], ◌∷◌, ◌++◌, ◌≡◌, ◌≢◌, ◌↔◌, refl,
}
use pi_mobile_photobackup.Prelude.Int.{pos}
use pi_mobile_photobackup.Effects.{ok, raise, source_protection_failure}
use pi_mobile_photobackup.Linux.Devices.{
  Columns, BlockDevice, device, leaf, child, columns, flatten, find_by_uuid,
}
use pi_mobile_photobackup.Linux.Parsing.{array, member, close, parse_lsblk_json}
use pi_mobile_photobackup.Linux.Parsing.Printed.{print_items, of_list, parse_lsblk_json-print}
use pi_mobile_photobackup.Linux.Validation.{
  validate_destination, find_source_candidates, required_destination_filesystem,
  default_supported_source_filesystems,
}
use pi_mobile_photobackup.Linux.Validation.Laws.{
  IsUsable, IsNoSystemDisk, IsSource, validate_destination-ok, Memᴰ-find_source_candidates,
}
use pi_mobile_photobackup.Linux.Mounts.{
  SourceMount, Commands, mount_source_read_only, linux_mount_service,
}
use pi_mobile_photobackup.Linux.Mounts.Protection.{
  IsSeenReadOnly, mount_source_read_only-IsSeenReadOnly,
}
use pi_mobile_photobackup.Linux.Mounts.Refusals.{
  HasOwnErrors, IsTakenDown, mount_source_read_only-IsTakenDown,
}
use pi_mobile_photobackup.Linux.Media.{
  Media, MediaConfig, SourceRef, identity_key, raw_candidates, source_candidates, eject,
  current_source,
}
use pi_mobile_photobackup.Linux.Media.Mounted.{IsSafeSource, linux_mount_service-IsReadOnlyService}
use pi_mobile_photobackup.Linux.Media.Calls.{
  MediaCall, lists, ejects, new_media, serve_all, current_source-serve_all,
}
use pi_mobile_photobackup.Linux.Media.Ejected.{keys, eject-hides, removed-returns}

abbrev partition : Text → Option Text → Option Text → Option Text → Bool → Columns
partition name fstype uuid mountpoint read_only = record {
  name = name;
  path = some (codes "/dev/" ++ name);
  fstype = fstype;
  uuid = uuid;
  label = none;
  size_bytes = none;
  read_only = read_only;
  mountpoint = mountpoint;
  dev_type = none;
  model = none;
  serial = none;
  partuuid = none;
}

-- The running system, the destination, and a camera card.
abbrev system_disk : BlockDevice
system_disk = device (partition (codes "mm") none none none false) (
    child
      (device (partition (codes "p1") (some (codes "vfat")) none (some (codes "/boot/fw")) false)
        leaf)
      leaf)

abbrev target : BlockDevice
target =
    device
      (partition (codes "sda") (some (codes "ext4")) (some (codes "D")) (some (codes "/d")) false)
      leaf

abbrev card : BlockDevice
card = device (partition (codes "b1") (some (codes "vfat")) (some (codes "C")) none true) leaf

abbrev inventory : List BlockDevice
inventory =
    system_disk ∷ target ∷ device (partition (codes "b") none none none true) (child card leaf) ∷ []

validate_destination-ok_example :
    ((validate_destination inventory (codes "D") required_destination_filesystem).ok ≡ true) ↔ (
      (d : BlockDevice) × (codes "D" ≢ [])
      × (find_by_uuid inventory (codes "D") ≡ d ∷ [])
      × IsUsable required_destination_filesystem d
      × ((validate_destination inventory (codes "D") required_destination_filesystem).found
          ≡ some d))
validate_destination-ok_example =
    validate_destination-ok inventory (codes "D") required_destination_filesystem

-- A card without a partition table: a whole disk with a filesystem of its own.
abbrev bare_card : BlockDevice
bare_card = device (partition (codes "c") (some (codes "vfat")) (some (codes "E")) none true) leaf

Memᴰ-find_source_candidates_example :
    Memᴰ bare_card (
      find_source_candidates
        (bare_card ∷ inventory)
        (codes "D")
        default_supported_source_filesystems)
    ↔ ((disk : BlockDevice) × Memᴰ disk (bare_card ∷ inventory)
        × Memᴰ bare_card (flatten disk)
        × IsNoSystemDisk (bare_card ∷ inventory) (columns disk).name
        × IsSource (codes "D") default_supported_source_filesystems bare_card)
Memᴰ-find_source_candidates_example =
    Memᴰ-find_source_candidates (bare_card ∷ inventory) (codes "D")
      default_supported_source_filesystems bare_card

-- Commands that succeed, over the text of a mount table that does not change.
abbrev toy_commands : Commands Text
toy_commands = record {
  is_linux = true;
  run = λ args s. (ok (codes "1"), s);
  mkdir = λ path s. (ok tt, s);
  read_text = λ s. (ok s, s);
  int_of = λ t. some (pos 30);
  normal = λ path. path;
}

abbrev read_only_at : Text
read_only_at = codes "30 1 8:17 / /m/C ro,nodev shared:5 - vfat /dev/b1 rw"

abbrev writable_at : Text
writable_at = codes "30 1 8:17 / /m/C rw,nodev - vfat /dev/b1 rw"

abbrev card_mount : SourceMount
card_mount = record {
  device = codes "/dev/b1";
  mount_point = codes "/m/C";
  block_read_only = true;
  mount_read_only = true;
}

mounts_card :
    mount_source_read_only toy_commands (codes "/dev/b1") (codes "/m/C") none read_only_at
    ≡ (ok card_mount, read_only_at)
unfolding mount_source_read_only
mounts_card = refl

mount_source_read_only-IsSeenReadOnly_example :
    (card_mount.device ≡ codes "/dev/b1")
    × (card_mount.mount_point ≡ codes "/m/C")
    × (card_mount.mount_read_only ≡ true)
    × IsSeenReadOnly toy_commands (codes "/m/C") read_only_at
mount_source_read_only-IsSeenReadOnly_example =
    mount_source_read_only-IsSeenReadOnly toy_commands (codes "/dev/b1") (codes "/m/C") none
      read_only_at read_only_at card_mount mounts_card

toy_commands-HasOwnErrors : HasOwnErrors toy_commands
toy_commands-HasOwnErrors = record {
  run_error = λ args s s' h. cc;
  mkdir_error = λ path s s' h. cc;
  read_error = λ s s' h. cc;
}

refuses_card :
    mount_source_read_only toy_commands (codes "/dev/b1") (codes "/m/C") none writable_at
    ≡ (raise source_protection_failure, writable_at)
unfolding mount_source_read_only
refuses_card = refl

mount_source_read_only-IsTakenDown_example : IsTakenDown toy_commands (codes "/m/C") writable_at
mount_source_read_only-IsTakenDown_example =
    mount_source_read_only-IsTakenDown toy_commands toy_commands-HasOwnErrors (codes "/m/C")
      (codes "/dev/b1") none writable_at writable_at refuses_card

abbrev media_config : MediaConfig
media_config = record {
  destination_uuid = codes "D";
  mount_root = codes "/m";
  supported = default_supported_source_filesystems;
}

-- The card was ejected, and an inventory without it seen, before it is looked for.
abbrev media_calls : List MediaCall
media_calls = ejects inventory ∷ lists (target ∷ []) ∷ []

abbrev card_source : SourceRef
card_source = record { root = codes "/m/C"; logical_name = codes "CARD-C" }

abbrev media_before : Media Text
media_before =
    serve_all (linux_mount_service toy_commands) media_config media_calls (new_media read_only_at)

abbrev media_after : Media Text
media_after = record {
  system = read_only_at;
  mounted = (codes "/dev/b1", card_mount) ∷ [];
  selected_uuid = none;
  ejected = [];
}

finds_card :
    current_source (linux_mount_service toy_commands) media_config inventory media_before
    ≡ (ok (some card_source), media_after)
unfolding current_source eject source_candidates raw_candidates linux_mount_service
finds_card = refl

current_source-serve_all_example :
    IsSafeSource (source_candidates media_config inventory media_before).0 card_source media_after
current_source-serve_all_example =
    current_source-serve_all (linux_mount_service toy_commands) media_config
      (linux_mount_service-IsReadOnlyService toy_commands) media_calls read_only_at inventory
      media_after card_source finds_card

card_there : raw_candidates media_config inventory ≡ card ∷ []
unfolding raw_candidates
card_there = refl

card_offered : (source_candidates media_config inventory (new_media read_only_at)).0 ≡ card ∷ []
unfolding source_candidates raw_candidates
card_offered = refl

-- Another card in the place of the ejected one.
abbrev other_card : BlockDevice
other_card = device (partition (codes "b1") (some (codes "vfat")) (some (codes "E")) none true) leaf

other_offered :
    (source_candidates media_config (other_card ∷ card ∷ []) (
      serve_all
        (linux_mount_service toy_commands)
        media_config
        (lists inventory ∷ [])
        (eject
          (linux_mount_service toy_commands)
          media_config
          inventory
          (new_media read_only_at)).1)).0
    ≡ other_card ∷ []
unfolding source_candidates raw_candidates eject linux_mount_service
other_offered = refl

Memᴰ-card : Memᴰ card (raw_candidates media_config inventory)
Memᴰ-card = rw card_there (Memᴰ.head refl)

card_key : Memᴰ (identity_key card) (keys media_config inventory)
unfolding raw_candidates identity_key
card_key = Memᴰ.head refl

eject-hides_example : identity_key other_card ≢ identity_key card
eject-hides_example =
    eject-hides (linux_mount_service toy_commands) media_config inventory (other_card ∷ card ∷ [])
      card other_card (lists inventory ∷ []) (new_media read_only_at) Memᴰ-card (card_key, tt)
      (rw other_offered (Memᴰ.head refl))

no_card_there : ¬ Memᴰ (identity_key card) (keys media_config (target ∷ []))
unfolding raw_candidates identity_key
no_card_there = Memᴰ.not-nil

removed-returns_example :
    Memᴰ card
      (source_candidates media_config inventory
        (source_candidates media_config (target ∷ []) (new_media read_only_at)).1).0
removed-returns_example =
    removed-returns media_config (target ∷ []) inventory card (new_media read_only_at) no_card_there
      Memᴰ-card

parse_lsblk_json-print_example :
    parse_lsblk_json
      (λ v. [])
      (λ t. none)
      (member (codes "blockdevices") (array (print_items (of_list inventory))) close)
    ≡ inventory
parse_lsblk_json-print_example = parse_lsblk_json-print (λ v. []) (λ t. none) inventory
