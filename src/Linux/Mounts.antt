-- ===== src/Linux/Mounts.antt =====
-- linux/mount.py: the read-only mount of a source. What the commands and the kernel do is the
-- environment's, over a state of any type.
use pi_mobile_photobackup.Prelude.{
  ℕ, Text, codes, text_eq, Bool, true, false, not, ◌||◌, Option, none, some, List, [], ◌∷◌, ◌++◌,
  any_p, ◌==◌, if◌then◌else◌,
}
use pi_mobile_photobackup.Effects.{
  require, value_error, Error, Result, ok, raise, Exec, pure, throw, ◌>>=◌, ◌>>◌,
  called_process_error, not_implemented, source_protection_failure,
}
use pi_mobile_photobackup.Prelude.Int.{ℤ}
use pi_mobile_photobackup.Linux.Texts.{strip}
use pi_mobile_photobackup.Linux.MountInfo.{
  parse_mountinfo, MountInfoEntry, entry_read_only, find_by_mount_point,
}
pub mod Protection
pub mod Refusals

pub record SourceMount : Type 0 where
  pub device : Text
  pub mount_point : Text
  pub block_read_only : Bool
  pub mount_read_only : Bool

-- The commands of util-linux by their arguments, the creation of a directory with its parents, the
-- text of the mount table, Python's `int` and the form that pathlib gives a path.
pub record Commands (S : Type 0) : Type 0 where
  pub is_linux : Bool
  pub run : List Text → Exec S Text
  pub mkdir : Text → Exec S (Unit {0})
  pub read_text : Exec S Text
  pub int_of : Text → Option ℤ
  pub normal : Text → Text

-- The mount operations that the media manager needs.
pub record MountService (S : Type 0) : Type 0 where
  pub mount_source : Text → Text → Option Text → Exec S SourceMount
  pub unmount_source : Text → Exec S (Unit {0})

-- `except subprocess.CalledProcessError: pass`
unfoldable pub ignore_failure : {S : Type 0} → Result (Unit {0}) × S → Result (Unit {0}) × S
ignore_failure (raise called_process_error, s) = (ok tt, s)
ignore_failure (r, s) = (r, s)

module _ {S : Type 0} (commands : Commands S) where
  unfoldable pub require_linux : Exec S (Unit {0})
  unfolding pure throw
  require_linux = if commands.is_linux then pure tt else throw not_implemented

  unfoldable pub set_block_read_only : Text → Bool → Exec S (Unit {0})
  unfolding require_linux ◌>>=◌ pure
  set_block_read_only device read_only = do
    require_linux
    commands.run
        (codes "blockdev" ∷ (if read_only then codes "--setro" else codes "--setrw") ∷ device ∷ [])
    pure tt

  unfoldable pub get_block_read_only : Text → Exec S Bool
  unfolding require_linux ◌>>=◌ pure strip
  get_block_read_only device = do
    require_linux
    out ← commands.run (codes "blockdev" ∷ codes "--getro" ∷ device ∷ [])
    pure (text_eq (strip out) (codes "1"))

  -- The options of the mount command for a filesystem type.
  unfoldable pub type_option : Option Text → List Text
  type_option none = []
  type_option (some fstype) = codes "-t" ∷ fstype ∷ []

  unfoldable pub mount_read_only : Text → Text → Option Text → Exec S (Unit {0})
  unfolding require_linux ◌>>=◌ pure type_option
  mount_read_only device point fstype = do
    require_linux
    commands.mkdir point
    commands.run (
        (codes "mount" ∷ codes "-o" ∷ codes "ro,noexec,nodev,nosuid" ∷ type_option fstype)
        ++ device ∷ point ∷ [])
    pure tt

  unfoldable pub unmount : Text → Exec S (Unit {0})
  unfolding require_linux ◌>>=◌ pure
  unmount point = do require_linux; commands.run (codes "umount" ∷ point ∷ []); pure tt

  unfoldable pub read_mountinfo : Exec S (List MountInfoEntry)
  unfolding ◌>>=◌ require parse_mountinfo
  read_mountinfo = do
    text ← commands.read_text
    require value_error (parse_mountinfo commands.int_of text)

  unfoldable pub found_read_only : Option MountInfoEntry → Bool
  unfolding entry_read_only
  found_read_only none = false
  found_read_only (some e) = entry_read_only e

  unfoldable pub effective_read_only : Text → Exec S Bool
  unfolding ◌>>=◌ pure found_read_only find_by_mount_point read_mountinfo
  effective_read_only point = do
    entries ← read_mountinfo
    pure (found_read_only (find_by_mount_point commands.normal entries point))

  -- The attempt to take down a mount that can be written to.
  unfoldable pub tear_down : Text → Exec S (Unit {0})
  unfolding ignore_failure unmount
  tear_down point s = ignore_failure (unmount point s)

  unfoldable pub mount_source_read_only : Text → Text → Option Text → Exec S SourceMount
  unfolding require_linux ◌>>=◌ pure throw set_block_read_only get_block_read_only mount_read_only
      effective_read_only tear_down
  mount_source_read_only device point fstype = do
    require_linux
    set_block_read_only device true
    block_ro ← get_block_read_only device
    mount_read_only device point fstype
    mount_ro ← effective_read_only point
    if mount_ro
        then pure (record {
          device = device;
          mount_point = point;
          block_read_only = block_ro;
          mount_read_only = mount_ro;
        })
        else tear_down point >> throw source_protection_failure

  unfoldable pub linux_mount_service : MountService S
  unfolding mount_source_read_only unmount
  linux_mount_service = record { mount_source = mount_source_read_only; unmount_source = unmount }
