-- ===== src/ObjectStore.antt =====
-- aethereal/backup/object_store.py: where a content object and its partial copy live. A `Path`
-- is its text; roots are taken without a trailing slash, as `Path` prints them.
pub mod Paths
use pi_mobile_photobackup.Prelude.{
  ℕ, ◌+◌, ◌<◌, Text, codes, Option, none, some, List, ◌++◌, length, take, drop, ltb, if◌then◌else◌,
}

abbrev pub default_partial_suffix : Text
default_partial_suffix = codes ".aethereal-partial"

-- `aa/bb/<sha256>`, for a digest of four characters or more (`none`: the `ValueError`).
unfoldable pub object_relative_path : Text → Option Text
object_relative_path sha256 =
    if ltb (length sha256) 4
    then none
    else some (take 2 sha256 ++ codes "/" ++ take 2 (drop 2 sha256) ++ codes "/" ++ sha256)

-- `Path(root) / relative`
abbrev join : Text → Option Text → Option Text
join root none = none
join root (some relative) = some (root ++ (codes "/" ++ relative))

unfoldable pub object_path : Text → Text → Option Text
unfolding object_relative_path
object_path object_store_root sha256 = join object_store_root (object_relative_path sha256)

-- `with_name` replaces the last component, which is the digest.
abbrev with_suffix : Text → Option Text → Option Text
with_suffix suffix none = none
with_suffix suffix (some path) = some (path ++ suffix)

unfoldable pub partial_path : Text → Text → Option Text
unfolding object_path
partial_path object_store_root sha256 =
    with_suffix default_partial_suffix (object_path object_store_root sha256)
