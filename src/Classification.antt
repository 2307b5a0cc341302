-- ===== src/Classification.antt =====
-- aethereal/backup/classification.py: what a source file is, before anything is copied.
use pi_mobile_photobackup.Prelude.{
  Text, ◌≡◌, Bool, false, not, Option, none, some, arith, if◌then◌else◌,
}
use pi_mobile_photobackup.Identity.{ContentIdentity, identity_eq}

pub data FileClassification : Type 0 where
  new already_backed_up potential_conflict unsupported unreadable : FileClassification

pub record ClassificationInput : Type 0 where
  pub relative_path : Text
  pub identity : Option ContentIdentity
  pub is_unreadable : Bool
  pub is_unsupported : Bool

-- The destination path already holds other content.
unfoldable pub occupied_by_other :
    Option (Text → Option ContentIdentity) → Text → ContentIdentity → Bool
occupied_by_other none path identity = false
occupied_by_other (some occupant) path identity = elim (occupant path) [
  | none ↦ false
  | some occupying ↦ not (identity_eq occupying identity)
]

classify_readable :
    (ContentIdentity → Bool)
    → Option (Text → Option ContentIdentity)
    → Text
    → Option ContentIdentity
    → FileClassification
unfolding occupied_by_other
classify_readable verified occupant path none = unreadable
classify_readable verified occupant path (some identity) =
    if occupied_by_other occupant path identity
    then potential_conflict
    else if verified identity
    then already_backed_up
    else new

unfoldable pub classify :
    (ContentIdentity → Bool)
    → Option (Text → Option ContentIdentity)
    → ClassificationInput
    → FileClassification
unfolding classify_readable
classify verified occupant item =
    if item.is_unsupported
    then unsupported
    else if item.is_unreadable
    then unreadable
    else classify_readable verified occupant item.relative_path item.identity

-- A file that is classified as new was read, its path is not held by other content, and no
-- verified object has its identity.
pub classify-new :
    (verified : ContentIdentity → Bool) (occupant : Option (Text → Option ContentIdentity))
    (item : ClassificationInput)
    → classify verified occupant item ≡ new
    → (identity : ContentIdentity) × (item.identity ≡ some identity)
      × (verified identity ≡ false)
      × (occupied_by_other occupant item.relative_path identity ≡ false)
unfolding classify
classify-new verified occupant item h = ground arith
