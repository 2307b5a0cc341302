-- ===== src/Tests.antt =====
-- Concrete inputs for the examples, and facts about them. The digest stands in for SHA-256: four
-- letters and the bytes, each moved past the dot.
pub mod Copying
pub mod Planning
pub mod Machines
pub mod Engines
pub mod Leds
pub mod Buses
pub mod Medias
pub mod Services
pub mod Databases
pub mod Scans
use pi_mobile_photobackup.Prelude.{
  ℕ, zero, suc, ◌+◌, ◌≤◌, ◌≡◌, refl, Text, Bytes, codes, Bool, true, false, Option, none, some,
  List, [], ◌∷◌, ◌++◌, arith, length, map, ltb, count_p, Bool-cases, inl, inr, ◌==◌, if◌then◌else◌,
}
use pi_mobile_photobackup.Identity.{Sha256, ContentIdentity, is_dot}
use pi_mobile_photobackup.ObjectStore.{object_path}
use pi_mobile_photobackup.Files.{Files, find_name}
use pi_mobile_photobackup.Manifest.{Manifest, JobRow}
use pi_mobile_photobackup.World.{World, SourceRead, readable, missing, Environment}
use pi_mobile_photobackup.World.Store.{IsDigest, IsObjectPath, StoreSound, Sound}

abbrev pub moved_bytes : Bytes → Text
moved_bytes [] = []
moved_bytes (x ∷ xs) = (x + 100) ∷ moved_bytes xs

pub moved_bytes-no_dot : (b : Bytes) → count_p is_dot (moved_bytes b) ≡ 0
moved_bytes-no_dot [] = refl
moved_bytes-no_dot (x ∷ xs) = ground (arith, moved_bytes-no_dot xs)

abbrev pub toy_digest : Bytes → Text
toy_digest b = 97 ∷ 97 ∷ 97 ∷ 97 ∷ moved_bytes b

abbrev pub toy_sha : Sha256
toy_sha = record {
  hexdigest = toy_digest;
  hexdigest_length = λ b. omega arith;
  hexdigest_no_dot = λ b. ground (arith, moved_bytes-no_dot b);
}

pub toy-IsDigest : (b : Bytes) → IsDigest (toy_digest b)
toy-IsDigest b = record { long = omega arith; no_dot = ground (arith, moved_bytes-no_dot b) }

abbrev pub photo : Bytes
photo = 1 ∷ 2 ∷ 3 ∷ []

abbrev pub photo_identity : ContentIdentity
photo_identity = record { size_bytes = 3; sha256 = toy_digest photo }

abbrev pub root : Text
root = codes "/o"

abbrev pub session : Text
session = codes "/b/x"

pub session-IsObjectPath : IsObjectPath root session → ⊥
unfolding object_path
session-IsObjectPath (s, d, e) = elim (Bool-cases (ltb (length s) 4)) [
  | inl short ↦ absurd (ground (arith, d.long, short))
  | inr long ↦ ground (arith, rw long at e)
]

-- Every source file holds the photo, and the device keeps what is written.
abbrev pub card : Environment
card = record { reads = λ n path. readable photo; lands = λ n b. b }

abbrev pub no_files : Files
no_files = record { names = []; blobs = []; next_inode = 0 }

abbrev pub job_row : JobRow
job_row = record {
  job_id = codes "J";
  state = codes "BACKUP_COPYING";
  session_path = codes "/b";
  counts = none;
}

abbrev pub one_job : Manifest
one_job = record { identities = []; objects = []; entries = []; jobs = job_row ∷ [] }

abbrev pub world : World
world = record { files = no_files; db = one_job; power = 100; opened = 0; written = 0 }

pub world-Sound : Sound toy_sha root no_files one_job
unfolding find_name
world-Sound = record {
  store = record { stored = λ s p i d e n. absurd (cc n); old = λ p i n. absurd (cc n) };
  rows = tt;
}
