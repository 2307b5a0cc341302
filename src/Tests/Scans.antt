-- ===== src/Tests/Scans.antt =====
-- Examples for the walk of a card.
use pi_mobile_photobackup.Prelude.{
  Text, codes, text_eq, false, some, [], ◌∷◌, ◌≡◌, refl, arith, any_p, ◌==◌, ◌||◌,
}
use pi_mobile_photobackup.Scan.{
  regular, failing, special, Folder, folder, unlistable, last, subfolder, ScanResult, scan_source,
}
use pi_mobile_photobackup.Scan.Records.{IsAccount}
use pi_mobile_photobackup.Scan.Accounts.{yielded}
use pi_mobile_photobackup.Scan.Names.{IsName, HasNames}
use pi_mobile_photobackup.Scan.Total.{scan_source_total}
use pi_mobile_photobackup.Tests.{toy_sha}

-- A folder of photos, a hidden one, and files that are skipped or cannot be read.
abbrev camera_card : Folder
camera_card = folder ((codes ".a", regular []) ∷ (codes "n.txt", regular (1 ∷ [])) ∷ []) (
    subfolder (codes "D") false
      (folder ((codes "p.jpg", regular (1 ∷ 2 ∷ 3 ∷ [])) ∷ (codes "q.jpg", failing) ∷ []) last)
      (subfolder (codes ".T") false (folder ((codes "x", special) ∷ []) last)
        (subfolder (codes "E") false unlistable last)))

is_name :
    (t : Text)
    → any_p (λ c. c == 47 || c == 92) t ≡ false
    → text_eq t [] ≡ false
    → text_eq t (codes "..") ≡ false
    → IsName t
is_name t a b c = record { no_separator = a; not_empty = b; not_up = c }

camera_card-HasNames : HasNames camera_card
unfolding HasNames text_eq
camera_card-HasNames = (
  (is_name (codes ".a") refl refl refl, (is_name (codes "n.txt") refl refl refl, tt)),
  (
    is_name (codes "D") refl refl refl,
    ((is_name (codes "p.jpg") refl refl refl, (is_name (codes "q.jpg") refl refl refl, tt)), tt),
    (
      is_name (codes ".T") refl refl refl,
      ((is_name (codes "x") refl refl refl, tt), tt),
      (is_name (codes "E") refl refl refl, tt, tt),
    ),
  ),
)

scan_source_total_example :
    (s : ScanResult) × (scan_source toy_sha 2 (λ t. t) (codes "jpg" ∷ []) camera_card ≡ some s)
    × IsAccount (yielded toy_sha 2 (λ t. t) (codes "jpg" ∷ []) camera_card) s
scan_source_total_example =
    scan_source_total toy_sha 2 (λ t. t) (codes "jpg" ∷ []) (omega arith) camera_card
      camera_card-HasNames
