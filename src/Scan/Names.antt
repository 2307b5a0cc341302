-- ===== src/Scan/Names.antt =====
-- backup/preflight.py: the names of a folder, and the paths made of them.
use pi_mobile_photobackup.Prelude.{
  ℕ, Text, codes, text_eq, Bool, true, false, not, ◌||◌, some, List, [], ◌∷◌, ◌++◌, ◌≡◌, refl, sym,
  ap, ◌∙◌, arith, inl, inr, Bool-cases, any_p, All, filter_p, ◌==◌, if◌then◌else◌,
}
use pi_mobile_photobackup.Snapshot.{
  forward_slashes, before_parts, split_slashes, path_parts, is_absolute, join_slash,
  normalize_relative_path,
}
use pi_mobile_photobackup.Scan.{Folder, folder, unlistable, Folders, last, subfolder, path_in}

-- A character that ends no name.
abbrev is_separator : ℕ → Bool
is_separator c = c == 47 || c == 92

-- A file name: not empty, without a separator, and not "..".
pub record IsName (name : Text) : Type 0 where
  pub no_separator : any_p is_separator name ≡ false
  pub not_empty : text_eq name [] ≡ false
  pub not_up : text_eq name (codes "..") ≡ false

forward_slashes-name : (t : Text) → any_p is_separator t ≡ false → forward_slashes t ≡ t
unfolding forward_slashes
forward_slashes-name [] h = refl
forward_slashes-name (c ∷ cs) h =
    let ih = forward_slashes-name cs (ground (arith, h)) in
    let keep : (if c == 92 then 47 else c) ≡ c = ground (arith, h) in λ i. keep i ∷ ih i

split_slashes-name : (t : Text) → any_p is_separator t ≡ false → split_slashes t ≡ t ∷ []
unfolding split_slashes
split_slashes-name [] h = refl
split_slashes-name (c ∷ cs) h =
    let ih = split_slashes-name cs (ground (arith, h)) in
    let other : (c == 47) ≡ false = ground (arith, h) in rw (ih, split_slashes) (rw other refl)

split_slashes-cons : (t : Text) → (p : Text) × (ps : List Text) × (split_slashes t ≡ p ∷ ps)
unfolding split_slashes
split_slashes-cons [] = ([], [], refl)
split_slashes-cons (c ∷ cs) =
    let t = split_slashes-cons cs in
    elim (Bool-cases (c == 47)) [
      | inl slash ↦ ([], t.0 ∷ t.1, rw (t.2, slash) refl)
      | inr other ↦ (c ∷ t.0, t.1, rw (t.2, other) refl)
    ]

before_parts-append :
    (c : ℕ) (p : Text) (ps qs : List Text)
    → before_parts c ((p ∷ ps) ++ qs) ≡ before_parts c (p ∷ ps) ++ qs
unfolding before_parts
before_parts-append c p ps qs = ground arith

split_slashes-append :
    (a b : Text) → split_slashes (a ++ codes "/" ++ b) ≡ split_slashes a ++ split_slashes b
unfolding split_slashes
split_slashes-append [] b = let t = split_slashes-cons b in rw (t.2, before_parts) refl
split_slashes-append (c ∷ cs) b =
    let t = split_slashes-cons cs in
    ap (before_parts c) (split_slashes-append cs b ∙ ap (λ l. l ++ split_slashes b) t.2)
    ∙ before_parts-append c t.0 t.1 (split_slashes b)
    ∙ ap (λ l. before_parts c l ++ split_slashes b) (sym t.2)

-- A path that is normalized without an error.
pub record IsRelative (path : Text) : Type 0 where
  pub relative : is_absolute (forward_slashes path) ≡ false
  pub not_up : any_p (λ p. text_eq p (codes "..")) (path_parts (forward_slashes path)) ≡ false

pub normalize-IsRelative :
    (path : Text) → IsRelative path → (t : Text) × (normalize_relative_path path ≡ some t)
unfolding normalize_relative_path
normalize-IsRelative path h =
    (join_slash (path_parts (forward_slashes path)), rw (h.relative, h.not_up) refl)

filter_p-append :
    (p : Text → Bool) (xs ys : List Text) → filter_p p (xs ++ ys) ≡ filter_p p xs ++ filter_p p ys
filter_p-append p [] ys = refl
filter_p-append p (x ∷ xs) ys = ground (arith, filter_p-append p xs ys)

any_p-append : (p : Text → Bool) (xs ys : List Text) → any_p p (xs ++ ys) ≡ any_p p xs || any_p p ys
any_p-append p [] ys = refl
any_p-append p (x ∷ xs) ys = ground (arith, any_p-append p xs ys)

name_not_up :
    (name : Text)
    → IsName name
    → any_p (λ p. text_eq p (codes "..")) (path_parts (forward_slashes name)) ≡ false
unfolding path_parts
name_not_up name h =
    rw (forward_slashes-name name h.no_separator, split_slashes-name name h.no_separator)
      (kept (not (text_eq name [] || text_eq name (codes "."))))
  where
    kept : (b : Bool) → any_p (λ p. text_eq p (codes "..")) (if b then name ∷ [] else []) ≡ false
    kept true = ground (arith, h.not_up)
    kept false = refl

name_relative : (name : Text) → IsName name → is_absolute (forward_slashes name) ≡ false
unfolding is_absolute forward_slashes
name_relative [] h = refl
name_relative (c ∷ cs) h = ground (arith, h.no_separator)

forward_slashes-append :
    (a b : Text)
    → forward_slashes (a ++ codes "/" ++ b) ≡ forward_slashes a ++ codes "/" ++ forward_slashes b
unfolding forward_slashes
forward_slashes-append [] b = refl
forward_slashes-append (c ∷ cs) b =
    ap (λ l. (if c == 92 then 47 else c) ∷ l) (forward_slashes-append cs b)

pub path_in-IsRelative :
    (dirpath name : Text) → IsRelative dirpath → IsName name → IsRelative (path_in dirpath name)
unfolding path_in is_absolute path_parts forward_slashes
path_in-IsRelative [] name d h = record {
  relative = name_relative name h;
  not_up = name_not_up name h;
}
path_in-IsRelative (c ∷ cs) name d h =
    let dir = forward_slashes (c ∷ cs) in
    let keep : Text → Bool = λ p. not (text_eq p [] || text_eq p (codes ".")) in
    let up : Text → Bool = λ p. text_eq p (codes "..") in
    let parts : path_parts (forward_slashes ((c ∷ cs) ++ codes "/" ++ name))
        ≡ path_parts dir ++ path_parts (forward_slashes name) =
      ap path_parts (forward_slashes-append (c ∷ cs) name)
      ∙ ap (filter_p keep) (split_slashes-append dir (forward_slashes name))
      ∙ filter_p-append keep (split_slashes dir) (split_slashes (forward_slashes name)) in
    let both : any_p up (path_parts dir) || any_p up (path_parts (forward_slashes name)) ≡ false =
      ground (arith, d.not_up, name_not_up name h) in
    record {
      relative = d.relative;
      not_up =
          ap (any_p up) parts
          ∙ any_p-append up (path_parts dir) (path_parts (forward_slashes name))
          ∙ both;
    }

-- Every name of the card is a file name.
unfoldable mutual
  pub HasNames : Folder → Type 0
  HasNames unlistable = Unit
  HasNames (folder files folders) = All (λ f. IsName f.0) files × HaveNames folders

  pub HaveNames : Folders → Type 0
  HaveNames last = Unit
  HaveNames (subfolder name is_link f fs) = IsName name × HasNames f × HaveNames fs
