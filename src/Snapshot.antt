-- ===== src/Snapshot.antt =====
-- aethereal/backup/snapshot.py: the canonical form of a relative path, and the records of a scan.
use pi_mobile_photobackup.Prelude.{
  ℕ, Text, codes, text_eq, Bool, false, ◌||◌, Option, none, some, List, [], ◌∷◌, ◌++◌, map, any_p,
  filter_p, not, ◌==◌, if◌then◌else◌,
}

pub record SourceFileRecord : Type 0 where
  pub relative_path : Text
  pub size_bytes : ℕ
  pub sha256 : Text

-- `relative_path.replace("\\", "/")`
unfoldable pub forward_slashes : Text → Text
forward_slashes t = map (λ c. if c == 92 then 47 else c) t

-- A character before the parts of what follows it.
unfoldable pub before_parts : ℕ → List Text → List Text
before_parts c [] = (c ∷ []) ∷ []
before_parts c (part ∷ parts) = if c == 47 then [] ∷ part ∷ parts else (c ∷ part) ∷ parts

-- The parts between slashes.
unfoldable pub split_slashes : Text → List Text
unfolding before_parts
split_slashes [] = [] ∷ []
split_slashes (c ∷ cs) = before_parts c (split_slashes cs)

-- `PurePosixPath(t).parts`, of a path that is not absolute: no empty part and no ".".
unfoldable pub path_parts : Text → List Text
unfolding split_slashes text_eq
path_parts t = filter_p (λ p. not (text_eq p [] || text_eq p (codes "."))) (split_slashes t)

unfoldable pub is_absolute : Text → Bool
is_absolute [] = false
is_absolute (c ∷ cs) = c == 47

-- `"/".join(parts)`
unfoldable pub join_slash : List Text → Text
join_slash [] = []
join_slash (p ∷ ps) = elim ps [ [] ↦ p | q ∷ qs ↦ p ++ codes "/" ++ join_slash ps ]

-- `none` is the ValueError.
unfoldable pub normalize_relative_path : Text → Option Text
unfolding forward_slashes path_parts is_absolute join_slash text_eq
normalize_relative_path t =
    let parts = path_parts (forward_slashes t) in
    if is_absolute (forward_slashes t) || any_p (λ p. text_eq p (codes "..")) parts
    then none
    else some (join_slash parts)
