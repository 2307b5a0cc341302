-- ===== src/Linux/Texts.antt =====
-- What linux/mount.py and linux/mountinfo.py use of Python's strings.
use pi_mobile_photobackup.Prelude.{
  ℕ, Text, Bool, Option, none, some, List, [], ◌∷◌, any_p, ◌==◌, if◌then◌else◌,
}

-- What `strip` removes, of the ASCII characters; the command prints no others.
unfoldable pub is_space : ℕ → Bool
is_space c = any_p (λ s. c == s) (9 ∷ 10 ∷ 11 ∷ 12 ∷ 13 ∷ 28 ∷ 29 ∷ 30 ∷ 31 ∷ 32 ∷ [])

unfoldable pub strip_left : Text → Text
unfolding is_space
strip_left [] = []
strip_left (c ∷ cs) = let rest = strip_left cs in if is_space c then rest else c ∷ cs

unfoldable pub strip_right : Text → Text
unfolding is_space
strip_right [] = []
strip_right (c ∷ cs) = elim (strip_right cs) [
  | [] ↦ if is_space c then [] else c ∷ []
  | x ∷ xs ↦ c ∷ x ∷ xs
]

unfoldable pub strip : Text → Text
unfolding strip_left strip_right
strip t = strip_right (strip_left t)

-- A character before the pieces of what follows it.
unfoldable pub before_pieces : ℕ → ℕ → List Text → List Text
before_pieces separator c [] = (c ∷ []) ∷ []
before_pieces separator c (p ∷ ps) = if c == separator then [] ∷ p ∷ ps else (c ∷ p) ∷ ps

-- `t.split(separator)` for a separator of one character.
unfoldable pub split_at : ℕ → Text → List Text
unfolding before_pieces
split_at separator [] = [] ∷ []
split_at separator (c ∷ cs) = before_pieces separator c (split_at separator cs)

-- The words and what stands before the first space: a character before them.
unfoldable pub before_words : ℕ → Text × List Text → Text × List Text
unfolding is_space
before_words c (word, words) =
    if is_space c
    then (elim word [ [] ↦ ([], words) | x ∷ xs ↦ ([], (x ∷ xs) ∷ words) ])
    else (c ∷ word, words)

unfoldable pub words_from : Text → Text × List Text
unfolding before_words
words_from [] = ([], [])
words_from (c ∷ cs) = before_words c (words_from cs)

-- `t.split()`
unfoldable pub split_words : Text → List Text
unfolding words_from
split_words t = elim (words_from t).0 [
  | [] ↦ (words_from t).1
  | x ∷ xs ↦ (x ∷ xs) ∷ (words_from t).1
]

-- `t.split(" - ", 1)`, where " - " is in `t`.
unfoldable pub split_dash : Text → Option (Text × Text)
split_dash [] = none
split_dash (c ∷ []) = none
split_dash (c ∷ d ∷ []) = none
split_dash (c ∷ d ∷ e ∷ rest) =
    let later : Option (Text × Text) = elim (split_dash (d ∷ e ∷ rest)) [
      | none ↦ none
      | some (l, r) ↦ some (c ∷ l, r)
    ] in
    if c == 32
    then (if d == 45 then (if e == 32 then some ([], rest) else later) else later)
    else later
