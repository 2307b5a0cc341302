-- ===== src/Machine/Guard.antt =====
-- What `JobStateMachine.transition` guarantees over any sequence of attempts.
use pi_mobile_photobackup.Prelude.{◌≡◌, inl, inr, true, List, [], ◌∷◌, ◌++◌, Bool-cases}
use pi_mobile_photobackup.Machine.{BackupState, can_transition, JobStateMachine, transition}

-- `calls` is a walk from `s` to `t` along permitted transitions.
pub data Walk : BackupState → List (BackupState × BackupState) → BackupState → Type 0 where
  stay : {s : BackupState} → Walk s [] s
  go :
      {s u : BackupState} {calls : List (BackupState × BackupState)} (t : BackupState)
      → can_transition s t ≡ true
      → Walk t calls u
      → Walk s ((s, t) ∷ calls) u

Walk-snoc :
    {s t : BackupState} {calls : List (BackupState × BackupState)} (u : BackupState)
    → Walk s calls t
    → can_transition t u ≡ true
    → Walk s (calls ++ (t, u) ∷ []) u
Walk-snoc u stay e = go u e stay
Walk-snoc u (go t h w) e = go t h (Walk-snoc u w e)

-- A caller that tries the targets in turn and swallows every refusal.
pub attempt_all : List BackupState → JobStateMachine → JobStateMachine
attempt_all [] m = m
attempt_all (t ∷ ts) m = attempt_all ts (transition t m).1

transition-Walk :
    (s t : BackupState) (m : JobStateMachine)
    → Walk s m.calls m.state
    → Walk s (transition t m).1.calls (transition t m).1.state
unfolding transition
transition-Walk s t m w = elim (Bool-cases (can_transition m.state t)) [
  | inl e ↦ rw e (Walk-snoc t w e)
  | inr e ↦ rw e w
]

-- If the hook's calls so far are a walk of permitted transitions from `s` to the machine's state,
-- they still are after any targets were attempted in turn, refused ones included.
pub attempt_all-Walk :
    (ts : List BackupState) (s : BackupState) (m : JobStateMachine)
    → Walk s m.calls m.state
    → Walk s (attempt_all ts m).calls (attempt_all ts m).state
unfolding attempt_all
attempt_all-Walk [] s m w = w
attempt_all-Walk (t ∷ ts) s m w = attempt_all-Walk ts s (transition t m).1 (transition-Walk s t m w)
