-- ===== src/Tasks/States.antt =====
-- constants/task.ts: the states of a task.
use multi_tenant_project_man.Base.{
  Bool, true, false, Option, none, some, List, [], ◌∷◌, ◌||◌, not, ◌≡◌, refl, arith, any,
}
use multi_tenant_project_man.Schema.Work.{
  TaskStatus, todo, in_progress, in_review, done, cancelled, same_status,
}

-- VALID_STATUS_TRANSITIONS
unfoldable pub valid_status_transitions : TaskStatus → List TaskStatus
valid_status_transitions todo = todo ∷ in_progress ∷ in_review ∷ done ∷ cancelled ∷ []
valid_status_transitions in_progress = in_progress ∷ todo ∷ in_review ∷ done ∷ cancelled ∷ []
valid_status_transitions in_review = in_review ∷ todo ∷ in_progress ∷ done ∷ cancelled ∷ []
valid_status_transitions done = done ∷ todo ∷ in_progress ∷ []
valid_status_transitions cancelled = cancelled ∷ todo ∷ in_progress ∷ []

-- The guard of `updateTask`: `input.status`, if it is given, against the status of the task.
unfoldable pub is_valid_transition : TaskStatus → Option TaskStatus → Bool
unfolding same_status valid_status_transitions
is_valid_transition from none = true
is_valid_transition from (some to) =
    same_status to from || any (λ s. same_status s to) (valid_status_transitions from)

abbrev pub is_finished : TaskStatus → Bool
is_finished done = true
is_finished cancelled = true
is_finished _ = false

-- A change of status is refused exactly where the task is done or cancelled and is to get
-- another status than its own, TODO or IN_PROGRESS.
pub transition_exact :
    (from to : TaskStatus)
    → is_valid_transition from (some to) ≡ (
        not (is_finished from)
        || (same_status to from || (same_status to todo || same_status to in_progress)))
unfolding is_valid_transition same_status valid_status_transitions
transition_exact todo todo = refl
transition_exact todo in_progress = refl
transition_exact todo in_review = refl
transition_exact todo done = refl
transition_exact todo cancelled = refl
transition_exact in_progress todo = refl
transition_exact in_progress in_progress = refl
transition_exact in_progress in_review = refl
transition_exact in_progress done = refl
transition_exact in_progress cancelled = refl
transition_exact in_review todo = refl
transition_exact in_review in_progress = refl
transition_exact in_review in_review = refl
transition_exact in_review done = refl
transition_exact in_review cancelled = refl
transition_exact done to = ground arith
transition_exact cancelled to = ground arith

pub same_status_refl : (s : TaskStatus) → same_status s s ≡ true
unfolding same_status
same_status_refl todo = refl
same_status_refl in_progress = refl
same_status_refl in_review = refl
same_status_refl done = refl
same_status_refl cancelled = refl
