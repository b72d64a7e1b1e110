-- ===== src/Service/Task/Progress.antt =====
-- The progress of a task to its end.
use linyaps.Prelude.{
  ℕ, zero, suc, ◌≤◌, ◌≡◌, true, Option, none, ◌==◌, Text, length, arith, Bool-cases, inl, inr,
}
use linyaps.Service.Task.{
  State, SubState, TaskError, Task, canceled, part_completed, succeed, all_done, get_percentage,
  update_task, update_sub_state, update_state, count_part, count_all, finish, report_error, cancel,
  is_final, is_done, done_or,
}

-- A share of a stage: part of a whole that is not zero.
abbrev pub IsShare : Task → Type 0
IsShare t = (t.part ≤ t.whole) × (1 ≤ t.whole)

sub_state-IsShare :
    (s : SubState) (m : Text) (t : Task) → IsShare t → IsShare (update_sub_state s m t)
unfolding update_sub_state
sub_state-IsShare s m t h = elim (Bool-cases (is_done s)) [
  | inl e ↦ rw e h
  | inr e ↦ rw e (omega arith, omega arith)
]

count_part-IsShare : (s : State) (t : Task) → IsShare t → IsShare (count_part s t)
unfolding count_part
count_part-IsShare part_completed t h = (omega arith, omega arith)
count_part-IsShare s t h = h

count_all-IsShare : (t : Task) → IsShare t → IsShare (count_all t)
unfolding count_all
count_all-IsShare t h = elim (Bool-cases (t.task_parts == length t.refs)) [
  | inl e ↦ rw e h
  | inr e ↦ rw e h
]

finish-IsShare : (m : Text) (o : Option SubState) (t : Task) → IsShare t → IsShare (finish m o t)
unfolding finish
finish-IsShare m o t h = elim (Bool-cases (is_final t.state)) [
  | inl e ↦ rw e (sub_state-IsShare (done_or o) m t h)
  | inr e ↦ rw e h
]

update_state-IsShare :
    (s : State) (m : Text) (o : Option SubState) (t : Task)
    → IsShare t
    → IsShare (update_state s m o t)
unfolding update_state
update_state-IsShare s m o t h =
    let counted = count_part s (record t { state = s }) in
    finish-IsShare m o (count_all counted)
      (count_all-IsShare counted (count_part-IsShare s (record t { state = s }) h))

update_task-IsShare : (p w : ℕ) (m : Text) (t : Task) → IsShare t → IsShare (update_task p w m t)
unfolding update_task
update_task-IsShare p w m t h = ground arith

cancel-IsShare : (m : Text) (t : Task) → IsShare t → IsShare (cancel m t)
unfolding cancel
cancel-IsShare m t h =
    elim t.state
      as (λ s. IsShare (elim s [
        | canceled ↦ t
        | _ ↦ record (update_state canceled m none t) { cancelled = true }
      ])) [ canceled ↦ h | _ ↦ update_state-IsShare canceled m none t h ]

-- Every method of a task keeps the share of its stage: part of a whole that is not zero.
pub methods-IsShare :
    (t : Task) (s : State) (step : SubState) (o : Option SubState) (p w : ℕ) (m : Text)
    (e : TaskError)
    → IsShare t
    → IsShare (update_task p w m t)
      × IsShare (update_sub_state step m t)
      × IsShare (update_state s m o t)
      × IsShare (report_error e t)
      × IsShare (cancel m t)
methods-IsShare t s step o p w m e h = (
  update_task-IsShare p w m t h,
  sub_state-IsShare step m t h,
  update_state-IsShare s m o t h,
  unfold report_error in (omega arith, omega arith),
  cancel-IsShare m t h,
)

-- `updateState` with `PartCompleted`, so many times.
unfoldable pub complete : ℕ → Text → Task → Task
unfolding update_state
complete zero message t = t
complete (suc n) message t = complete n message (update_state part_completed message none t)

-- The end of a task: succeeded, with everything done, and at 100 per cent.
abbrev pub IsSucceeded : Task → Type 0
IsSucceeded t = (t.state ≡ succeed) × (t.sub_state ≡ all_done) × (get_percentage t ≡ (100, 1))
