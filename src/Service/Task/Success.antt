-- ===== src/Service/Task/Success.antt =====
-- When a task succeeds: once all its parts are completed, whatever state is then asked for.
use linyaps.Prelude.{
  ℕ, zero, suc, ◌+◌, ◌%◌, ◌^◌, ◌<◌, ◌≡◌, ◌≢◌, refl, ◌∙◌, ap, none, Text, length, arith,
}
use linyaps.Service.Task.{
  State, Task, part_completed, succeed, get_percentage, update_state, update_sub_state, count_part,
  count_all, finish,
}
use linyaps.Service.Task.Progress.{complete, IsSucceeded}

all-counted : (t : Task) → t.task_parts ≡ length t.refs → count_all t ≡ record t { state = succeed }
unfolding count_all
all-counted t h = ground arith

not_all-counted : (t : Task) → t.task_parts ≢ length t.refs → count_all t ≡ t
unfolding count_all
not_all-counted t h = ground arith

finish-IsSucceeded :
    (m : Text) (t : Task) → IsSucceeded (finish m none (record t { state = succeed }))
unfolding finish update_sub_state get_percentage
finish-IsSucceeded m t = (refl, refl, refl)

next_part : (t : Task) → t.task_parts + 1 < 2 ^ 32 → (t.task_parts + 1) % 2 ^ 32 ≡ t.task_parts + 1
next_part t h = omega arith

last_part :
    (m : Text) (t : Task)
    → t.task_parts + 1 ≡ length t.refs
    → length t.refs < 2 ^ 32
    → IsSucceeded (update_state part_completed m none t)
unfolding update_state count_part
last_part m t h k =
    let counted = count_part part_completed (record t { state = part_completed }) in
    rw (all-counted counted (next_part t (omega arith) ∙ h)) (finish-IsSucceeded m counted)

early_part :
    (m : Text) (t : Task)
    → t.task_parts + 1 < length t.refs
    → length t.refs < 2 ^ 32
    → ((update_state part_completed m none t).task_parts ≡ t.task_parts + 1)
      × ((update_state part_completed m none t).refs ≡ t.refs)
unfolding update_state count_part
early_part m t h k =
    let counted = count_part part_completed (record t { state = part_completed }) in
    let next = next_part t (omega arith) in
    rw (not_all-counted counted (λ e. omega (arith, next, e, h))) (unfold finish in (next, refl))

-- A task that has so many parts left, fewer than 2^32 in all, succeeds when that many parts have
-- been reported as completed: everything is done, at 100 per cent.
pub complete-IsSucceeded :
    (n : ℕ) (m : Text) (t : Task)
    → t.task_parts + suc n ≡ length t.refs
    → length t.refs < 2 ^ 32
    → IsSucceeded (complete (suc n) m t)
unfolding complete
complete-IsSucceeded zero m t h k = last_part m t h k
complete-IsSucceeded (suc n) m t h k =
    let (parts, refs) = early_part m t (omega arith) k in
    complete-IsSucceeded n m (update_state part_completed m none t)
      (omega (arith, parts, ap length refs, h)) (omega (arith, ap length refs, k))

uncounted : (s : State) (t : Task) → s ≢ part_completed → count_part s t ≡ t
unfolding count_part
uncounted part_completed t h = absurd (h refl)
uncounted s t h = refl

-- Once all parts of a task are completed, and so from the start for a task without refs, such as
-- `createTemporaryTask` gives, `updateState` with any state but `PartCompleted`, `Failed` and
-- `Canceled` among them, and no last step given, makes the task a success.
pub update_state-IsSucceeded :
    (s : State) (m : Text) (t : Task)
    → s ≢ part_completed
    → t.task_parts ≡ length t.refs
    → IsSucceeded (update_state s m none t)
unfolding update_state
update_state-IsSucceeded s m t h k =
    rw (uncounted s (record t { state = s }) h, all-counted (record t { state = s }) k)
      (finish-IsSucceeded m (record t { state = s }))
