-- ===== src/Service/Queue.antt =====
-- package_manager/package_task.h and package_task.cpp: `PackageTaskQueue`. Signals between the
-- queue's own slots are direct calls; what `startTask` posts to the event loop is counted in
-- `starts`, and `process` takes one such event. A job runs to its end within the event.
pub mod Order
pub mod Blocked
use linyaps.Prelude.{
  ℕ, zero, suc, Bool, true, false, Option, none, some, List, [], ◌∷◌, ◌++◌, Text, text_eq,
  if◌then◌else◌,
}
use linyaps.Service.Task.{State, Task, queued, cancel}

-- A task with its job, `m_job`.
pub record Entry : Type 0 where
  pub task : Task
  pub job : Task → Task

-- The queue, the events that it has posted, and the tasks that `TaskRemoved` was emitted with.
pub record Queue : Type 0 where
  pub tasks : List Entry
  pub starts : ℕ
  pub removed : List Task

abbrev pub is_queued : State → Bool
is_queued queued = true
is_queued s = false

unfoldable pub start_task : Queue → Queue
start_task q = record q { starts = suc q.starts }

unfoldable pub add_new_task : Entry → Queue → Queue
unfolding start_task
add_new_task e q = start_task (record q { tasks = q.tasks ++ e ∷ [] })

-- `task.run()`: a job changes neither the identifier nor the refs.
unfoldable pub run : Entry → Entry
run e = record e { task = record (e.job e.task) { id = e.task.id; refs = e.task.refs } }

unfoldable pub find_task : Text → List Entry → Option Task
find_task id [] = none
find_task id (e ∷ es) =
    let later = find_task id es in if text_eq e.task.id id then some e.task else later

unfoldable pub erase_task : Text → List Entry → List Entry
erase_task id [] = []
erase_task id (e ∷ es) =
    let later = erase_task id es in if text_eq e.task.id id then es else e ∷ later

unfoldable remove_found : Option Task → Text → Queue → Queue
unfolding erase_task start_task
remove_found none id q = q
remove_found (some task) id q =
    let left = record q { tasks = erase_task id q.tasks; removed = q.removed ++ task ∷ [] } in
    if is_queued task.state then left else start_task left

unfoldable pub task_done : Text → Queue → Queue
unfolding remove_found find_task
task_done id q = remove_found (find_task id q.tasks) id q

unfoldable run_front : List Entry → Queue → Queue
unfolding run task_done
run_front [] q = q
run_front (e ∷ es) q =
    let finished = task_done e.task.id (record q { tasks = run e ∷ es }) in
    if is_queued e.task.state then finished else q

unfoldable process_event : ℕ → Queue → Queue
unfolding run_front
process_event zero q = q
process_event (suc n) q = run_front q.tasks (record q { starts = n })

-- One event that `startTask` posted, where there is one.
unfoldable pub process : Queue → Queue
unfolding process_event
process q = process_event q.starts q

-- `Cancel` of the task that has the identifier, which stays where it is.
unfoldable pub cancel_entries : Text → Text → List Entry → List Entry
unfolding cancel
cancel_entries id message [] = []
cancel_entries id message (e ∷ es) =
    let later = cancel_entries id message es in
    if text_eq e.task.id id then record e { task = cancel message e.task } ∷ es else e ∷ later

unfoldable pub cancel_task : Text → Text → Queue → Queue
unfolding cancel_entries
cancel_task id message q = record q { tasks = cancel_entries id message q.tasks }
