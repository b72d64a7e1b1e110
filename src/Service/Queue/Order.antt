-- ===== src/Service/Queue/Order.antt =====
-- In which order the queue runs its tasks.
use linyaps.Prelude.{
  ℕ, zero, suc, ◌≡◌, refl, sym, ◌∙◌, ap, true, false, some, List, [], ◌∷◌, ◌++◌, text_eq_refl,
  length, All, map, append-nil, append_assoc,
}
use linyaps.Service.Task.{Task}
use linyaps.Service.Queue.{
  Entry, Queue, is_queued, run, find_task, erase_task, remove_found, task_done, run_front, process,
  process_event, start_task,
}

-- A task that waits, and whose job leaves it in another state.
abbrev pub IsReady : Entry → Type 0
IsReady e = (is_queued e.task.state ≡ true) × (is_queued (run e).task.state ≡ false)

-- Many events.
unfoldable pub process_many : ℕ → Queue → Queue
unfolding process
process_many zero q = q
process_many (suc n) q = process_many n (process q)

abbrev pub with_front : Entry → List Entry → ℕ → List Task → Queue
with_front e es starts removed = record { tasks = e ∷ es; starts = starts; removed = removed }

find-front : (e : Entry) (es : List Entry) → find_task e.task.id (run e ∷ es) ≡ some (run e).task
unfolding find_task run
find-front e es = rw (text_eq_refl e.task.id) refl

erase-front : (e : Entry) (es : List Entry) → erase_task e.task.id (run e ∷ es) ≡ es
unfolding erase_task run
erase-front e es = rw (text_eq_refl e.task.id) refl

process-front :
    (e : Entry) (es : List Entry) (n : ℕ) (removed : List Task)
    → IsReady e
    → process (with_front e es (suc n) removed)
      ≡ record { tasks = es; starts = suc n; removed = removed ++ (run e).task ∷ [] }
unfolding process process_event run_front task_done remove_found start_task
process-front e es n removed h = rw (h.0, find-front e es, h.1, erase-front e es) refl

-- Where each task waits and its job leaves it in another state, and at least one event is posted, as
-- many events as there are tasks empty the queue: every task has run, in the order of the queue.
pub process_many-tasks :
    (es : List Entry) (n : ℕ) (removed : List Task)
    → All IsReady es
    → process_many (length es) (record { tasks = es; starts = suc n; removed = removed }) ≡ record {
      tasks = [];
      starts = suc n;
      removed = removed ++ map (λ (e : Entry). (run e).task) es;
    }
unfolding process_many
process_many-tasks [] n removed h =
    ap (λ r. record { tasks = []; starts = suc n; removed = r }) (sym (append-nil removed))
process_many-tasks (e ∷ es) n removed h =
    ap (process_many (length es)) (process-front e es n removed h.0)
    ∙ process_many-tasks es n (removed ++ (run e).task ∷ []) h.1
    ∙ ap (λ r. record { tasks = []; starts = suc n; removed = r })
        (append_assoc removed ((run e).task ∷ []) (map (λ (e : Entry). (run e).task) es))
