-- ===== src/Service/Queue/Blocked.antt =====
-- What `Cancel` of a task that waits does to the queue.
use linyaps.Prelude.{
  ℕ, zero, suc, ◌≡◌, refl, sym, ap, false, none, List, [], ◌∷◌, ◌++◌, Text, text_eq_refl, length,
  append-nil, append_assoc, Bool-cases, inl, inr, ◌==◌,
}
use linyaps.Service.Task.{
  Task, queued, canceled, update_state, cancel, count_part, count_all, finish, update_sub_state,
}
use linyaps.Service.Queue.{
  Entry, Queue, is_queued, add_new_task, start_task, process, process_event, run_front,
  cancel_entries, cancel_task,
}

-- What comes to the queue: the next posted event is taken, or a task is added.
pub data Happening : Type 0 where
  taken : Happening
  added : Entry → Happening

unfoldable pub happen : Happening → Queue → Queue
unfolding process add_new_task
happen taken q = process q
happen (added e) q = add_new_task e q

unfoldable pub happen_all : List Happening → Queue → Queue
unfolding happen
happen_all [] q = q
happen_all (h ∷ hs) q = happen_all hs (happen h q)

abbrev pub added_by : Happening → List Entry
added_by taken = []
added_by (added e) = e ∷ []

abbrev pub all_added : List Happening → List Entry
all_added [] = []
all_added (h ∷ hs) = added_by h ++ all_added hs

abbrev pub IsBlocked : Entry → List Entry → List Task → Queue → Type 0
IsBlocked e es removed q = (q.tasks ≡ e ∷ es) × (q.removed ≡ removed)

event-IsBlocked :
    (n : ℕ) (e : Entry) (es : List Entry) (removed : List Task) (q : Queue)
    → is_queued e.task.state ≡ false
    → IsBlocked e es removed q
    → IsBlocked e es removed (process_event n q)
unfolding process_event run_front
event-IsBlocked zero e es removed q k h = h
event-IsBlocked (suc n) e es removed q k h = rw h.0 (rw k (refl, h.1))

happen-IsBlocked :
    (e : Entry) (es : List Entry) (removed : List Task) (h : Happening) (q : Queue)
    → is_queued e.task.state ≡ false
    → IsBlocked e es removed q
    → IsBlocked e (es ++ added_by h) removed (happen h q)
unfolding happen process add_new_task start_task
happen-IsBlocked e es removed taken q k b =
    rw (append-nil es) (event-IsBlocked q.starts e es removed q k b)
happen-IsBlocked e es removed (added x) q k b = (ap (λ ts. ts ++ x ∷ []) b.0, b.1)

happen_all-IsBlocked :
    (e : Entry) (es : List Entry) (removed : List Task) (hs : List Happening) (q : Queue)
    → is_queued e.task.state ≡ false
    → IsBlocked e es removed q
    → IsBlocked e (es ++ all_added hs) removed (happen_all hs q)
unfolding happen_all
happen_all-IsBlocked e es removed [] q k b = rw (append-nil es) b
happen_all-IsBlocked e es removed (h ∷ hs) q k b =
    rw (sym (append_assoc es (added_by h) (all_added hs))) (
      happen_all-IsBlocked e (es ++ added_by h) removed hs (happen h q) k
        (happen-IsBlocked e es removed h q k b))

-- A task whose parts are all completed is a success, and any other is canceled.
counted-not_queued :
    (message : Text) (t : Task) → is_queued (update_state canceled message none t).state ≡ false
unfolding update_state count_part count_all finish update_sub_state
counted-not_queued message t = elim (Bool-cases (t.task_parts == length t.refs)) [
  | inl e ↦ rw e refl
  | inr e ↦ rw e refl
]

cancel-not_queued :
    (message : Text) (t : Task) → t.state ≡ queued → is_queued (cancel message t).state ≡ false
unfolding cancel
cancel-not_queued message t h = rw h (counted-not_queued message t)

-- If the first task of the queue waits and is canceled, it stays there, and is no longer one that
-- waits; and whatever comes then, however many events and added tasks, no task is run or removed: the
-- queue is that task, the others as they were, and behind them the tasks that were added.
pub cancel_task-IsBlocked :
    (hs : List Happening) (message : Text) (e : Entry) (q : Queue) (es : List Entry)
    → q.tasks ≡ e ∷ es
    → e.task.state ≡ queued
    → (is_queued (cancel message e.task).state ≡ false)
      × IsBlocked
          (record e { task = cancel message e.task })
          (es ++ all_added hs)
          q.removed
          (happen_all hs (cancel_task e.task.id message q))
unfolding cancel_task cancel_entries
cancel_task-IsBlocked hs message e q es h k =
    let not_queued = cancel-not_queued message e.task k in
    let first : (cancel_task e.task.id message q).tasks
        ≡ record e { task = cancel message e.task } ∷ es =
      rw (h, text_eq_refl e.task.id) refl in
    (
      not_queued,
      happen_all-IsBlocked (record e { task = cancel message e.task }) es q.removed hs
          (cancel_task e.task.id message q) not_queued (first, refl),
    )
