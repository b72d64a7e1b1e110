-- ===== src/Samples/Tasks.antt =====
-- The theorems on transactions and tasks at concrete inputs.
use linyaps.Prelude.{ℕ, ◌+◌, ◌-◌, ◌≡◌, refl, false, none, List, [], ◌∷◌, Text, codes, map, arith}
use linyaps.Utils.Transaction.{empty, commit, destroy}
use linyaps.Utils.Transaction.Rollback.{Step, perform, destroy-perform}
use linyaps.Service.Task.{
  State, Task, TaskError, queued, failed, part_completed, processing, unknown_step, update_state,
  cancel,
}
use linyaps.Service.Task.Progress.{IsSucceeded, complete}
use linyaps.Service.Task.Success.{complete-IsSucceeded, update_state-IsSucceeded}
use linyaps.Service.Queue.{Entry, Queue, run, is_queued, cancel_task}
use linyaps.Service.Queue.Order.{process_many, process_many-tasks}
use linyaps.Service.Queue.Blocked.{
  Happening, taken, added, happen_all, IsBlocked, cancel_task-IsBlocked,
}

abbrev add_one : Step ℕ
add_one = record { act = λ n. n + 1; undo = λ n. n - 1 }

destroy-perform_example :
    (destroy
        (perform (add_one ∷ add_one ∷ []) 5 empty).1
        (perform (add_one ∷ add_one ∷ []) 5 empty).0
      ≡ 5)
    × (destroy
          (commit (perform (add_one ∷ add_one ∷ []) 5 empty).1)
          (perform (add_one ∷ add_one ∷ []) 5 empty).0
        ≡ (perform (add_one ∷ add_one ∷ []) 5 empty).0)
destroy-perform_example =
    destroy-perform (add_one ∷ add_one ∷ []) 5 ((λ n. omega arith), ((λ n. omega arith), tt))

abbrev task : Text → State → List Text → Task
task id state refs = record {
  id = id;
  refs = refs;
  state = state;
  sub_state = unknown_step;
  code = 0;
  message = [];
  error = none;
  total = 0;
  part = 0;
  whole = 1;
  task_parts = 0;
  cancelled = false;
}

abbrev install : Task
install = task (codes "t1") queued (codes "a" ∷ codes "b" ∷ [])

abbrev temporary : Task
temporary = task (codes "t0") processing []

abbrev broken : TaskError
broken = record { message = codes "no network"; code = 2000 }

complete-IsSucceeded_example : IsSucceeded (complete 2 [] install)
complete-IsSucceeded_example = complete-IsSucceeded 1 [] install refl (omega arith)

update_state-IsSucceeded_example :
    IsSucceeded (update_state failed (codes "no network") none temporary)
update_state-IsSucceeded_example =
    update_state-IsSucceeded failed (codes "no network") temporary (λ e. cc) refl

abbrev entry : Text → State → Entry
entry id state = record {
  task = task id state (codes "a" ∷ []);
  job = λ t. update_state part_completed [] none t;
}

process_many-tasks_example :
    process_many 2 (record {
      tasks = entry (codes "t1") queued ∷ entry (codes "t2") queued ∷ [];
      starts = 1;
      removed = [];
    })
    ≡ record {
      tasks = [];
      starts = 1;
      removed =
          map
            (λ (e : Entry). (run e).task)
            (entry (codes "t1") queued ∷ entry (codes "t2") queued ∷ []);
    }
unfolding run update_state
process_many-tasks_example =
    process_many-tasks (entry (codes "t1") queued ∷ entry (codes "t2") queued ∷ []) 0 []
      ((refl, refl), ((refl, refl), tt))

abbrev waiting : Queue
waiting = record {
  tasks = entry (codes "t1") queued ∷ entry (codes "t2") queued ∷ [];
  starts = 2;
  removed = [];
}

abbrev happenings : List Happening
happenings = taken ∷ added (entry (codes "t3") queued) ∷ taken ∷ taken ∷ []

cancel_task-IsBlocked_example :
    (is_queued (cancel [] (task (codes "t1") queued (codes "a" ∷ []))).state ≡ false)
    × IsBlocked
        (record (entry (codes "t1") queued) {
          task = cancel [] (task (codes "t1") queued (codes "a" ∷ []));
        })
        (entry (codes "t2") queued ∷ entry (codes "t3") queued ∷ [])
        []
        (happen_all happenings (cancel_task (codes "t1") [] waiting))
cancel_task-IsBlocked_example =
    cancel_task-IsBlocked happenings [] (entry (codes "t1") queued) waiting
      (entry (codes "t2") queued ∷ []) refl refl
