-- ===== src/Service/Task.antt =====
-- package_manager/package_task.h and package_task.cpp: `PackageTask`. The signals and the forwarding
-- of properties over D-Bus change no state of the task and are left out. A share of a stage,
-- `m_curStagePercentage`, is kept as the part and the whole that it is the quotient of.
pub mod Progress
pub mod Success
use linyaps.Prelude.{
  ℕ, ◌+◌, ◌*◌, ◌%◌, ◌^◌, ◌==◌, ltb, length, Bool, true, false, Option, none, some, List, Text,
  if◌then◌else◌,
}

pub data State : Type 0 where
  canceled failed part_completed pending processing queued succeed unknown : State

pub data SubState : Type 0 where
  all_done install_application install_base install_runtime : SubState
  package_manager_done post_action pre_action uninstall unknown_step : SubState

pub record TaskError : Type 0 where
  pub message : Text
  pub code : ℕ

pub record Task : Type 0 where
  pub id : Text
  pub refs : List Text
  pub state : State
  pub sub_state : SubState
  pub code : ℕ
  pub message : Text
  pub error : Option TaskError
  pub total : ℕ
  pub part : ℕ
  pub whole : ℕ
  pub task_parts : ℕ
  pub cancelled : Bool

-- `m_subStateMap`; a missing key is added with 0.
unfoldable pub weight : SubState → ℕ
weight pre_action = 10
weight install_base = 20
weight install_runtime = 20
weight install_application = 20
weight uninstall = 80
weight post_action = 5
weight s = 0

abbrev pub is_done : SubState → Bool
is_done all_done = true
is_done package_manager_done = true
is_done s = false

-- `getPercentage`, as a numerator and a denominator.
unfoldable pub get_percentage : Task → ℕ × ℕ
unfolding weight
get_percentage t =
    if is_done t.sub_state
    then (100, 1)
    else (t.total * t.whole + t.part * weight t.sub_state, t.whole)

unfoldable pub update_task : ℕ → ℕ → Text → Task → Task
update_task part whole message t =
    if whole == 0
    then t
    else if ltb whole part
    then t
    else record t { message = message; part = part; whole = whole }

unfoldable pub update_sub_state : SubState → Text → Task → Task
unfolding weight
update_sub_state step message t =
    if is_done step
    then record t { sub_state = step; message = message; total = 100 }
    else record t {
      sub_state = step;
      message = message;
      total = t.total + weight step;
      part = 0;
      whole = 1;
    }

abbrev pub is_final : State → Bool
is_final canceled = true
is_final failed = true
is_final succeed = true
is_final s = false

abbrev pub done_or : Option SubState → SubState
done_or none = all_done
done_or (some step) = step

-- The first two steps of `updateState`: a completed part is counted, and all parts make a success.
unfoldable pub count_part : State → Task → Task
count_part part_completed t = record t {
  task_parts = (t.task_parts + 1) % 2 ^ 32;
  total = 0;
  part = 0;
  whole = 1;
}
count_part s t = t

unfoldable pub count_all : Task → Task
count_all t = if t.task_parts == length t.refs then record t { state = succeed } else t

unfoldable pub finish : Text → Option SubState → Task → Task
unfolding update_sub_state
finish message opt_done t =
    if is_final t.state
    then update_sub_state (done_or opt_done) message t
    else record t { message = message }

unfoldable pub update_state : State → Text → Option SubState → Task → Task
unfolding count_part count_all finish
update_state new_state message opt_done t =
    finish message opt_done (count_all (count_part new_state (record t { state = new_state })))

unfoldable pub report_error : TaskError → Task → Task
report_error e t = record t {
  total = 100;
  part = 0;
  whole = 1;
  state = failed;
  sub_state = all_done;
  error = some e;
  message = e.message;
  code = e.code;
}

-- The text of the message is an argument; the flag exists after either constructor.
unfoldable pub cancel : Text → Task → Task
unfolding update_state
cancel message t = elim t.state [
  | canceled ↦ t
  | _ ↦ record (update_state canceled message none t) { cancelled = true }
]
