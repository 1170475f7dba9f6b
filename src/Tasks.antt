-- ===== src/Tasks.antt =====
-- `TaskManager` of src/pyclaw/infra/task_manager.py. The clock is an argument, in seconds; what a coroutine does
-- is not modelled, only how its `asyncio.Task` ends.
pub mod Ids
pub mod Consistent
pub mod Lifetime
pub mod Shutdown
pub mod Examples
use mathlib.Core.Option
use pyclaw.Prelude.{
  ℕ, ◌+◌, ◌<◌, Text, codes, Bool, true, false, Option, none, some, List, [], ◌∷◌, ◌++◌, map, not,
  ◌&&◌, Result, ok, err, if◌then◌else◌, ltb, text_eq, text_key, select,
}
use pyclaw.Prelude.Dict
use pyclaw.Prelude.Dict.{Dict}
use pyclaw.Tasks.Ids.{task_id}

-- An `asyncio.Task`: not done, with whether its cancellation is requested, or how it ended.
pub data AsyncTask : Type 0 where
  pending : (cancelling : Bool) → AsyncTask
  returned : AsyncTask
  raised : (error : Text) → AsyncTask
  was_cancelled : AsyncTask

pub data TaskState : Type 0 where
  running done cancelled failed : TaskState

pub record TaskHandle : Type 0 where
  pub task_id : Text
  pub name : Text
  pub category : Text
  pub asyncio_task : AsyncTask
  pub created_at : ℕ
  pub exception : Option Text
  pub owner : Option Text

pub record TaskInfo : Type 0 where
  pub task_id : Text
  pub name : Text
  pub category : Text
  pub state : TaskState
  pub created_at : ℕ
  pub exception : Option Text
  pub owner : Option Text

pub record TaskManager : Type 0 where
  pub tasks : Dict Text TaskHandle
  pub closed : Bool
  pub next_id : ℕ

-- The `TaskManagerClosedError`.
pub data SpawnError : Type 0 where
  manager_closed : (name : Text) → SpawnError

unfoldable pub new_manager : TaskManager
new_manager = record { tasks = []; closed = false; next_id = 0 }

unfoldable pub task_state : TaskHandle → TaskState
task_state h = elim h.asyncio_task [
  | pending cancelling ↦ running
  | returned ↦ done
  | raised error ↦ failed
  | was_cancelled ↦ cancelled
]

unfoldable pub is_running : TaskState → Bool
is_running running = true
is_running _ = false

abbrev pub prune_age : ℕ
prune_age = 300

-- self._task_state(h) != "running" and h.created_at < now - _PRUNE_AGE_S
unfoldable pub is_old : (now : ℕ) → TaskHandle → Bool
unfolding task_state is_running
is_old now h = not (is_running (task_state h)) && ltb (h.created_at + prune_age) now

unfoldable pub drop_old : (now : ℕ) → Dict Text TaskHandle → Dict Text TaskHandle
drop_old now [] = []
drop_old now ((tid, h) ∷ d) =
    let rest = drop_old now d in if is_old now h then rest else (tid, h) ∷ rest

unfoldable pub maybe_prune : (now : ℕ) → TaskManager → TaskManager
maybe_prune now m = record m { tasks = drop_old now m.tasks }

unfoldable pub new_handle : (now : ℕ) (id name category : Text) (owner : Option Text) → TaskHandle
new_handle now id name category owner = record {
  task_id = id;
  name = name;
  category = category;
  asyncio_task = pending false;
  created_at = now;
  exception = none;
  owner = owner;
}

unfoldable pub add_task :
    (now : ℕ) → TaskManager → (name category : Text) → Option Text → TaskManager
add_task now m name category owner = record m {
  tasks =
      Dict.put m.tasks (task_id m.next_id) (new_handle now (task_id m.next_id) name category owner);
  next_id = m.next_id + 1;
}

-- A manager that is closed refuses, after it has pruned.
unfoldable pub spawn :
    (now : ℕ)
    → TaskManager
    → (name category : Text) → Option Text
    → TaskManager × Result SpawnError Text
spawn now m name category owner =
    let pruned = maybe_prune now m in
    if pruned.closed
    then (pruned, err (manager_closed name))
    else (add_task now pruned name category owner, ok (task_id pruned.next_id))

-- How the wrapped coroutine ends, with the type and the message of the exception it raises.
pub data Ending : Type 0 where
  returns : Ending
  raises : (error_type message : Text) → Ending
  is_cancelled : Ending

-- f"{type(exc).__name__}: {exc}"
unfoldable pub error_text : (error_type message : Text) → Text
error_text error_type message = error_type ++ codes ": " ++ message

unfoldable pub ended : Ending → TaskHandle → TaskHandle
unfolding error_text
ended returns h = record h { asyncio_task = returned }
ended (raises error_type message) h = record h {
  asyncio_task = raised message;
  exception = some (error_text error_type message);
}
ended is_cancelled h = record h { asyncio_task = was_cancelled }

unfoldable pub set_handle : TaskManager → Text → TaskHandle → TaskManager
set_handle m id h = record m { tasks = Dict.put m.tasks id h }

-- `_wrap`, when the coroutine of a running task ends; a task ends once. What `on_error` does is not
-- modelled, and an error of it is swallowed.
unfoldable pub wrap_end : TaskManager → Text → Ending → TaskManager
wrap_end m id ending = elim (Dict.get m.tasks id) [
  | none ↦ m
  | some h ↦ if is_running (task_state h) then set_handle m id (ended ending h) else m
]

unfoldable pub request_cancel : TaskHandle → TaskHandle
request_cancel h = elim h.asyncio_task [
  | pending cancelling ↦ record h { asyncio_task = pending true }
  | _ ↦ h
]

-- `cancel`, up to its wait, which it does for the task's end and a time at most.
unfoldable pub cancel : TaskManager → Text → TaskManager × Bool
cancel m id = elim (Dict.get m.tasks id) [
  | none ↦ (m, false)
  | some h ↦
      if is_running (task_state h) then (set_handle m id (request_cancel h), true) else (m, false)
]

unfoldable pub get_state : TaskManager → Text → Option TaskState
get_state m id = Option.map task_state (Dict.get m.tasks id)

-- A filter that is None lets every task through.
unfoldable pub fits : Option Text → Option Text → Bool
fits none owner = true
fits (some wanted) none = false
fits (some wanted) (some owner) = text_eq owner wanted

unfoldable pub is_listed :
    (category : Option Text) (include_done : Bool) (owner : Option Text) → TaskHandle → Bool
unfolding task_state is_running fits
is_listed category include_done owner h =
    not (not include_done && not (is_running (task_state h)))
    && fits category (some h.category)
    && fits owner h.owner

unfoldable pub info : TaskHandle → TaskInfo
info h = record {
  task_id = h.task_id;
  name = h.name;
  category = h.category;
  state = task_state h;
  created_at = h.created_at;
  exception = h.exception;
  owner = h.owner;
}

unfoldable pub list_tasks :
    TaskManager
    → (category : Option Text) (include_done : Bool) (owner : Option Text) → List TaskInfo
list_tasks m category include_done owner =
    map info (select (is_listed category include_done owner) (Dict.values m.tasks))

pub record ShutdownReport : Type 0 where
  pub completed : ℕ
  pub cancelled : ℕ
  pub timed_out : ℕ
  pub failed : ℕ

unfoldable pub empty_report : ShutdownReport
empty_report = record { completed = 0; cancelled = 0; timed_out = 0; failed = 0 }

unfoldable pub count_ending : AsyncTask → ShutdownReport → ShutdownReport
count_ending (pending cancelling) r = record r { timed_out = r.timed_out + 1 }
count_ending was_cancelled r = record r { cancelled = r.cancelled + 1 }
count_ending (raised error) r = record r { failed = r.failed + 1 }
count_ending returned r = record r { completed = r.completed + 1 }

-- The loop over the tasks that were running, on how they stand when the wait is over.
unfoldable pub report : List AsyncTask → ShutdownReport → ShutdownReport
report [] r = r
report (t ∷ ts) r = report ts (count_ending t r)

unfoldable pub running_handles : TaskManager → List TaskHandle
running_handles m = select (λ h. is_running (task_state h)) (Dict.values m.tasks)

unfoldable pub cancel_all : Dict Text TaskHandle → Dict Text TaskHandle
cancel_all [] = []
cancel_all ((id, h) ∷ d) = (id, request_cancel h) ∷ cancel_all d

-- `settle` says how each task that was running stands when the wait is over.
unfoldable pub shutdown :
    (settle : TaskHandle → AsyncTask) → TaskManager → TaskManager × ShutdownReport
shutdown settle m = if m.closed then (m, empty_report) else (
  record m { tasks = cancel_all m.tasks; closed = true },
  report (map settle (map request_cancel (running_handles m))) empty_report,
)
