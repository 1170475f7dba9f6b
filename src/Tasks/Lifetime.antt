-- ===== src/Tasks/Lifetime.antt =====
-- The life of a task of src/pyclaw/infra/task_manager.py: how its state changes from one step of the manager to the next.
use mathlib.Core.Option
use pyclaw.Prelude.{
  ℕ, ◌<◌, Text, Bool, true, Option, none, some, ◌≡◌, ◌≢◌, refl, ap, Result, if_elim, text_eq,
  text_eq_iff, text_key, Bool-cases, Option-cases, inl, inr, arith,
}
use pyclaw.Prelude.Dict
use pyclaw.Prelude.Dict.{Dict}
use pyclaw.Tasks.Consistent.{
  Step, spawns, task_ends, cancels, shuts_down, Steps, IsConsistent, Steps-IsConsistent,
  new_manager-IsConsistent, get-drop_old, get-drop_old-none, get-cancel_all,
}
use pyclaw.Tasks.Ids.{task_id, task_id_inj}
use pyclaw.Tasks.{
  TaskState, running, TaskHandle, TaskManager, SpawnError, ShutdownReport, Ending, new_manager,
  spawn, wrap_end, cancel, shutdown, get_state, task_state, is_running, is_old, drop_old,
  cancel_all, request_cancel, maybe_prune, add_task, set_handle, new_handle, ended,
}

-- How the state of a task may change in a step.
pub data Follows : Option TaskState → Option TaskState → Type 0 where
  same : {s : Option TaskState} → Follows s s
  ends : {t : TaskState} → Follows (some running) (some t)
  forgotten : {s : TaskState} → s ≢ running → Follows (some s) none

states : Dict Text TaskHandle → Text → Option TaskState
states d id = Option.map task_state (Dict.get d id)

is_running_lem : (s : TaskState) → is_running s ≡ true → s ≡ running
unfolding is_running
is_running_lem s h = ground arith

not_running : (now : ℕ) (h : TaskHandle) → is_old now h ≡ true → task_state h ≢ running
unfolding is_old is_running
not_running now h old e = ground arith

request_cancel-task_state : (h : TaskHandle) → task_state (request_cancel h) ≡ task_state h
unfolding request_cancel task_state
request_cancel-task_state h = ground arith

drop_old-Follows :
    (now : ℕ) (d : Dict Text TaskHandle) (id : Text)
    → Dict.IsDistinct d
    → Follows (states d id) (states (drop_old now d) id)
unfolding states
drop_old-Follows now d id distinct = elim (Option-cases (Dict.get d id)) [
  | inl e ↦ rw (e, get-drop_old-none now d id e) same
  | inr (h, e) ↦
      rw (e, get-drop_old now d id h distinct e)
        (if_elim (λ o. Follows (some (task_state h)) (Option.map task_state o)) (is_old now h)
          (λ old. forgotten (not_running now h old)) (λ _. same))
]

put-Follows :
    (d : Dict Text TaskHandle) (j id : Text) (h g : TaskHandle)
    → Dict.get d j ≡ some h
    → is_running (task_state h) ≡ true
    → Follows (states d id) (states (Dict.put d j g) id)
unfolding states
put-Follows d j id h g here runs = elim (Bool-cases (text_eq j id)) [
  | inl t ↦
      let e : Dict.get d id ≡ some h = rw (← (text_eq_iff j id).0 t) here in
      rw (Dict.get-put d j id g, t, e, is_running_lem (task_state h) runs) ends
  | inr f ↦ rw (Dict.get-put d j id g, f) same
]

wrap_end-Follows :
    (m : TaskManager) (j id : Text) (ending : Ending)
    → Follows (states m.tasks id) (states (wrap_end m j ending).tasks id)
unfolding wrap_end set_handle
wrap_end-Follows m j id ending = elim (Option-cases (Dict.get m.tasks j)) [
  | inl e ↦ rw (wrap_end, e) same
  | inr (h, e) ↦
      rw (wrap_end, e)
        (if_elim {A = TaskManager} (λ r. Follows (states m.tasks id) (states r.tasks id))
          (is_running (task_state h)) (λ t. put-Follows m.tasks j id h (ended ending h) e t)
          (λ _. same))
]

cancel-Follows :
    (m : TaskManager) (j id : Text) → Follows (states m.tasks id) (states (cancel m j).0.tasks id)
unfolding cancel set_handle
cancel-Follows m j id = elim (Option-cases (Dict.get m.tasks j)) [
  | inl e ↦ rw (cancel, e) same
  | inr (h, e) ↦
      rw (cancel, e)
        (if_elim {A = TaskManager × Bool} (λ r. Follows (states m.tasks id) (states r.0.tasks id))
          (is_running (task_state h)) (λ t. put-Follows m.tasks j id h (request_cancel h) e t)
          (λ _. same))
]

cancel_all-states : (d : Dict Text TaskHandle) (id : Text) → states (cancel_all d) id ≡ states d id
unfolding states
cancel_all-states d id = elim (Option-cases (Dict.get d id)) [
  | inl e ↦ rw (get-cancel_all d id, e) refl
  | inr (h, e) ↦ rw (get-cancel_all d id, e) (ap some (request_cancel-task_state h))
]

-- A new task has a number that was not given out before.
add_task-Follows :
    (now : ℕ) (m : TaskManager) (name category : Text) (owner : Option Text) (n : ℕ)
    → n < m.next_id
    → states (add_task now m name category owner).tasks (task_id n) ≡ states m.tasks (task_id n)
unfolding add_task states
add_task-Follows now m name category owner n below =
    let h = new_handle now (task_id m.next_id) name category owner in
    ap (Option.map task_state) (
      Dict.get-put_ne m.tasks (task_id m.next_id) (task_id n) h
        (λ e. absurd (omega (arith, task_id_inj m.next_id n e))))

Step-Follows :
    {m m' : TaskManager} (n : ℕ)
    → IsConsistent m
    → n < m.next_id
    → Step m m'
    → Follows (get_state m (task_id n)) (get_state m' (task_id n))
unfolding get_state states spawn shutdown maybe_prune
Step-Follows {m} n c below (spawns now name category owner) =
    let pruned = drop_old-Follows now m.tasks (task_id n) c.distinct in
    if_elim {A = TaskManager × Result SpawnError Text}
      (λ r. Follows (states m.tasks (task_id n)) (states r.0.tasks (task_id n))) m.closed
      (λ _. pruned)
      (λ _. rw (add_task-Follows now (maybe_prune now m) name category owner n below) pruned)
Step-Follows {m} n c below (task_ends id ending) = wrap_end-Follows m id (task_id n) ending
Step-Follows {m} n c below (cancels id) = cancel-Follows m id (task_id n)
Step-Follows {m} n c below (shuts_down settle) =
    if_elim {A = TaskManager × ShutdownReport}
      (λ r. Follows (states m.tasks (task_id n)) (states r.0.tasks (task_id n))) m.closed
      (λ _. same) (λ _. rw (cancel_all-states m.tasks (task_id n)) same)

-- In a manager that is reached from a new one by spawns, ends of tasks, cancels and shutdowns, a step
-- changes the state of a task whose number was given out in two ways only: a running task may end, and one
-- that is not running may be forgotten. So a task that runs is never pruned, one that has ended keeps its
-- end, and one that is forgotten stays unknown, since its id is not given out again.
pub get_state-Follows :
    {m m' : TaskManager} (n : ℕ)
    → Steps new_manager m
    → n < m.next_id
    → Step m m'
    → Follows (get_state m (task_id n)) (get_state m' (task_id n))
get_state-Follows n steps below step =
    Step-Follows n (Steps-IsConsistent steps new_manager-IsConsistent) below step
