-- ===== src/Tasks/Examples.antt =====
-- Tests and witnesses on src/pyclaw/infra/task_manager.py.
use pyclaw.Prelude.{
  ℕ, Text, codes, text_key, false, Option, none, decimal, some, [], ◌∷◌, ◌≡◌, refl, arith, err, map,
  text_eq,
}
use pyclaw.Prelude.Dict
use pyclaw.Tasks.{
  AsyncTask, was_cancelled, TaskHandle, TaskManager, failed, raises, new_manager, spawn, wrap_end,
  get_state, list_tasks, shutdown, manager_closed, empty_report, maybe_prune, is_old, drop_old,
  add_task, new_handle, set_handle, ended, info, is_listed,
}
use pyclaw.Tasks.Ids.{task_id}
use pyclaw.Tasks.Consistent.{start, next, spawns, task_ends}
use pyclaw.Tasks.Lifetime.{Follows, get_state-Follows}
use pyclaw.Tasks.Shutdown.{shutdown-IsFinal}

abbrev one : TaskManager
one = (spawn 0 new_manager (codes "heartbeat") (codes "generic") none).0

abbrev two : TaskManager
two = (spawn 10 one (codes "nudge") (codes "nudge") none).0

abbrev broken : TaskManager
broken = wrap_end two (codes "t000000") (raises (codes "ValueError") (codes "bad"))

abbrev settle_all : TaskHandle → AsyncTask
settle_all h = was_cancelled

task_id_runs : task_id 12 ≡ codes "t000012"
unfolding task_id decimal
task_id_runs = refl

get_state_failed : get_state broken (codes "t000000") ≡ some failed
unfolding get_state Dict.get wrap_end spawn maybe_prune new_manager add_task Dict.put drop_old
    is_old new_handle text_eq task_id decimal set_handle ended
get_state_failed = refl

spawn_prunes :
    get_state (spawn 311 broken (codes "x") (codes "generic") none).0 (codes "t000000") ≡ none
unfolding get_state Dict.get spawn maybe_prune wrap_end new_manager add_task Dict.put drop_old
    is_old new_handle text_eq task_id decimal set_handle ended
spawn_prunes = refl

list_tasks_running : map (λ t. t.name) (list_tasks broken none false none) ≡ codes "nudge" ∷ []
unfolding list_tasks wrap_end Dict.get spawn maybe_prune new_manager add_task Dict.put drop_old
    is_old new_handle text_eq task_id decimal set_handle is_listed ended info
list_tasks_running = refl

get_state-Follows_example : Follows (get_state two (task_id 0)) (get_state broken (task_id 0))
unfolding spawn maybe_prune new_manager add_task
get_state-Follows_example =
    get_state-Follows 0
      (next (next start (spawns 0 (codes "heartbeat") (codes "generic") none))
        (spawns 10 (codes "nudge") (codes "nudge") none))
      (omega arith) (task_ends (codes "t000000") (raises (codes "ValueError") (codes "bad")))

shutdown-IsFinal_example :
    ((now : ℕ) (name category : Text) (owner : Option Text)
      → spawn now (shutdown settle_all two).0 name category owner
        ≡ (maybe_prune now (shutdown settle_all two).0, err (manager_closed name)))
    × ((again : TaskHandle → AsyncTask)
        → shutdown again (shutdown settle_all two).0 ≡ ((shutdown settle_all two).0, empty_report))
shutdown-IsFinal_example = shutdown-IsFinal settle_all two start
