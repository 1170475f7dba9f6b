-- ===== src/Tasks/Shutdown.antt =====
-- What `shutdown` of src/pyclaw/infra/task_manager.py reports, and that it is final.
use mathlib.Core.Option
use pyclaw.Prelude.{
  ℕ, ◌+◌, Text, true, false, Option, some, List, [], ◌∷◌, ◌≡◌, ap, ◌∙◌, err, map, length,
  length-map, if_elim, text_key, arith,
}
use pyclaw.Prelude.Dict
use pyclaw.Tasks.{
  AsyncTask, pending, returned, raised, was_cancelled, TaskHandle, TaskManager, manager_closed,
  ShutdownReport, spawn, wrap_end, cancel, shutdown, maybe_prune, set_handle, report, count_ending,
  empty_report, running_handles, task_state, is_running, request_cancel, cancel_all, Ending,
}
use pyclaw.Tasks.Consistent.{
  spawns, task_ends, cancels, shuts_down, Steps, start, next, get-cancel_all,
}

abbrev pub total : ShutdownReport → ℕ
total r = r.completed + r.cancelled + r.timed_out + r.failed

total-report :
    (ts : List AsyncTask) (r : ShutdownReport) → total (report ts r) ≡ length ts + total r
unfolding report count_ending
total-report [] r = omega arith
total-report (pending cancelling ∷ ts) r =
    omega (arith, total-report ts (count_ending (pending cancelling) r))
total-report (returned ∷ ts) r = omega (arith, total-report ts (count_ending returned r))
total-report (raised e ∷ ts) r = omega (arith, total-report ts (count_ending (raised e) r))
total-report (was_cancelled ∷ ts) r = omega (arith, total-report ts (count_ending was_cancelled r))

running_request :
    (h : TaskHandle)
    → is_running (task_state h) ≡ true
    → (request_cancel h).asyncio_task ≡ pending true
unfolding is_running task_state request_cancel
running_request h runs = ground arith

-- The shutdown of a manager that is open counts each task that is running once, as completed, cancelled,
-- failed or timed out, and asks every running task to end.
pub shutdown-report :
    (settle : TaskHandle → AsyncTask) (m : TaskManager)
    → m.closed ≡ false
    → (total (shutdown settle m).1 ≡ length (running_handles m))
      × ((id : Text) (h : TaskHandle)
          → Dict.get m.tasks id ≡ some h
          → is_running (task_state h) ≡ true
          → (g : TaskHandle) × (Dict.get (shutdown settle m).0.tasks id ≡ some g)
            × (g.asyncio_task ≡ pending true))
unfolding shutdown
shutdown-report settle m open_still =
    if_elim {A = TaskManager × ShutdownReport}
      (λ r.
        (total r.1 ≡ length (running_handles m))
        × ((id : Text) (h : TaskHandle)
            → Dict.get m.tasks id ≡ some h
            → is_running (task_state h) ≡ true
            → (g : TaskHandle) × (Dict.get r.0.tasks id ≡ some g)
              × (g.asyncio_task ≡ pending true)))
      m.closed (λ t. cc) (λ _. (counts, asked))
  where
    counts :
        total (report (map settle (map request_cancel (running_handles m))) empty_report)
        ≡ length (running_handles m)
    counts =
        total-report (map settle (map request_cancel (running_handles m))) empty_report
        ∙ (unfold empty_report in
            omega (
              arith,
              length-map settle (map request_cancel (running_handles m)),
              length-map request_cancel (running_handles m),
            ))

    asked :
        (id : Text) (h : TaskHandle)
        → Dict.get m.tasks id ≡ some h
        → is_running (task_state h) ≡ true
        → (g : TaskHandle) × (Dict.get (cancel_all m.tasks) id ≡ some g)
          × (g.asyncio_task ≡ pending true)
    asked id h here runs = (
      request_cancel h,
      get-cancel_all m.tasks id ∙ ap (Option.map request_cancel) here,
      running_request h runs,
    )

wrap_end-closed :
    (m : TaskManager) (id : Text) (ending : Ending) → (wrap_end m id ending).closed ≡ m.closed
unfolding wrap_end set_handle
wrap_end-closed m id ending = ground arith

cancel-closed : (m : TaskManager) (id : Text) → (cancel m id).0.closed ≡ m.closed
unfolding cancel set_handle
cancel-closed m id = ground arith

shutdown-closed :
    (settle : TaskHandle → AsyncTask) (m : TaskManager) → (shutdown settle m).0.closed ≡ true
unfolding shutdown
shutdown-closed settle m = ground arith

spawn-closed :
    (now : ℕ) (m : TaskManager) (name category : Text) (owner : Option Text)
    → m.closed ≡ true
    → (spawn now m name category owner).0.closed ≡ true
unfolding spawn maybe_prune
spawn-closed now m name category owner h = ground arith

Steps-closed : {m n : TaskManager} → Steps m n → m.closed ≡ true → n.closed ≡ true
Steps-closed start h = h
Steps-closed (next {n = n} steps (spawns now name category owner)) h =
    spawn-closed now n name category owner (Steps-closed steps h)
Steps-closed (next {n = n} steps (task_ends id ending)) h =
    wrap_end-closed n id ending ∙ Steps-closed steps h
Steps-closed (next {n = n} steps (cancels id)) h = cancel-closed n id ∙ Steps-closed steps h
Steps-closed (next {n = n} steps (shuts_down settle)) h = shutdown-closed settle n

spawn-refuses :
    (now : ℕ) (m : TaskManager) (name category : Text) (owner : Option Text)
    → m.closed ≡ true
    → spawn now m name category owner ≡ (maybe_prune now m, err (manager_closed name))
unfolding spawn maybe_prune
spawn-refuses now m name category owner h = ground arith

shutdown-again :
    (settle : TaskHandle → AsyncTask) (m : TaskManager)
    → m.closed ≡ true
    → shutdown settle m ≡ (m, empty_report)
unfolding shutdown
shutdown-again settle m h = ground arith

-- After a shutdown, whatever steps follow, a spawn raises and does no more than prune, and another shutdown
-- changes nothing and reports no task.
pub shutdown-IsFinal :
    (settle : TaskHandle → AsyncTask) (m : TaskManager) {n : TaskManager}
    → Steps (shutdown settle m).0 n
    → ((now : ℕ) (name category : Text) (owner : Option Text)
        → spawn now n name category owner ≡ (maybe_prune now n, err (manager_closed name)))
      × ((again : TaskHandle → AsyncTask) → shutdown again n ≡ (n, empty_report))
shutdown-IsFinal settle m {n} steps =
    let closed = Steps-closed steps (shutdown-closed settle m) in
    (
      λ now name category owner. spawn-refuses now n name category owner closed,
      λ again. shutdown-again again n closed,
    )
