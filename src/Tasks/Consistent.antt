-- ===== src/Tasks/Consistent.antt =====
-- What holds of every manager of src/pyclaw/infra/task_manager.py that is reached: a step relation over its operations and
-- the ends of its tasks, and the invariant of its dict of tasks.
use mathlib.Core.Option
use pyclaw.Prelude.{
  ℕ, ◌<◌, Text, Bool, true, false, Option, none, some, [], ◌∷◌, ◌≡◌, refl, sym, ap, ◌∙◌, Result,
  some_inj, if◌then◌else◌, if_elim, text_eq, text_eq_iff, text_key, Bool-cases, Option-cases, inl,
  inr, arith,
}
use pyclaw.Prelude.Dict
use pyclaw.Prelude.Dict.{Dict}
use pyclaw.Tasks.Ids.{task_id}
use pyclaw.Tasks.{
  AsyncTask, TaskHandle, TaskManager, SpawnError, ShutdownReport, Ending, returns, raises,
  is_cancelled, new_manager, spawn, wrap_end, cancel, shutdown, task_state, is_running, is_old,
  drop_old, cancel_all, request_cancel, maybe_prune, add_task, set_handle, new_handle, ended,
}

pub data Step (m : TaskManager) : TaskManager → Type 0 where
  spawns :
      (now : ℕ) (name category : Text) (owner : Option Text)
      → Step m (spawn now m name category owner).0
  task_ends : (id : Text) (ending : Ending) → Step m (wrap_end m id ending)
  cancels : (id : Text) → Step m (cancel m id).0
  shuts_down : (settle : TaskHandle → AsyncTask) → Step m (shutdown settle m).0

pub data Steps (m : TaskManager) : TaskManager → Type 0 where
  start : Steps m m
  next : {n o : TaskManager} → Steps m n → Step n o → Steps m o

-- Every task stands under its own id, once, and its id is one of those that were given out.
pub record IsConsistent (m : TaskManager) : Type 0 where
  pub distinct : Dict.IsDistinct m.tasks
  pub issued :
      (id : Text) (h : TaskHandle)
      → Dict.get m.tasks id ≡ some h
      → (h.task_id ≡ id) × (n : ℕ) × (n < m.next_id) × (id ≡ task_id n)

has-drop_old :
    (now : ℕ) (d : Dict Text TaskHandle) (k : Text)
    → Dict.has d k ≡ false
    → Dict.has (drop_old now d) k ≡ false
unfolding drop_old Dict.has
has-drop_old now [] k h = refl
has-drop_old now ((j, v) ∷ d) k h = ground (arith, has-drop_old now d k)

pub get-drop_old :
    (now : ℕ) (d : Dict Text TaskHandle) (k : Text) (h : TaskHandle)
    → Dict.IsDistinct d
    → Dict.get d k ≡ some h
    → Dict.get (drop_old now d) k ≡ (if is_old now h then none else some h)
unfolding drop_old Dict.get
get-drop_old now [] k h distinct found = cc
get-drop_old now ((j, v) ∷ d) k h (new, distinct) found = ground (
  arith,
  text_eq_iff j k,
  has-drop_old now d k,
  Dict.has-get (drop_old now d) k,
  get-drop_old now d k h distinct,
)

pub get-drop_old-none :
    (now : ℕ) (d : Dict Text TaskHandle) (k : Text)
    → Dict.get d k ≡ none
    → Dict.get (drop_old now d) k ≡ none
unfolding drop_old Dict.get
get-drop_old-none now [] k h = refl
get-drop_old-none now ((j, v) ∷ d) k h = ground (arith, get-drop_old-none now d k)

drop_old-IsDistinct :
    (now : ℕ) (d : Dict Text TaskHandle) → Dict.IsDistinct d → Dict.IsDistinct (drop_old now d)
unfolding drop_old Dict.has
drop_old-IsDistinct now [] h = tt
drop_old-IsDistinct now ((j, v) ∷ d) (new, h) = elim (Bool-cases (is_old now v)) [
  | inl t ↦ rw t (drop_old-IsDistinct now d h)
  | inr f ↦ rw f (has-drop_old now d j new, drop_old-IsDistinct now d h)
]

pub maybe_prune-IsConsistent :
    (now : ℕ) (m : TaskManager) → IsConsistent m → IsConsistent (maybe_prune now m)
unfolding maybe_prune
maybe_prune-IsConsistent now m c = record {
  distinct = drop_old-IsDistinct now m.tasks c.distinct;
  issued = λ id h found. c.issued id h (kept id h found);
}
  where
    kept :
        (id : Text) (h : TaskHandle)
        → Dict.get (drop_old now m.tasks) id ≡ some h
        → Dict.get m.tasks id ≡ some h
    kept id h found = elim (Option-cases (Dict.get m.tasks id)) [
      | inl missing ↦ absurd (ground (arith, found, get-drop_old-none now m.tasks id missing))
      | inr (g, here) ↦ ground (arith, found, here, get-drop_old now m.tasks id g c.distinct here)
    ]

add_task-IsConsistent :
    (now : ℕ) (m : TaskManager) (name category : Text) (owner : Option Text)
    → IsConsistent m
    → IsConsistent (add_task now m name category owner)
unfolding add_task new_handle
add_task-IsConsistent now m name category owner c = record {
  distinct = Dict.put-IsDistinct m.tasks (task_id m.next_id) _ c.distinct;
  issued = λ id h found. elim (Bool-cases (text_eq (task_id m.next_id) id)) [
    | inl t ↦
        let e = (text_eq_iff (task_id m.next_id) id).0 t in
        let made = some_inj (
          rw
            (
              Dict.get-put m.tasks (task_id m.next_id) id
                  (new_handle now (task_id m.next_id) name category owner),
              t,
            )
            at found) in
        (sym (ap (λ (g : TaskHandle). g.task_id) made) ∙ e, m.next_id, omega arith, sym e)
    | inr f ↦
        let (own, n, below, e) = c.issued id h (
          rw
            (
              Dict.get-put m.tasks (task_id m.next_id) id
                  (new_handle now (task_id m.next_id) name category owner),
              f,
            )
            at found) in
        (own, n, omega arith, e)
  ];
}

spawn-IsConsistent :
    (now : ℕ) (m : TaskManager) (name category : Text) (owner : Option Text)
    → IsConsistent m
    → IsConsistent (spawn now m name category owner).0
unfolding spawn
spawn-IsConsistent now m name category owner c =
    let pruned = maybe_prune-IsConsistent now m c in
    if_elim {A = TaskManager × Result SpawnError Text} (λ r. IsConsistent r.0)
      (maybe_prune now m).closed (λ _. pruned)
      (λ _. add_task-IsConsistent now (maybe_prune now m) name category owner pruned)

set_handle-IsConsistent :
    (m : TaskManager) (id : Text) (h g : TaskHandle)
    → IsConsistent m
    → Dict.get m.tasks id ≡ some h
    → g.task_id ≡ h.task_id
    → IsConsistent (set_handle m id g)
unfolding set_handle
set_handle-IsConsistent m id h g c here same_id = record {
  distinct = Dict.put-IsDistinct m.tasks id g c.distinct;
  issued = λ j k found. elim (Bool-cases (text_eq id j)) [
    | inl t ↦
        let e = (text_eq_iff id j).0 t in
        let (own, n, below, is) = c.issued id h here in
        let made = some_inj (rw (Dict.get-put m.tasks id j g, t) at found) in
        (ground (arith, made, e, own, same_id), n, below, sym e ∙ is)
    | inr f ↦ c.issued j k (rw (Dict.get-put m.tasks id j g, f) at found)
  ];
}

ended-task_id : (ending : Ending) (h : TaskHandle) → (ended ending h).task_id ≡ h.task_id
unfolding ended
ended-task_id returns h = refl
ended-task_id (raises error_type message) h = refl
ended-task_id is_cancelled h = refl

request_cancel-task_id : (h : TaskHandle) → (request_cancel h).task_id ≡ h.task_id
unfolding request_cancel
request_cancel-task_id h = ground arith

wrap_end-IsConsistent :
    (m : TaskManager) (id : Text) (ending : Ending)
    → IsConsistent m
    → IsConsistent (wrap_end m id ending)
unfolding wrap_end
wrap_end-IsConsistent m id ending c = elim (Option-cases (Dict.get m.tasks id)) [
  | inl e ↦ rw (wrap_end, e) c
  | inr (h, e) ↦
      rw (wrap_end, e)
        (if_elim IsConsistent (is_running (task_state h))
          (λ _. set_handle-IsConsistent m id h (ended ending h) c e (ended-task_id ending h))
          (λ _. c))
]

cancel-IsConsistent : (m : TaskManager) (id : Text) → IsConsistent m → IsConsistent (cancel m id).0
unfolding cancel
cancel-IsConsistent m id c = elim (Option-cases (Dict.get m.tasks id)) [
  | inl e ↦ rw (cancel, e) c
  | inr (h, e) ↦
      rw (cancel, e)
        (if_elim {A = TaskManager × Bool} (λ r. IsConsistent r.0) (is_running (task_state h))
          (λ _. set_handle-IsConsistent m id h (request_cancel h) c e (request_cancel-task_id h))
          (λ _. c))
]

has-cancel_all : (d : Dict Text TaskHandle) (k : Text) → Dict.has (cancel_all d) k ≡ Dict.has d k
unfolding cancel_all Dict.has
has-cancel_all [] k = refl
has-cancel_all ((j, h) ∷ d) k = ap (λ b. if text_eq j k then true else b) (has-cancel_all d k)

pub get-cancel_all :
    (d : Dict Text TaskHandle) (k : Text)
    → Dict.get (cancel_all d) k ≡ Option.map request_cancel (Dict.get d k)
unfolding cancel_all Dict.get
get-cancel_all [] k = refl
get-cancel_all ((j, h) ∷ d) k = ground (arith, get-cancel_all d k)

cancel_all-IsDistinct :
    (d : Dict Text TaskHandle) → Dict.IsDistinct d → Dict.IsDistinct (cancel_all d)
unfolding cancel_all
cancel_all-IsDistinct [] h = tt
cancel_all-IsDistinct ((j, v) ∷ d) (new, h) = (has-cancel_all d j ∙ new, cancel_all-IsDistinct d h)

-- Each task of the manager whose tasks are asked to end is one that it had.
cancel_all-from :
    (d : Dict Text TaskHandle) (k : Text) (g : TaskHandle)
    → Dict.get (cancel_all d) k ≡ some g
    → (h : TaskHandle) × (Dict.get d k ≡ some h) × (g ≡ request_cancel h)
cancel_all-from d k g found = elim (Option-cases (Dict.get d k)) [
  | inl e ↦ absurd (ground (arith, found, get-cancel_all d k ∙ ap (Option.map request_cancel) e))
  | inr (h, e) ↦
      (h, e, some_inj (sym found ∙ get-cancel_all d k ∙ ap (Option.map request_cancel) e))
]

shutdown-IsConsistent :
    (settle : TaskHandle → AsyncTask) (m : TaskManager)
    → IsConsistent m
    → IsConsistent (shutdown settle m).0
unfolding shutdown
shutdown-IsConsistent settle m c =
    if_elim {A = TaskManager × ShutdownReport} (λ r. IsConsistent r.0) m.closed (λ _. c)
      λ _. record {
        distinct = cancel_all-IsDistinct m.tasks c.distinct;
        issued = λ id g found.
            let (h, here, is) = cancel_all-from m.tasks id g found in
            let (own, n, below, e) = c.issued id h here in
            (ap (λ (x : TaskHandle). x.task_id) is ∙ request_cancel-task_id h ∙ own, n, below, e);
      }

Step-IsConsistent : {m n : TaskManager} → Step m n → IsConsistent m → IsConsistent n
Step-IsConsistent {m} (spawns now name category owner) c =
    spawn-IsConsistent now m name category owner c
Step-IsConsistent {m} (task_ends id ending) c = wrap_end-IsConsistent m id ending c
Step-IsConsistent {m} (cancels id) c = cancel-IsConsistent m id c
Step-IsConsistent {m} (shuts_down settle) c = shutdown-IsConsistent settle m c

pub Steps-IsConsistent : {m n : TaskManager} → Steps m n → IsConsistent m → IsConsistent n
Steps-IsConsistent start c = c
Steps-IsConsistent (next steps step) c = Step-IsConsistent step (Steps-IsConsistent steps c)

pub new_manager-IsConsistent : IsConsistent new_manager
unfolding new_manager Dict.get
new_manager-IsConsistent = record { distinct = tt; issued = λ id h found. absurd (ground arith) }
