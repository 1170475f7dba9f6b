-- ===== src/Storage/Mutex/FailSafe.antt =====
-- The mutex notices the loss of its lock, and never gives up another worker's.
use pyclaw.Prelude.{
  ℕ, Text, ◌≡◌, ◌≢◌, refl, ap, ◌∙◌, Bool, true, false, Option, none, some, List, [], ◌∷◌,
  if◌then◌else◌, if_elim, Bool-cases, inl, inr, text_eq, text_eq_iff, text_eq_refl,
}
use pyclaw.Storage.Redis.{Commands, IsRedis}
use pyclaw.Storage.Lock.{full_key, owns, release, renew}
use pyclaw.Storage.Mutex.{
  TaskState, running, done, cancelled, failed, Mutex, is_running, heartbeat_task_finished, lost_by,
  lost, Event, beats, network_error, crashes, pruned, leaves, others, set_lost, after_renewal,
  prune, is_beating, renew_token, step, steps, cancel, release_token, exit,
}

lost_by-prune :
    (event : Option Bool) (h : Option (Option TaskState))
    → lost_by event h ≡ true
    → lost_by event (prune h) ≡ true
unfolding lost_by heartbeat_task_finished prune is_running
lost_by-prune none h l = l
lost_by-prune (some true) h l = refl
lost_by-prune (some false) none l = l
lost_by-prune (some false) (some none) l = l
lost_by-prune (some false) (some (some running)) l = l
lost_by-prune (some false) (some (some done)) l = refl
lost_by-prune (some false) (some (some cancelled)) l = refl
lost_by-prune (some false) (some (some failed)) l = refl

set_lost-lost : (m : Mutex) → lost (set_lost m) ≡ true
unfolding lost lost_by set_lost
set_lost-lost m = refl

after_renewal-lost :
    (m : Mutex) (renewed : Bool) → lost m ≡ true → lost (after_renewal m renewed) ≡ true
unfolding after_renewal
after_renewal-lost m true l = l
after_renewal-lost m false l = set_lost-lost m

lost_by-failed :
    (event : Option Bool) (h : Option (Option TaskState))
    → lost_by event h ≡ true
    → lost_by event (some (some failed)) ≡ true
unfolding lost_by heartbeat_task_finished is_running
lost_by-failed none h l = l
lost_by-failed (some true) h l = refl
lost_by-failed (some false) h l = refl

lost_by-cancel :
    (event : Option Bool) (h : Option (Option TaskState))
    → lost_by event h ≡ true
    → lost_by event (cancel h) ≡ true
unfolding lost_by heartbeat_task_finished cancel is_running
lost_by-cancel none h l = l
lost_by-cancel (some true) h l = refl
lost_by-cancel (some false) none l = l
lost_by-cancel (some false) (some none) l = l
lost_by-cancel (some false) (some (some running)) l = refl
lost_by-cancel (some false) (some (some done)) l = refl
lost_by-cancel (some false) (some (some cancelled)) l = refl
lost_by-cancel (some false) (some (some failed)) l = refl

module _ {S : Type 0} (redis : Commands S) (prefix : Text) where
  renew_token-lost :
      (s : S) (m : Mutex) (token : Option Text)
      → lost m ≡ true
      → lost (renew_token redis prefix s m token).1 ≡ true
  unfolding renew_token
  renew_token-lost s m none l = l
  renew_token-lost s m (some t) l = after_renewal-lost m (renew redis prefix s m.key t m.ttl_ms).1 l

  step-lost :
      (s : S) (m : Mutex) (e : Event S) → lost m ≡ true → lost (step redis prefix s m e).1 ≡ true
  unfolding step
  step-lost s m beats l =
      if_elim (λ (p : S × Mutex). lost p.1 ≡ true) (is_beating m)
        (λ _. renew_token-lost s m m.token l) (λ _. l)
  step-lost s m network_error l =
      if_elim (λ (p : S × Mutex). lost p.1 ≡ true) (is_beating m) (λ _. set_lost-lost m) (λ _. l)
  step-lost s m crashes l =
      if_elim (λ (p : S × Mutex). lost p.1 ≡ true) (is_beating m)
        (λ _. unfold lost in lost_by-failed m.lost_event m.heartbeat l) (λ _. l)
  step-lost s m pruned l = unfold lost in lost_by-prune m.lost_event m.heartbeat l
  step-lost s m leaves l = unfold exit in unfold lost in lost_by-cancel m.lost_event m.heartbeat l
  step-lost s m (others f) l = l

  -- A mutex that has lost its lock stays lost until it is entered again, so that `check_alive` goes on raising: through
  -- beats, errors and crashes of its heartbeat, the pruning of the task, the work of others, and when it is left.
  pub steps-lost :
      (s : S) (m : Mutex) (es : List (Event S))
      → lost m ≡ true
      → lost (steps redis prefix s m es).1 ≡ true
  unfolding steps
  steps-lost s m [] l = l
  steps-lost s m (e ∷ es) l =
      steps-lost (step redis prefix s m e).0 (step redis prefix s m e).1 es (step-lost s m e l)

module _ {S : Type 0} (redis : Commands S) (laws : IsRedis redis) (prefix : Text) where
  not_owned : (value : Option Text) (token : Text) → value ≢ some token → owns value token ≡ false
  unfolding owns
  not_owned none token h = refl
  not_owned (some v) token h = elim (Bool-cases (text_eq v token)) [
    | inl same ↦ absurd (h (ap some ((text_eq_iff v token).0 same)))
    | inr other ↦ other
  ]

  renew-refused :
      (s : S) (key token : Text) (ttl : ℕ)
      → redis.get s (full_key prefix key) ≢ some token
      → renew redis prefix s key token ttl ≡ (s, false)
  unfolding renew
  renew-refused s key token ttl other =
      rw (not_owned (redis.get s (full_key prefix key)) token other) refl

  release-refused :
      (s : S) (key token : Text)
      → redis.get s (full_key prefix key) ≢ some token
      → release redis prefix s key token ≡ (s, false)
  unfolding release
  release-refused s key token other =
      rw (not_owned (redis.get s (full_key prefix key)) token other) refl

  step-beats :
      (s : S) (m : Mutex) (token : Text)
      → is_beating m ≡ true
      → m.token ≡ some token
      → redis.get s (full_key prefix m.key) ≢ some token
      → step redis prefix s m beats ≡ (s, set_lost m)
  unfolding step renew_token
  step-beats s m token b t other =
      ap (λ x. if x then renew_token redis prefix s m m.token else (s, m)) b
      ∙ ap (renew_token redis prefix s m) t
      ∙ ap (λ (p : S × Bool). (p.0, after_renewal m p.1))
          (renew-refused s m.key token m.ttl_ms other)
      ∙ (unfold after_renewal in refl)

  -- Once the server holds another value than the mutex's token, or none, the next beat of the heartbeat makes the
  -- mutex lost and leaves the server as it is; and leaving the mutex before that beat leaves the server as it is
  -- too, so that the lock of another worker stays.
  pub steps-others :
      (s : S) (m : Mutex) (token : Text)
      → is_beating m ≡ true
      → m.token ≡ some token
      → redis.get s (full_key prefix m.key) ≢ some token
      → (lost (steps redis prefix s m (beats ∷ [])).1 ≡ true)
        × ((steps redis prefix s m (beats ∷ [])).0 ≡ s)
        × ((exit redis prefix s m).0 ≡ s)
  unfolding steps exit release_token
  steps-others s m token b t other =
      let stepped = step-beats s m token b t other in
      (
        ap (λ (p : S × Mutex). lost p.1) stepped ∙ set_lost-lost m,
        ap (λ (p : S × Mutex). p.0) stepped,
        ap (release_token redis prefix s m) t
            ∙ ap (λ (p : S × Bool). p.0) (release-refused s m.key token other),
      )

  release-own :
      (s : S) (key token : Text)
      → redis.get s (full_key prefix key) ≡ some token
      → redis.get (release redis prefix s key token).0 (full_key prefix key) ≡ none
  unfolding release
  release-own s key token held =
      let mine : owns (redis.get s (full_key prefix key)) token ≡ true =
        rw held (unfold owns in text_eq_refl token) in
      rw mine (laws.get-del s (full_key prefix key))

  -- Leaving a mutex whose lock is still its own frees the lock. The mutex is lost from then on, even though it was
  -- not: the heartbeat that it cancels counts as finished.
  pub exit-lost :
      (s : S) (m : Mutex) (token : Text)
      → m.token ≡ some token
      → m.lost_event ≡ some false
      → m.heartbeat ≡ some (some running)
      → redis.get s (full_key prefix m.key) ≡ some token
      → (lost m ≡ false)
        × (redis.get (exit redis prefix s m).0 (full_key prefix m.key) ≡ none)
        × (lost (exit redis prefix s m).1 ≡ true)
  unfolding exit release_token lost lost_by heartbeat_task_finished is_running cancel
  exit-lost s m token t e h held = (
    ap (λ x. lost_by x m.heartbeat) e ∙ ap (lost_by (some false)) h,
    ap (λ x. redis.get (release_token redis prefix s m x) (full_key prefix m.key)) t
        ∙ release-own s m.key token held,
    ap (λ x. lost_by x (cancel m.heartbeat)) e ∙ ap (λ x. lost_by (some false) (cancel x)) h,
  )
