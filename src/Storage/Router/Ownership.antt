-- ===== src/Storage/Router/Ownership.antt =====
-- Who owns a session after its event is routed.
use pyclaw.Prelude.{
  ℕ, Text, ◌≡◌, ◌≢◌, refl, ap, ◌∙◌, Bool, true, false, Option, none, some, arith, if_elim,
  text_eq_iff,
}
use pyclaw.Storage.Redis.{Commands, IsRedis}
use pyclaw.Storage.Lock.{owns}
use pyclaw.Storage.Router.{
  Worker, affinity_key, Route, local, forwarded, resolve, claim, renew, force_claim, is_mine,
  deliver, deliver_unless_mine, route_unowned, route_owner, route,
}

module _ {S : Type 0} (redis : Commands S) (laws : IsRedis redis) (w : Worker) where
  -- What a route says of the server before and after it: an event that is handled here belongs to this worker, and
  -- one that is handed on belongs, as before, to another worker, which it was delivered to.
  abbrev pub IsRouted : (forward : Text → Bool) → S → Text → Route × S → Type 0
  IsRouted forward s session_key (local, after) =
      resolve redis w after session_key ≡ some w.worker_id
  IsRouted forward s session_key (forwarded, after) =
      (owner : Text) × (resolve redis w s session_key ≡ some owner)
      × (resolve redis w after session_key ≡ some owner)
      × (owner ≢ w.worker_id)
      × (forward owner ≡ true)

  not_mine : (owner : Text) → is_mine redis w (some owner) ≡ false → owner ≢ w.worker_id
  unfolding is_mine owns
  not_mine owner h q = ground (arith, h, (text_eq_iff owner w.worker_id).1 q)

  deliver-IsRouted :
      (forward : Text → Bool) (s : S) (session_key owner : Text)
      → resolve redis w s session_key ≡ some owner
      → owner ≢ w.worker_id
      → IsRouted forward s session_key (deliver redis w forward s session_key owner)
  unfolding deliver force_claim resolve
  deliver-IsRouted forward s session_key owner q other =
      if_elim (IsRouted forward s session_key) (forward owner) (λ done. (owner, q, q, other, done))
        (λ _. laws.get-set s (affinity_key w session_key) w.worker_id w.ttl_seconds)

  route_owner-IsRouted :
      (forward : Text → Bool) (s : S) (session_key : Text) (owner : Option Text)
      → resolve redis w s session_key ≡ owner
      → IsRouted forward s session_key (route_owner redis w (λ i s. s) forward s session_key owner)
  unfolding route_owner route_unowned claim renew
  route_owner-IsRouted forward s session_key none q =
      let (own, set) =
        laws.set_nx-absent s (affinity_key w session_key) w.worker_id w.ttl_seconds
          (unfold resolve in q) in
      rw set (unfold resolve in own)
  route_owner-IsRouted forward s session_key (some owner) q =
      if_elim (IsRouted forward s session_key) (is_mine redis w (some owner))
        (λ mine.
          unfold resolve in
          (laws.get-expire s (affinity_key w session_key) (affinity_key w session_key) w.ttl_seconds
            ∙ q
            ∙ ap some ((text_eq_iff owner w.worker_id).0 (unfold is_mine in unfold owns in mine))))
        (λ f. deliver-IsRouted forward s session_key owner q (not_mine owner f))

  -- While no other worker interferes and no key expires: an event that `route` keeps leaves this worker the owner
  -- of its session, and one that it hands on was delivered to another worker, which owned the session and owns it
  -- still.
  pub route-IsRouted :
      (forward : Text → Bool) (s : S) (session_key : Text)
      → IsRouted forward s session_key (route redis w (λ i s. s) forward s session_key)
  unfolding route
  route-IsRouted forward s session_key =
      route_owner-IsRouted forward s session_key (resolve redis w s session_key) refl

  -- Whatever other workers do in between: `route` hands an event on only to another worker, and only if it was
  -- delivered there.
  abbrev pub IsDelivered : (forward : Text → Bool) → Route × S → Type 0
  IsDelivered forward (local, after) = Unit
  IsDelivered forward (forwarded, after) =
      (owner : Text) × (owner ≢ w.worker_id) × (forward owner ≡ true)

  deliver-IsDelivered :
      (forward : Text → Bool) (s : S) (session_key owner : Text)
      → owner ≢ w.worker_id
      → IsDelivered forward (deliver redis w forward s session_key owner)
  unfolding deliver
  deliver-IsDelivered forward s session_key owner other =
      if_elim (IsDelivered forward) (forward owner) (λ done. (owner, other, done)) (λ _. tt)

  unless_mine-IsDelivered :
      (forward : Text → Bool) (s : S) (session_key : Text) (owner : Option Text)
      → IsDelivered forward (deliver_unless_mine redis w forward s session_key owner)
  unfolding deliver_unless_mine
  unless_mine-IsDelivered forward s session_key none = tt
  unless_mine-IsDelivered forward s session_key (some owner) =
      if_elim (IsDelivered forward) (is_mine redis w (some owner)) (λ _. tt)
        (λ f. deliver-IsDelivered forward s session_key owner (not_mine owner f))

  route_owner-IsDelivered :
      (meanwhile : ℕ → S → S) (forward : Text → Bool) (s : S) (session_key : Text)
      (owner : Option Text)
      → IsDelivered forward (route_owner redis w meanwhile forward s session_key owner)
  unfolding route_owner route_unowned
  route_owner-IsDelivered meanwhile forward s session_key none =
      let (after, claimed) = claim redis w (meanwhile 0 s) session_key in
      if_elim (IsDelivered forward) claimed (λ _. tt)
        (λ _. unless_mine-IsDelivered forward (meanwhile 1 after) session_key _)
  route_owner-IsDelivered meanwhile forward s session_key (some owner) =
      if_elim (IsDelivered forward) (is_mine redis w (some owner)) (λ _. tt)
        (λ f. deliver-IsDelivered forward (meanwhile 0 s) session_key owner (not_mine owner f))

  -- Whatever other workers and expiry do to the server between the router's calls, `route` hands an event on only
  -- to a worker other than this one, and only if it was delivered there.
  pub route-IsDelivered :
      (meanwhile : ℕ → S → S) (forward : Text → Bool) (s : S) (session_key : Text)
      → IsDelivered forward (route redis w meanwhile forward s session_key)
  unfolding route
  route-IsDelivered meanwhile forward s session_key =
      route_owner-IsDelivered meanwhile forward s session_key (resolve redis w s session_key)
