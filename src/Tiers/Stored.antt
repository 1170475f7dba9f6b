-- ===== src/Tiers/Stored.antt =====
-- A tier that is stored for a session.
use mathlib.Core.List.{append_cancel_left}
use pyclaw.Prelude.{
  ℕ, Text, codes, true, false, Option, none, some, ◌∷◌, ◌≡◌, ◌≢◌, refl, sym, ap, ◌∙◌, text_eq,
}
use pyclaw.Tools.Types.{Tier, read_only, approval, yolo}
use pyclaw.Storage.Redis.{Commands, IsRedis}
use pyclaw.Tiers.{
  resolve_effective_tier, tier_text, valid_tier, tier_or_none, redis_key, get_session_tier,
  set_session_tier,
}

valid_tier-tier_text : (t : Tier) → valid_tier (tier_text t) ≡ some t
unfolding valid_tier tier_text text_eq
valid_tier-tier_text read_only = refl
valid_tier-tier_text approval = refl
valid_tier-tier_text yolo = refl

set_valid :
    {S : Type 0} (redis : Commands S) (ttl_seconds : ℕ) (s : S) (c : ℕ) (k : Text) (tier : Tier)
    → set_session_tier redis false ttl_seconds s (c ∷ k) (tier_text tier)
      ≡ (redis.set s (redis_key (c ∷ k)) (tier_text tier) ttl_seconds, true)
unfolding set_session_tier
set_valid redis ttl_seconds s c k tier = rw (set_session_tier, valid_tier-tier_text tier) refl

-- On a server that behaves as documented and does not fail: a tier that is set for a session is taken, is the tier of every
-- message of the session that has none of its own, and changes the tier of no other session.
pub set_session_tier-resolves :
    {S : Type 0} (redis : Commands S)
    → IsRedis redis
    → (ttl_seconds : ℕ) (s : S) (c : ℕ) (k : Text) (tier : Tier)
    → ((set_session_tier redis false ttl_seconds s (c ∷ k) (tier_text tier)).1 ≡ true)
      × ((user_default : Option Tier) (deployment_default : Tier)
          → resolve_effective_tier none
              (get_session_tier redis false
                (set_session_tier redis false ttl_seconds s (c ∷ k) (tier_text tier)).0
                (c ∷ k))
              user_default
              deployment_default
            ≡ tier)
      × ((d : ℕ) (j : Text)
          → d ∷ j ≢ c ∷ k
          → get_session_tier redis false
              (set_session_tier redis false ttl_seconds s (c ∷ k) (tier_text tier)).0
              (d ∷ j)
            ≡ get_session_tier redis false s (d ∷ j))
unfolding get_session_tier
set_session_tier-resolves redis laws ttl_seconds s c k tier =
    let key = redis_key (c ∷ k) in
    rw (set_valid redis ttl_seconds s c k tier) (
      refl,
      λ user_default deployment_default.
          ap (λ o. resolve_effective_tier none (tier_or_none o) user_default deployment_default)
            (laws.get-set s key (tier_text tier) ttl_seconds)
          ∙ ap (λ o. resolve_effective_tier none o user_default deployment_default)
              (unfold tier_or_none in valid_tier-tier_text tier)
          ∙ (unfold resolve_effective_tier in refl),
      λ d j other. ap tier_or_none (
          laws.get-set_ne s key (redis_key (d ∷ j)) (tier_text tier) ttl_seconds (λ q. other (
            sym (
              unfold redis_key in
              append_cancel_left (codes "pyclaw:feishu:tier:") (c ∷ k) (d ∷ j) q)))),
    )
