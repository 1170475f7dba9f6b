-- ===== src/Tiers.antt =====
-- The permission tier of a turn: src/pyclaw/auth/tier_resolution.py and src/pyclaw/core/commands/tier_store.py. The server and
-- `str.lower` are arguments.
pub mod Stored
mod Examples
use mathlib.Core.Option
use pyclaw.Prelude.{
  ℕ, Text, codes, Bool, true, false, ◌||◌, Option, none, some, List, [], ◌∷◌, ◌++◌, any,
  if◌then◌else◌, text_eq,
}
use pyclaw.Messages.{strip}
use pyclaw.Tools.Types.{Tier, read_only, approval, yolo}
use pyclaw.Storage.Redis.{Commands}

-- The first of the four that is given.
unfoldable pub resolve_effective_tier :
    (message_tier session_tier user_default : Option Tier) → (deployment_default : Tier) → Tier
resolve_effective_tier (some t) session_tier user_default deployment_default = t
resolve_effective_tier none (some t) user_default deployment_default = t
resolve_effective_tier none none (some t) deployment_default = t
resolve_effective_tier none none none deployment_default = deployment_default

unfoldable pub tier_text : Tier → Text
tier_text read_only = codes "read-only"
tier_text approval = codes "approval"
tier_text yolo = codes "yolo"

-- value in _VALID_TIERS
unfoldable pub valid_tier : Text → Option Tier
valid_tier t =
    if text_eq t (codes "read-only")
    then some read_only
    else if text_eq t (codes "approval")
    then some approval
    else if text_eq t (codes "yolo")
    then some yolo
    else none

unfoldable pub tier_or_none : Option Text → Option Tier
unfolding valid_tier
tier_or_none none = none
tier_or_none (some value) = valid_tier value

unfoldable pub redis_key : Text → Text
redis_key session_key = codes "pyclaw:feishu:tier:" ++ session_key

-- `fails` says whether there is no server or its command raises.
module _ {S : Type 0} (redis : Commands S) (fails : Bool) where
  unfoldable pub get_session_tier : S → (session_key : Text) → Option Tier
  unfolding tier_or_none redis_key
  get_session_tier s [] = none
  get_session_tier s (c ∷ k) =
      if fails then none else tier_or_none (redis.get s (redis_key (c ∷ k)))

  unfoldable pub set_session_tier : (ttl_seconds : ℕ) → S → (session_key tier : Text) → S × Bool
  unfolding valid_tier redis_key
  set_session_tier ttl_seconds s [] tier = (s, false)
  set_session_tier ttl_seconds s (c ∷ k) tier = elim (valid_tier tier) [
    | none ↦ (s, false)
    | some t ↦
        if fails then (s, false) else (redis.set s (redis_key (c ∷ k)) tier ttl_seconds, true)
  ]

-- s in (...)
unfoldable pub is_one_of : Text → List Text → Bool
is_one_of t ts = any (text_eq t) ts

unfoldable pub alias : Text → Option Tier
unfolding is_one_of
alias s =
    if is_one_of s
      (codes "read-only" ∷ codes "readonly" ∷ codes "ro" ∷ codes "read_only" ∷ codes "r" ∷ [])
    then some read_only
    else if is_one_of s (codes "approval" ∷ codes "ap" ∷ codes "a" ∷ [])
    then some approval
    else if is_one_of s (codes "yolo" ∷ codes "y" ∷ [])
    then some yolo
    else none

unfoldable pub parse_tier_arg : (lower : Text → Text) → Text → Option Tier
unfolding alias
parse_tier_arg lower arg = alias (lower (strip arg))
