-- ===== src/Tiers/Examples.antt =====
-- A tier in a server that keeps its keys in memory.
use pyclaw.Prelude.{
  ℕ, Text, codes, Bool, true, false, Option, none, some, List, [], ◌∷◌, ◌≡◌, ◌≢◌, refl,
}
use pyclaw.Tools.Types.{Tier, read_only, yolo}
use pyclaw.Storage.Redis.Memory.{memory, memory-IsRedis}
use pyclaw.Tiers.{
  resolve_effective_tier, tier_text, get_session_tier, set_session_tier, parse_tier_arg,
}
use pyclaw.Tiers.Stored.{set_session_tier-resolves}

parsed : parse_tier_arg (λ t. t) (codes " ro ") ≡ some read_only
unfolding parse_tier_arg pyclaw.Prelude.text_eq pyclaw.Messages.strip
parsed = refl

set_session_tier-resolves_example :
    ((set_session_tier memory false 60 [] (codes "k") (tier_text yolo)).1 ≡ true)
    × ((user_default : Option Tier) (deployment_default : Tier)
        → resolve_effective_tier none
            (get_session_tier memory false
              (set_session_tier memory false 60 [] (codes "k") (tier_text yolo)).0
              (codes "k"))
            user_default
            deployment_default
          ≡ yolo)
    × ((d : ℕ) (j : Text)
        → d ∷ j ≢ codes "k"
        → get_session_tier memory false
            (set_session_tier memory false 60 [] (codes "k") (tier_text yolo)).0
            (d ∷ j)
          ≡ get_session_tier memory false [] (d ∷ j))
set_session_tier-resolves_example =
    set_session_tier-resolves memory memory-IsRedis 60 [] 107 [] yolo
