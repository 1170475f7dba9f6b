-- ===== src/Runner/Gate/Tiers.antt =====
-- The effective tier of a call.
use Prim.Native.Nat.{max}
use pyclaw.Prelude.{ℕ, ◌≤◌, ◌≡◌, Option, none, some, arith}
use pyclaw.Tools.Types.{Tier, Call}
use pyclaw.Tools.Registry
use pyclaw.Tools.Registry.{Registry}
use pyclaw.Runner.Gate.{TierSource, rank, forced_tier, evaluate_call}

-- How strict a server's configuration is about a tool; 0 if it says nothing.
abbrev pub forced_rank : Option Tier → ℕ
forced_rank none = 0
forced_rank (some tier) = rank tier

module _ (tools : Registry) (tier : Tier) (source : TierSource) (call : Call) where
  -- The effective tier of a call is the stricter of the turn's tier and the tier that the server of
  -- the tool forces: a server can make the turn's tier stricter and never laxer.
  pub rank-evaluate_call :
      rank (evaluate_call tools tier source call).call_tier
      ≡ max (rank tier) (forced_rank (forced_tier (Registry.get tools call.name)))
  unfolding evaluate_call
  rank-evaluate_call = ground arith

  pub call-evaluate_call : (evaluate_call tools tier source call).call ≡ call
  unfolding evaluate_call
  call-evaluate_call = ground arith

  -- The turn's tier stays unless the server's is strictly stricter.
  pub unforced-evaluate_call :
      forced_rank (forced_tier (Registry.get tools call.name)) ≤ rank tier
      → ((evaluate_call tools tier source call).call_tier ≡ tier)
        × ((evaluate_call tools tier source call).source ≡ source)
  unfolding evaluate_call
  unforced-evaluate_call h = ground arith
