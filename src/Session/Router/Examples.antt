-- ===== src/Session/Router/Examples.antt =====
-- The sessions of one key, in a store that is empty at first.
use pyclaw.Prelude.{Text, codes, ◌≡◌, Option, [], text_key, arith}
use pyclaw.Prelude.Dict
use pyclaw.Session.Store.{Store, load}
use pyclaw.Session.Store.Mirror.{IsSound}
use pyclaw.Session.Router.{Draw, Resolved, resolve_or_create, rotate}
use pyclaw.Session.Router.Current.{IsCurrent, resolve_or_create-IsCurrent}

abbrev empty : Store
empty = record { trees = []; current = []; history = [] }

empty-IsSound : IsSound empty
unfolding load Dict.get
empty-IsSound id tree h = absurd (ground (arith, h))

abbrev first_draw : Draw
first_draw = record {
  suffix = codes "1f";
  created_at = codes "2025";
  now = 7;
  workspace_id = codes "w";
  agent_id = codes "default";
}

abbrev second_draw : Draw
second_draw = record first_draw { suffix = codes "2a"; now = 8 }

resolve_or_create-IsCurrent_example :
    IsCurrent (codes "k") (resolve_or_create first_draw empty (codes "k"))
    × (resolve_or_create second_draw
          (resolve_or_create first_draw empty (codes "k")).store
          (codes "k")
        ≡ resolve_or_create first_draw empty (codes "k"))
resolve_or_create-IsCurrent_example =
    resolve_or_create-IsCurrent first_draw second_draw empty (codes "k") empty-IsSound

abbrev rotated : Resolved × Option Text
rotated = rotate first_draw empty (codes "k")
