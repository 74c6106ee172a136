-- ===== src/Validators/Structure/Graph.antt =====
-- The tree as a graph: its edges, what is reached from the root, and what its absence of cycles is.
use mathlib.Core.WellFounded.{Acc}
use hmta_service.Prelude.{String, some, true, ◌≡◌, elem}
use hmta_service.Prelude.Dict.{Dict, lookup, has}
use hmta_service.Validators.{BtNode}

-- `c` is a child of `v`, and both are nodes of the tree.
pub record Child (nodes : Dict BtNode) (c v : String) : Type 0 where
  pub node : BtNode
  pub found : lookup v nodes ≡ some node
  pub listed : elem c node.children ≡ true
  pub resolved : has c nodes ≡ true

pub data Reach (nodes : Dict BtNode) (root : String) : String → Type 0 where
  here : Reach nodes root root
  step : {v c : String} → Reach nodes root v → Child nodes c v → Reach nodes root c

-- Every way down from `v` ends.
abbrev pub Ends : Dict BtNode → String → Type 0
Ends nodes v = Acc (Child nodes) v
