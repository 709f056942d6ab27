-- ===== src/Registry/Order.antt =====
-- List and Count: each registered name once.
use mcp_module.Common.{[], ◌∷◌, Dict, keys, length, Perm, ◌≡◌, refl, ap, sym}
use mcp_module.Common.{suc}
use mcp_module.Json.{Runtime}
use mcp_module.Range.{VisitsAll}
use mcp_module.Registry.{Registry, list, count}

length-keys {ℓ} : {V : Type ℓ} (m : Dict V) → length (keys m) ≡ length m
unfolding keys
length-keys [] = refl
length-keys (e ∷ m) = ap suc (length-keys m)

-- List returns the registered names, each once, and Count their number.
pub list-perm :
    {W : Type 0} (go : Runtime) (r : Registry W)
    → VisitsAll go
    → Perm (list go r) (keys r) × (count r ≡ length (keys r))
unfolding list count
list-perm go r visits = (visits (keys r), sym (length-keys r))
