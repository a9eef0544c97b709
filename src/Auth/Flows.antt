-- ===== src/Auth/Flows.antt =====
-- auth.go: the registry of browser logins. Times are in seconds.
use mediavida.Base.{ℕ, ◌-◌, ◌*◌, Bool, Text, Option, none, some, [], ◌∷◌, if◌then◌else◌, ltb}
use mediavida.Base.Keys.{text_key}
use mediavida.Base.Maps.{Map, lookup, insert, erase}

pub record AuthFlow : Type 0 where
  pub client_id : Text
  pub created_at : ℕ

abbrev pub flow_life : ℕ
flow_life = 30 * 60

-- now.Sub(flow.CreatedAt) > 30*time.Minute
unfoldable pub has_expired : ℕ → AuthFlow → Bool
has_expired now f = ltb flow_life (now - f.created_at)

-- The ID is what generateFlowID has drawn.
unfoldable pub create_auth_flow : Text → Text → ℕ → Map Text AuthFlow → Map Text AuthFlow
create_auth_flow id client_id now flows =
    insert id (record { client_id = client_id; created_at = now }) flows

unfoldable pub get_auth_flow : Text → ℕ → Map Text AuthFlow → Option Text × Map Text AuthFlow
get_auth_flow id now flows = elim (lookup id flows) [
  | none ↦ (none, flows)
  | some f ↦ if has_expired now f then (none, erase id flows) else (some f.client_id, flows)
]

unfoldable pub delete_auth_flow : Text → Map Text AuthFlow → Map Text AuthFlow
delete_auth_flow = erase

-- One round of the sweeper.
unfoldable pub sweep : ℕ → Map Text AuthFlow → Map Text AuthFlow
sweep now [] = []
sweep now ((id, f) ∷ flows) =
    let rest = sweep now flows in if has_expired now f then rest else (id, f) ∷ rest
