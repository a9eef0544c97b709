-- ===== src/Auth/FlowLaws.antt =====
-- The life of a browser login.
use mediavida.Base.{ℕ, ◌+◌, ◌≤◌, ◌≡◌, Text, none, some, arith, if◌then◌else◌, same, leb}
use mediavida.Base.Keys.{text_key}
use mediavida.Base.Maps.{Map, lookup-insert, lookup-erase}
use mediavida.Auth.Flows.{AuthFlow, flow_life, has_expired, create_auth_flow, get_auth_flow}

-- A flow that was created at `now` answers with its client up to 30 minutes later, and with nothing
-- after that; creating it changes the answer for no other ID.
pub get_auth_flow-create_auth_flow :
    (id client j : Text) (now later : ℕ) (flows : Map Text AuthFlow)
    → now ≤ later
    → (get_auth_flow j later (create_auth_flow id client now flows)).0 ≡ (
        if same id j
        then (if leb later (now + flow_life) then some client else none)
        else (get_auth_flow j later flows).0)
unfolding get_auth_flow create_auth_flow has_expired
get_auth_flow-create_auth_flow id client j now later flows le =
    ground (arith, lookup-insert id j (record { client_id = client; created_at = now }) flows)

-- An expired flow is gone once it has been asked for, and stays gone.
pub get_auth_flow-expired :
    (id : Text) (now later : ℕ) (flows : Map Text AuthFlow)
    → (get_auth_flow id now flows).0 ≡ none
    → (get_auth_flow id later (get_auth_flow id now flows).1).0 ≡ none
unfolding get_auth_flow
get_auth_flow-expired id now later flows h = ground (arith, lookup-erase id id flows)
