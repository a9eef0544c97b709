-- ===== src/Examples/AuthRuns.antt =====
-- The gate and the login handlers at concrete inputs.
use native.Mathlib.Decide.{ℕ_discrete}
use mediavida.Base.{
  ◌≡◌, refl, Bool, true, false, Text, codes, some, [], ◌∷◌, arith, not, ◌&&◌, is_empty, same,
}
use mediavida.Base.Keys.{text_key, text_discrete}
use mediavida.Base.Strings.{
  trim_space, trim_left, is_space, cut_prefix, equal_fold, to_lower, lower_byte,
}
use mediavida.Base.Maps.{lookup}
use mediavida.Scraper.Cookies.{matches_credentials}
use mediavida.Sessions.{Server, Call, in_memory}
use mediavida.Sessions.Restore.{lookup_session}
use mediavida.Sessions.Canonical.{canonical_for_user, serves, better}
use mediavida.Auth.Gate.{GateEnv, pass, authorize}
use mediavida.Auth.GateLaws.{bearer, StandsFor, authorize-pass}
use mediavida.Auth.Flows.{get_auth_flow}
use mediavida.Auth.Handlers.{LoginEnv, AppLogin, AliasEnv, app_login, authenticated_as}
use mediavida.Auth.HandlerLaws.{HasCanonical, app_login-pass}
use mediavida.Auth.Browser.{browser_guard, IsAuthenticated, browser_guard-IsAuthenticated}
use mediavida.Base.{none}
use mediavida.Base.Maps.{Map}
use mediavida.Auth.Flows.{has_expired, AuthFlow}
use mediavida.Sessions.{guard_needed}
use mediavida.Sessions.Restore.{get_of}
use mediavida.Scraper.Login.{submit_guard, verified, has_session}
use mediavida.Examples.{sid, packages, device, one_session, live, warm, call, offline}

abbrev env : GateEnv
env = record { own = call; alias_up = true; watch_up = true; owner = call }

abbrev no_tokens : Text → Bool
no_tokens t = false

authorize-pass_example :
    (token : Text) × (bearer device ≡ bearer token)
    × StandsFor packages env no_tokens token device warm
        (authorize packages env no_tokens (bearer device) warm).1
unfolding authorize cut_prefix lookup_session in_memory lookup text_discrete ℕ_discrete
authorize-pass_example = authorize-pass packages env no_tokens (bearer device) device warm refl

abbrev locked : Call
locked = record call { read_up = false }

abbrev busy_store : GateEnv
busy_store = record env { own = locked }

abbrev phone : Text
phone = codes "phone"

-- The phone is an alias of the device's session.
abbrev aliased : Server
aliased = record warm {
  db = record one_session {
    app_aliases = record { token = phone; owner = device; created_at = 3 } ∷ [];
  };
}

abbrev alias_locked : GateEnv
alias_locked = record env { alias_up = false }

abbrev logins : LoginEnv
logins = record { create = call; get = call; guard = offline.guard_net; save_up = true; now = 100 }

abbrev aliases : AliasEnv
aliases = record { canonical = call; drop_up = true; alias_up = true }

-- The token as it is sent, and the app key.
abbrev sent : Text
sent = codes " phone "

abbrev key : Text
key = codes "k"

abbrev asks : Text → AppLogin
asks token = record { token = token; user = codes "Ana"; pass = codes "pw"; totp = [] }

trimmed : trim_space (asks sent).token ≡ phone
unfolding trim_space trim_left is_space
trimmed = refl

phone-HasCanonical : HasCanonical no_tokens (asks sent) device warm
unfolding trim_space trim_left in_memory lookup canonical_for_user serves equal_fold to_lower
    lower_byte matches_credentials text_discrete ℕ_discrete better
phone-HasCanonical = record {
  has_token = ground (arith, trimmed);
  has_user = ground arith;
  has_pass = ground arith;
  owner_session = live;
  live = refl;
  canonical = refl;
  matching = refl;
}

key_given : (not (is_empty key) && not (same key key)) ≡ false
unfolding text_discrete ℕ_discrete
key_given = refl

unset_token : no_tokens (trim_space (asks sent).token) ≡ false
unset_token = refl

app_login-pass_example :
    ((app_login packages logins aliases no_tokens key key (some (asks sent)) warm).0
      ≡ authenticated_as (codes "Ana"))
    × (authorize packages env no_tokens
          (bearer (trim_space sent))
          (app_login packages logins aliases no_tokens key key (some (asks sent)) warm).1
        ≡ (
          pass device,
          (app_login packages logins aliases no_tokens key key (some (asks sent)) warm).1,
        ))
app_login-pass_example =
    app_login-pass packages logins aliases no_tokens key key (asks sent) device warm
      phone-HasCanonical key_given env refl refl refl refl refl unset_token
      (ground (arith, trimmed))

abbrev open_flows : Map Text AuthFlow
open_flows = (codes "f", record { client_id = device; created_at = 50 }) ∷ []

-- Mediavida accepts the code.
abbrev accepting : LoginEnv
accepting = record logins { guard = record { post = true; home = true; cookies = sid ∷ [] } }

abbrev waiting : Server
waiting = record warm { sessions = (device, some (record live { status = guard_needed })) ∷ [] }

browser_guard-IsAuthenticated_example :
    ((get_auth_flow
        (codes "f")
        200
        (browser_guard packages accepting (codes "f") open_flows waiting).1).0
      ≡ none)
    × IsAuthenticated (
        in_memory device
          (browser_guard packages accepting (codes "f") open_flows waiting).2.sessions)
unfolding browser_guard get_auth_flow has_expired lookup_session in_memory lookup get_of
    submit_guard verified has_session text_discrete ℕ_discrete
browser_guard-IsAuthenticated_example =
    browser_guard-IsAuthenticated packages accepting (codes "f") device open_flows waiting 200 refl
      refl
