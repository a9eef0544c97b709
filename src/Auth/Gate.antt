-- ===== src/Auth/Gate.antt =====
-- auth.go: APITokenMiddleware; alias.go and watch.go: Owner; api.go: requireAuthenticated.
use mediavida.Base.{Bool, Text, codes, Option, none, some, [], if◌then◌else◌}
use mediavida.Base.Strings.{cut_prefix}
use mediavida.Store.{Reply, ok, failed, Db}
use mediavida.Store.Tokens.{get_app_alias_owner, get_watch_token_owner}
use mediavida.Scraper.{ForumScraper, Packages}
use mediavida.Sessions.{Session, is_authenticated, Server, Call}
use mediavida.Sessions.Restore.{lookup_session}

-- Owner of both stores: an error is logged and reads as a missing token.
unfoldable pub found_owner : Reply (Option Text) → Option Text
found_owner (ok o) = o
found_owner failed = none

-- What the environment gives to one request at the gate: the look-up of the token's own session,
-- whether SQLite answers the reads of the two alias tables, and the look-up of the owner's session.
pub record GateEnv : Type 0 where
  pub own : Call
  pub alias_up : Bool
  pub watch_up : Bool
  pub owner : Call

-- The request goes on as a client, or ends in a 401 or a 503.
pub data Verdict : Type 0 where
  pass : Text → Verdict
  unauthorized unavailable : Verdict

abbrev or_empty : Option Text → Text
or_empty none = []
or_empty (some t) = t

unfoldable pub owner_of : GateEnv → Text → Db → Option Text
owner_of env token db = elim (found_owner (get_app_alias_owner env.alias_up token db)) [
  | some o ↦ some o
  | none ↦ found_owner (get_watch_token_owner env.watch_up token db)
]

module _ (std : Packages) (env : GateEnv) where
  of_owner : Option Text → Reply (Option Session) × Server → Verdict × Server
  of_owner o (failed, sv) = (unavailable, sv)
  of_owner o (ok none, sv) = (unauthorized, sv)
  of_owner none (ok (some s), sv) = (unauthorized, sv)
  of_owner (some owner) (ok (some s), sv) = (pass owner, sv)

  of_token : Text → Reply (Option Session) × Server → Verdict × Server
  of_token token (failed, sv) = (unavailable, sv)
  of_token token (ok (some s), sv) = (pass token, sv)
  of_token token (ok none, sv) =
      let o = owner_of env token sv.db in of_owner o (lookup_session std env.owner (or_empty o) sv)

  unfoldable pub authorize : (Text → Bool) → Text → Server → Verdict × Server
  unfolding of_token of_owner
  authorize valid header sv = elim (cut_prefix (codes "Bearer ") header) [
    | none ↦ (unauthorized, sv)
    | some token ↦
        if valid token
        then (pass token, sv)
        else of_token token (lookup_session std env.own token sv)
  ]

-- requireAuthenticated: the scraper, or a 401 or a 503.
pub data Required : Type 0 where
  scraper : ForumScraper → Required
  status_401 status_503 : Required

unfoldable pub required : Reply (Option Session) × Server → Required × Server
required (failed, sv) = (status_503, sv)
required (ok none, sv) = (status_401, sv)
required (ok (some s), sv) =
    (if is_authenticated s.status then scraper s.scraper else status_401, sv)

unfoldable pub require_authenticated : Packages → Call → Text → Server → Required × Server
unfolding required
require_authenticated std c client_id sv = required (lookup_session std c client_id sv)
