-- ===== src/Auth/HandlerLaws.antt =====
-- What the login handlers leave behind, as the gate sees it.
use mathlib.Core.Path.{subst}
use mediavida.Base.{
  ℕ, ◌≡◌, ◌≢◌, refl, sym, Bool, true, false, Text, none, some, [], arith, if◌then◌else◌, same, inl,
  not, ◌&&◌, is_empty,
}
use mediavida.Base.Keys.{text_key}
use mediavida.Base.Strings.{trim_space}
use mediavida.Base.Maps.{lookup, lookup-insert_self, lookup-erase}
use mediavida.Store.{ok}
use mediavida.Store.Sessions.{get_session, delete_session}
use mediavida.Store.Tokens.{get_app_alias_owner}
use mediavida.Store.Laws.{get_session-delete_session, get_app_alias_owner-add_app_alias}
use mediavida.Scraper.{Packages}
use mediavida.Scraper.Cookies.{matches_credentials}
use mediavida.Sessions.{Session, Server, Call, in_memory, set_session}
use mediavida.Sessions.Restore.{get_of}
use mediavida.Sessions.RestoreLaws.{lookup_session-hit, lookup_session-down, db-set_session}
use mediavida.Sessions.ReconcileLaws.{get_session-add_app_alias, get_app_alias_owner-delete_session}
use mediavida.Sessions.Credentials.{drop_session}
use mediavida.Sessions.Canonical.{canonical_for_user}
use mediavida.Auth.Gate.{GateEnv, pass, unauthorized, authorize}
use mediavida.Auth.GateLaws.{bearer, authorize-alias, authorize_self}
use mediavida.Auth.Handlers.{
  LoginEnv, AppLogin, AliasEnv, alias_onto, app_login, authenticated_as, LoginReply, logout,
}

module _ (env : AliasEnv) (now : ℕ) (token owner a : Text) (sv : Server) where
  in_memory-alias_onto :
      in_memory a (alias_onto env now token owner sv).sessions
      ≡ (if same token a then none else in_memory a sv.sessions)
  unfolding in_memory alias_onto drop_session
  in_memory-alias_onto = ground (arith, lookup-erase token a sv.sessions)

  get_session-alias_onto :
      env.drop_up ≡ true
      → get_session true a (alias_onto env now token owner sv).db
        ≡ (if same token a then ok none else get_session true a sv.db)
  unfolding alias_onto drop_session
  get_session-alias_onto up = ground (
    arith,
    get_session-add_app_alias env.alias_up token owner now a
        (delete_session env.drop_up token sv.db).1,
    get_session-delete_session token a sv.db,
  )

  get_app_alias_owner-alias_onto :
      env.alias_up ≡ true
      → get_app_alias_owner true a (alias_onto env now token owner sv).db
        ≡ (if same token a then ok (some owner) else get_app_alias_owner true a sv.db)
  unfolding alias_onto drop_session
  get_app_alias_owner-alias_onto up = ground (
    arith,
    get_app_alias_owner-add_app_alias token owner now a (delete_session env.drop_up token sv.db).1,
    get_app_alias_owner-delete_session env.drop_up token a sv.db,
  )

-- A request of app-login with all of its fields, for an account whose canonical session is in
-- memory and was made with the same credentials.
pub record HasCanonical (valid : Text → Bool) (req : AppLogin) (owner : Text) (sv : Server)
    : Type 0 where
  pub has_token : trim_space req.token ≢ []
  pub has_user : req.user ≢ []
  pub has_pass : req.pass ≢ []
  pub owner_session : Session
  pub live : in_memory owner sv.sessions ≡ some owner_session
  pub canonical : canonical_for_user req.user (some valid) sv.sessions ≡ some owner
  pub matching : matches_credentials req.user req.pass owner_session.scraper ≡ true

module _ (std : Packages) (env : LoginEnv) (aliases : AliasEnv) (valid : Text → Bool)
    (app_key given : Text) (req : AppLogin) (owner : Text) (sv : Server)
    (h : HasCanonical valid req owner sv)
    (keyed : (not (is_empty app_key) && not (same given app_key)) ≡ false) where
  abbrev token : Text
  token = trim_space req.token

  app_login-alias_onto :
      app_login std env aliases valid app_key given (some req) sv
      ≡ (authenticated_as req.user, alias_onto aliases env.now token owner sv)
  unfolding app_login get_of
  app_login-alias_onto = ground (
    arith,
    keyed,
    h.has_token,
    h.has_user,
    h.has_pass,
    h.canonical,
    h.matching,
    lookup_session-hit std aliases.canonical owner sv h.owner_session h.live,
  )

  module _ (gate : GateEnv) (drop_up : aliases.drop_up ≡ true) (alias_up : aliases.alias_up ≡ true)
      (own_up : gate.own.read_up ≡ true) (read_up : gate.alias_up ≡ true)
      (owner_up : gate.owner.read_up ≡ true) (plain : valid token ≡ false) where
    abbrev behind : Server
    behind = (app_login std env aliases valid app_key given (some req) sv).1

    -- A device that logs in, with no field empty, to an account whose canonical session is in memory
    -- and that of another client, with the credentials of that session, is told that it is authenticated, and its token, which is
    -- the one it sent without the white space around it, passes the gate as the owner, when SQLite
    -- answers, the app key, where one is configured, is the one given, and the token is not a
    -- configured one.
    pub app_login-pass :
        owner ≢ token
        → ((app_login std env aliases valid app_key given (some req) sv).0
            ≡ authenticated_as req.user)
          × (authorize std gate valid (bearer token) behind ≡ (pass owner, behind))
    app_login-pass other =
        subst
          (λ (x : LoginReply × Server).
            (x.0 ≡ authenticated_as req.user)
            × (authorize std gate valid (bearer token) x.1 ≡ (pass owner, x.1)))
          (sym app_login-alias_onto)
          (
            refl,
            authorize-alias std gate valid token owner (alias_onto aliases env.now token owner sv)
                h.owner_session plain
                (ground (arith, in_memory-alias_onto aliases env.now token owner token sv))
                (rw own_up (
                  ground
                    (arith, get_session-alias_onto aliases env.now token owner token sv drop_up)))
                (inl (
                  rw read_up (
                    ground (
                      arith,
                      get_app_alias_owner-alias_onto aliases env.now token owner token sv alias_up,
                    ))))
                (ground (arith, h.live, in_memory-alias_onto aliases env.now token owner owner sv)),
          )

    -- A device that logs in again while its own session is the canonical one, with the credentials
    -- of that session, is told that it is authenticated, and its next request ends in a 401, when
    -- SQLite answers and its token is not a configured one.
    pub app_login_self :
        owner ≡ token
        → ((app_login std env aliases valid app_key given (some req) sv).0
            ≡ authenticated_as req.user)
          × (authorize std gate valid (bearer token) behind ≡ (unauthorized, behind))
    app_login_self own =
        subst
          (λ (x : LoginReply × Server).
            (x.0 ≡ authenticated_as req.user)
            × (authorize std gate valid (bearer token) x.1 ≡ (unauthorized, x.1)))
          (sym app_login-alias_onto)
          (
            refl,
            authorize_self std gate valid token (alias_onto aliases env.now token owner sv) plain
                (ground (arith, in_memory-alias_onto aliases env.now token owner token sv))
                (rw own_up (
                  ground
                    (arith, get_session-alias_onto aliases env.now token owner token sv drop_up)))
                (rw owner_up (
                  ground
                    (arith, get_session-alias_onto aliases env.now token owner token sv drop_up)))
                (rw read_up (
                  ground (
                    arith,
                    own,
                    get_app_alias_owner-alias_onto aliases env.now token owner token sv alias_up,
                  ))),
          )

-- A logout leaves an entry with a nil pointer in the map, whatever SQLite answers.
pub lookup-logout :
    (std : Packages) (c : Call) (up : Bool) (id : Text) (sv : Server)
    → lookup id (logout std c up id sv).sessions ≡ some none
unfolding logout get_of set_session
lookup-logout std c up id sv = grind (arith, lookup-insert_self)

-- A logout while SQLite does not answer the read of a session that is not in memory leaves the
-- durable session of the client as it was, although it answers "logged out".
pub get_session-logout :
    (std : Packages) (c : Call) (up : Bool) (id : Text) (sv : Server)
    → in_memory id sv.sessions ≡ none
    → c.read_up ≡ false
    → get_session true id (logout std c up id sv).db ≡ get_session true id sv.db
unfolding logout get_of
get_session-logout std c up id sv miss down =
    ground (arith, lookup_session-down std c id sv miss down, db-set_session id none sv)
