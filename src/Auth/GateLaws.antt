-- ===== src/Auth/GateLaws.antt =====
-- Who passes the gate, and what a store that does not answer costs.
use mediavida.Base.{
  ◌≡◌, refl, Bool, true, false, Text, codes, Option, none, some, [], ◌∷◌, ◌++◌, ◌⊎◌, arith, inl,
  inr, Option-cases,
}
use mediavida.Base.Strings.{cut_prefix}
use mediavida.Store.{ok}
use mediavida.Store.Sessions.{get_session}
use mediavida.Store.Tokens.{get_app_alias_owner, get_watch_token_owner}
use mediavida.Scraper.{Packages}
use mediavida.Sessions.{Session, Server, in_memory}
use mediavida.Sessions.RestoreLaws.{
  lookup_session-failed, lookup_session-in_memory, lookup_session-hit, lookup_session-miss,
}
use mediavida.Sessions.Restore.{lookup_session}
use mediavida.Auth.Gate.{GateEnv, pass, unauthorized, unavailable, authorize, owner_of, found_owner}

abbrev pub bearer : Text → Text
bearer token = codes "Bearer " ++ token

cut_prefix-bearer : (token : Text) → cut_prefix (codes "Bearer ") (bearer token) ≡ some token
unfolding cut_prefix
cut_prefix-bearer token = refl

append-cut_prefix : (p s t : Text) → cut_prefix p s ≡ some t → s ≡ p ++ t
unfolding cut_prefix
append-cut_prefix [] s t h = ground (arith, h)
append-cut_prefix (p ∷ ps) [] t h = ground (arith, h)
append-cut_prefix (p ∷ ps) (c ∷ s) t h = ground (arith, append-cut_prefix ps s t, h)

abbrev pub IsLive : Option Session → Type 0
IsLive none = ⊥
IsLive (some s) = Unit {0}

module _ (std : Packages) (env : GateEnv) (valid : Text → Bool) where
  -- A token stands for a client: it is a configured API token and the client's ID; or the client has
  -- a session in memory behind the gate, and the token is its ID, or an alias that the tables, behind
  -- the look-up of the token's own session, give to it.
  abbrev pub StandsFor : Text → Text → Server → Server → Type 0
  StandsFor token id sv behind =
      ((token ≡ id) × (valid id ≡ true))
      ⊎ (IsLive (in_memory id behind.sessions)
          × ((token ≡ id)
              ⊎ (owner_of env token (lookup_session std env.own token sv).1.db ≡ some id)))

  -- A request passes as a client only if its header is "Bearer " and a token that is the client's
  -- ID and a configured API token; or, when the client has a session in memory behind the gate, a
  -- token that is its ID, or that the tables of aliases give to it.
  pub authorize-pass :
      (header id : Text) (sv : Server)
      → (authorize std env valid header sv).0 ≡ pass id
      → (token : Text) × (header ≡ bearer token)
        × StandsFor token id sv (authorize std env valid header sv).1
  unfolding authorize
  authorize-pass header id sv h = elim (Option-cases (cut_prefix (codes "Bearer ") header)) [
    | inl e ↦ absurd (ground (arith, e, h))
    | inr (token, e) ↦ (
      token,
      append-cut_prefix (codes "Bearer ") header token e,
      grind (arith, lookup_session-in_memory, e, h),
    )
  ]

  -- A token that is not configured and whose session is not in memory meets a 503, and never a 401,
  -- when SQLite does not answer the read of its session.
  pub authorize-unavailable :
      (token : Text) (sv : Server)
      → valid token ≡ false
      → in_memory token sv.sessions ≡ none
      → env.own.read_up ≡ false
      → (authorize std env valid (bearer token) sv).0 ≡ unavailable
  unfolding authorize
  authorize-unavailable token sv v m up =
      ground
        (arith, cut_prefix-bearer token, (lookup_session-failed std env.own token sv).1 (m, up))

  -- A token with no session of its own, whose owner is on record and has a live session, passes as
  -- its owner: the owner of an app alias comes before the owner of a watch token.
  pub authorize-alias :
      (token owner : Text) (sv : Server) (s : Session)
      → valid token ≡ false
      → in_memory token sv.sessions ≡ none
      → get_session env.own.read_up token sv.db ≡ ok none
      → (get_app_alias_owner env.alias_up token sv.db ≡ ok (some owner))
        ⊎ ((get_app_alias_owner env.alias_up token sv.db ≡ ok none)
            × (get_watch_token_owner env.watch_up token sv.db ≡ ok (some owner)))
      → in_memory owner sv.sessions ≡ some s
      → authorize std env valid (bearer token) sv ≡ (pass owner, sv)
  unfolding authorize owner_of found_owner
  authorize-alias token owner sv s v m n o live = ground (
    arith,
    cut_prefix-bearer token,
    lookup_session-miss std env.own token sv m n,
    lookup_session-hit std env.owner owner sv s live,
  )

  -- A token that is an alias of itself, with no session, meets a 401.
  pub authorize_self :
      (token : Text) (sv : Server)
      → valid token ≡ false
      → in_memory token sv.sessions ≡ none
      → get_session env.own.read_up token sv.db ≡ ok none
      → get_session env.owner.read_up token sv.db ≡ ok none
      → get_app_alias_owner env.alias_up token sv.db ≡ ok (some token)
      → authorize std env valid (bearer token) sv ≡ (unauthorized, sv)
  unfolding authorize owner_of found_owner
  authorize_self token sv v m n n' o = ground (
    arith,
    cut_prefix-bearer token,
    lookup_session-miss std env.own token sv m n,
    lookup_session-miss std env.owner token sv m n',
  )

  -- A token that is not configured, has no session of its own and is no watch token meets a 401,
  -- and not a 503, when SQLite does not answer the read of the aliases, whatever aliases are on
  -- record, provided that the empty client ID has no session.
  authorize-alias_down :
      (token : Text) (sv : Server)
      → valid token ≡ false
      → in_memory token sv.sessions ≡ none
      → get_session env.own.read_up token sv.db ≡ ok none
      → env.alias_up ≡ false
      → get_watch_token_owner env.watch_up token sv.db ≡ ok none
      → in_memory [] sv.sessions ≡ none
      → get_session env.owner.read_up [] sv.db ≡ ok none
      → authorize std env valid (bearer token) sv ≡ (unauthorized, sv)
  unfolding authorize owner_of found_owner get_app_alias_owner
  authorize-alias_down token sv v m n down w m' n' = ground (
    arith,
    cut_prefix-bearer token,
    lookup_session-miss std env.own token sv m n,
    lookup_session-miss std env.owner [] sv m' n',
  )
