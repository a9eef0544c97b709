-- ===== src/Program/Started.antt =====
-- What the boot leaves in memory.
use mediavida.Base.{
  ◌≡◌, ap, Bool, true, false, Text, List, [], ◌∷◌, arith, is_empty, same, ◌||◌, Bool-cases,
  Option-cases, inl, inr,
}
use mediavida.Base.Keys.{text_key}
use mediavida.Store.{Db}
use mediavida.Scraper.{Packages}
use mediavida.Scraper.Recovery.{renewed, relogin}
use mediavida.Sessions.{Server}
use mediavida.Sessions.Restore.{scraper_for, restore_all, lookup_session, get_of}
use mediavida.Sessions.RestoreLaws.{lookup_session-in_memory}
use mediavida.Program.{is_api_token}
use mediavida.Base.Maps.{Map, lookup}
use mathlib.Core.Path.{subst}
use mediavida.Program.Boot.{
  TokenEnv, BootEnv, keys, boot_sessions, boot, restore_session, boot_token, boot_tokens,
}
use mediavida.Program.Live.{
  is_there, is_live, got, is_live-auto_login, is_live-auto_login_self, is_live-lookup_session,
  is_live-reconcile, is_live-restore_session, is_live-restore_session_self,
}

abbrev is_listed : Text → List Text → Bool
is_listed t [] = false
is_listed t (u ∷ us) = same u t || is_listed t us

is_listed-keys :
    (t : Text) (tokens : Map Text Bool)
    → is_api_token tokens t ≡ true
    → is_listed t (keys tokens) ≡ true
unfolding keys is_api_token lookup
is_listed-keys t [] h = absurd (ground (arith, h))
is_listed-keys t ((u, b) ∷ tokens) h = ground (arith, is_listed-keys t tokens)

module _ (std : Packages) (env : Text → TokenEnv) (user pass : Text) where
  is_live-boot_token :
      (token b : Text) (sv : Server)
      → is_live b sv ≡ true
      → is_live b (boot_token std env user pass token sv) ≡ true
  unfolding boot_token
  is_live-boot_token token b sv h = grind (
    arith,
    is_live-lookup_session std (env token).get token b sv h,
    is_live-restore_session std (env token).retry token b,
    is_live-auto_login std (env token).auto token user pass b,
  )

  -- Mediavida takes the login of the token's client, from whatever the store holds.
  abbrev pub IsTaken : Text → Type 0
  IsTaken token =
      (db : Db)
      → (relogin std (env token).auto.net (scraper_for (env token).auto.env_secret user pass token)
          db).0
        ≡ renewed

  module _ (has_user : is_empty user ≡ false) (has_pass : is_empty pass ≡ false) where
    is_live-boot_token_self :
        (token : Text) (sv : Server)
        → IsTaken token
        → is_live token (boot_token std env user pass token sv) ≡ true
    unfolding boot_token get_of
    is_live-boot_token_self token sv h =
        let (p, sv') = lookup_session std (env token).get token sv in
        elim (Option-cases (get_of p)) [
          | inl e ↦ rw e (elim (Bool-cases (restore_session std (env token).retry token sv').0) [
            | inl b ↦ rw b (is_live-restore_session_self std (env token).retry token sv' b)
            | inr b ↦
                rw (b, has_user, has_pass)
                  (is_live-auto_login_self std (env token).auto token user pass
                    (restore_session std (env token).retry token sv').1
                    (h (restore_session std (env token).retry token sv').1.db))
          ])
          | inr (s, e) ↦
              rw e
                (ap is_there (lookup_session-in_memory std (env token).get token sv s (got p s e)))
        ]

    is_live-boot_tokens :
        (tokens : List Text) (b : Text) (sv : Server)
        → is_live b sv ≡ true
        → is_live b (boot_tokens std env user pass tokens sv) ≡ true
    unfolding boot_tokens
    is_live-boot_tokens [] b sv h = h
    is_live-boot_tokens (t ∷ ts) b sv h =
        is_live-boot_tokens ts b (boot_token std env user pass t sv) (is_live-boot_token t b sv h)

    is_live-boot_tokens_listed :
        (tokens : List Text) (token : Text) (sv : Server)
        → is_listed token tokens ≡ true
        → IsTaken token
        → is_live token (boot_tokens std env user pass tokens sv) ≡ true
    unfolding boot_tokens
    is_live-boot_tokens_listed [] token sv m h = absurd (ground (arith, m))
    is_live-boot_tokens_listed (t ∷ ts) token sv m h = elim (Bool-cases (same t token)) [
      | inl e ↦ is_live-boot_tokens ts token (boot_token std env user pass t sv) (
          subst (λ u. is_live token (boot_token std env user pass u sv) ≡ true) (ground (arith, e))
            (is_live-boot_token_self token sv h))
      | inr e ↦
          is_live-boot_tokens_listed ts token (boot_token std env user pass t sv)
            (ground (arith, m, e)) h
    ]

-- With MV_USERNAME and MV_PASSWORD set, the boot leaves each API token whose login mediavida takes with
-- a session in memory, behind the reconciliation too, whatever the store held, whatever the cookies were
-- worth, and in whatever order the tokens come.
pub boot-is_live :
    (std : Packages) (env : BootEnv) (tokens : Map Text Bool) (sv : Server) (token : Text)
    → is_empty env.env_user ≡ false
    → is_empty env.env_pass ≡ false
    → is_api_token tokens token ≡ true
    → IsTaken std env.token env.env_user env.env_pass token
    → is_live token (boot std env tokens sv).1 ≡ true
unfolding boot boot_sessions
boot-is_live std env tokens sv token u p t h =
    is_live-reconcile (is_api_token tokens) env.reconcile_up env.answers env.now token
      (boot_sessions std env tokens sv) t
      (is_live-boot_tokens_listed std env.token env.env_user env.env_pass u p (keys tokens) token
        (restore_all std env.first env.retry env.list_up sv).1 (is_listed-keys token tokens t) h)
