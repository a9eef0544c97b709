-- ===== src/Program/Boot.antt =====
-- main.go: the sessions of the boot; session.go: RestoreSession, which only the boot calls.
use mediavida.Base.{
  ℕ, Bool, true, false, Text, Option, none, some, List, [], ◌∷◌, ◌||◌, if◌then◌else◌, is_empty,
}
use mediavida.Base.Maps.{Map}
use mediavida.Store.{SessionRecord, Reply, ok, failed}
use mediavida.Store.Sessions.{get_session}
use mediavida.Scraper.{Packages}
use mediavida.Sessions.{Session, Server, Call}
use mediavida.Sessions.Restore.{restore_from_record, lookup_session, get_of, restore_all}
use mediavida.Sessions.Credentials.{auto_login}
use mediavida.Sessions.Reconcile.{Answers, reconcile}
use mediavida.Program.{is_api_token}

-- What the environment gives to the work on one API token: to Get, to RestoreSession and to AutoLogin.
pub record TokenEnv : Type 0 where
  pub get : Call
  pub retry : Call
  pub auto : Call

module _ (std : Packages) where
  restored : Call → Reply (Option SessionRecord) → Server → Reply Bool × Server
  restored c failed sv = (failed, sv)
  restored c (ok none) sv = (ok false, sv)
  restored c (ok (some r)) sv = let (b, sv') = restore_from_record std c r sv in (ok b, sv')

  -- restoreSessionE: `failed` is errSessionStoreUnavailable.
  unfoldable pub restore_session_e : Call → Text → Server → Reply Bool × Server
  unfolding restored
  restore_session_e c client_id sv = restored c (get_session c.read_up client_id sv.db) sv

  -- RestoreSession
  unfoldable pub restore_session : Call → Text → Server → Bool × Server
  restore_session c client_id sv =
      let (b, sv') = restore_session_e c client_id sv in
      (elim b [ failed ↦ false | ok restored' ↦ restored' ], sv')

  module _ (env : Text → TokenEnv) (env_user env_pass : Text) where
    or_auto_login : Text → Bool × Server → Server
    or_auto_login token (true, sv) = sv
    or_auto_login token (false, sv) =
        let (e, logged_in) = auto_login std (env token).auto token env_user env_pass sv in
        if is_empty env_user || is_empty env_pass then sv else logged_in

    -- `p` is what Get answers.
    or_restore : Text → Option Session → Server → Server
    or_restore token (some s) sv = sv
    or_restore token none sv = or_auto_login token (restore_session (env token).retry token sv)

    -- The loop's body.
    unfoldable pub boot_token : Text → Server → Server
    unfolding or_restore or_auto_login
    boot_token token sv =
        let (p, sv') = lookup_session std (env token).get token sv in
        or_restore token (get_of p) sv'

    unfoldable pub boot_tokens : List Text → Server → Server
    boot_tokens [] sv = sv
    boot_tokens (token ∷ tokens) sv = boot_tokens tokens (boot_token token sv)

-- What the environment gives to the boot: the two looks of RestoreAll at each record, the work on each
-- token, the answers of the reconciliation, MV_USERNAME and MV_PASSWORD.
pub record BootEnv : Type 0 where
  pub list_up : Bool
  pub first : Text → Call
  pub retry : Text → Call
  pub token : Text → TokenEnv
  pub reconcile_up : Bool
  pub answers : Answers
  pub now : ℕ
  pub env_user : Text
  pub env_pass : Text

unfoldable pub keys : Map Text Bool → List Text
keys [] = []
keys ((t, b) ∷ m) = t ∷ keys m

-- The sessions before the reconciliation: RestoreAll, then the loop over the API tokens.
unfoldable pub boot_sessions : Packages → BootEnv → Map Text Bool → Server → Server
unfolding keys
boot_sessions std env tokens sv =
    boot_tokens std env.token env.env_user env.env_pass (keys tokens)
      (restore_all std env.first env.retry env.list_up sv).1

unfoldable pub boot : Packages → BootEnv → Map Text Bool → Server → ℕ × Server
boot std env tokens sv =
    reconcile (is_api_token tokens) env.reconcile_up env.answers env.now
      (boot_sessions std env tokens sv)
