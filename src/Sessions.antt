-- ===== src/Sessions.antt =====
-- session.go: the in-memory map of sessions over the durable store.
pub mod Restore
pub mod Credentials
pub mod Canonical
pub mod Reconcile
pub mod RestoreLaws
pub mod CredentialsLaws
pub mod CanonicalLaws
pub mod ReconcileLaws
use mediavida.Base.{ℕ, Bool, Text, Option, none, some}
use mediavida.Base.Keys.{text_key}
use mediavida.Base.Maps.{Map, lookup, insert, erase}
use mediavida.Store.{Db}
use mediavida.Scraper.{ForumScraper}
use mediavida.Scraper.Recovery.{ReloginNet}

pub data Status : Type 0 where
  pending guard_needed authenticated : Status

abbrev pub is_authenticated : Status → Bool
is_authenticated authenticated = Bool.true
is_authenticated _ = Bool.false

pub record Session : Type 0 where
  pub scraper : ForumScraper
  pub status : Status
  pub guard_url : Text

-- SessionStore with the tables behind it. An entry of the map may hold a nil pointer, `none`.
pub record Server : Type 0 where
  pub sessions : Map Text (Option Session)
  pub db : Db

-- What the environment gives to one call: whether SQLite answers the read of the session, the
-- time, MV_TOTP_SECRET, and the answers to a re-login.
pub record Call : Type 0 where
  pub read_up : Bool
  pub now : ℕ
  pub env_secret : Text
  pub net : ReloginNet

-- ss.sessions[clientID]: nil for a missing key.
unfoldable pub in_memory : Text → Map Text (Option Session) → Option Session
in_memory client_id m = elim (lookup client_id m) [ none ↦ none | some p ↦ p ]

unfoldable pub set_session : Text → Option Session → Server → Server
set_session client_id p sv = record sv { sessions = insert client_id p sv.sessions }
