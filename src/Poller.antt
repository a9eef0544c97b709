-- ===== src/Poller.antt =====
-- bubbles.go: the state of BubblesPoller that one poll reads and writes.
pub mod Ticks
pub mod Queue
pub mod QueueLaws
pub mod Breaker
pub mod Favorites
pub mod Check
pub mod CheckLaws
pub mod Outage
pub mod Moderation
pub mod Alerts
pub mod AlertLaws
pub mod Summary
pub mod NewReports
pub mod Delivery
pub mod DeliveryLaws
use mediavida.Base.{ℕ, Bool, List, Text}
use mediavida.Base.Maps.{Map}
use mediavida.Activity.{ThreadActivity}
use mediavida.Scraper.Login.{Bubbles}

pub record BreakerState : Type 0 where
  pub fails : ℕ
  pub skip : ℕ

-- The maps go by client ID. `prev_fav` goes on to the keys of the threads.
pub record PollState : Type 0 where
  pub prev : Map Text Bubbles
  pub prev_fav : Map Text (Map Text ℕ)
  pub breaker : Map Text BreakerState
  pub gated : Map Text Bool

-- A push job of the queue; the poller never gives it mentions.
pub record PushJob : Type 0 where
  pub client_id : Text
  pub username : Text
  pub prev : Bubbles
  pub current : Bubbles
  pub fav : List ThreadActivity

-- What a poll does besides changing state, in its order: the webhook that a guard fires, the SSE
-- event with the effective count of avisos, a push job, and the check of the mod forums.
pub data Effect : Type 0 where
  guard_webhook : Text → Effect
  publish : Bubbles → Effect
  push : PushJob → Effect
  check_mod : Effect
