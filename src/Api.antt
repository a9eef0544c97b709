-- ===== src/Api.antt =====
-- api.go: the data routes. What the scraper's operations answer is the environment's choice, since
-- they are mostly parsers of pages; those that post are in Scraper/Posting.
pub mod Dto
pub mod Routes
pub mod Reading
pub mod Personal
pub mod Writing
pub mod Notices
pub mod Moderators
pub mod Watches
pub mod Gated
pub mod FeedLaws
pub mod WatchLaws
pub mod Site
use mediavida.Base.{Bool, Text, Option, List}
use mediavida.Base.Int.{ℤ}
use mediavida.Scraper.Pages.{
  PortadaItem, ForumCategory, ForumThreadList, SearchResult, ThreadListItem, Profile, MentionItem,
  NotificationItem, InboxItem, Conversation,
}
use mediavida.Scraper.Login.{Bubbles}
use mediavida.Scraper.Recovery.{Op}
use mediavida.Scraper.Threads.{ThreadPage}
use mediavida.Scraper.Posting.{QuotedReply}
use mediavida.Scraper.Messages.{NewThreadPage}
use mediavida.Scraper.Pages.{ModBubbles}

-- The operations of the scraper that the routes call, as they answer at one time.
pub record ForumOps : Type 0 where
  pub fetch_portada : Op (List PortadaItem)
  pub fetch_forum_index : Op (List ForumCategory)
  pub fetch_forum_threads : Text → ℤ → Op ForumThreadList
  pub fetch_thread : Text → ℤ → Op ThreadPage
  pub like_message : ℤ → Text → Op (Unit {0})
  pub post_reply : Text → ℤ → Text → Op (Unit {0})
  pub get_post_source : ℤ → Text → Op Text
  pub get_quoted_post : ℤ → Text → Op (Text × Text)
  pub get_post_quoted : ℤ → Text → Op (List QuotedReply)
  pub edit_message : ℤ → Text → Text → Op (Unit {0})
  pub create_thread : Text → Text → Text → ℤ → Bool → Op Text
  pub fetch_new_thread_page : Text → Op NewThreadPage
  pub search : Text → Op (List SearchResult)
  pub fetch_inbox : ℤ → Op (List InboxItem)
  pub fetch_conversation : Text → Op Conversation
  pub send_private_message : Text → Text → Op (Unit {0})
  pub fetch_favorites : Op (List ThreadListItem)
  pub fetch_user_posts : Text → Op (List ThreadListItem)
  pub fetch_mentions : Text → Op (List MentionItem)
  pub fetch_profile : Text → Op Profile
  pub fetch_notifications : Op (List NotificationItem)
  pub fetch_bubbles : Op Bubbles
  pub fetch_mod_bubbles : Text → Op (Option ModBubbles)
