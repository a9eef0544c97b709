-- ===== src/Scraper/Pages.antt =====
-- scraper.go and forums.go: what the page parsers make of Mediavida's pages.
use mediavida.Base.{Bool, Text, codes, List, ◌++◌}
use mediavida.Base.Int.{ℤ}

pub record ForumInfo : Type 0 where
  pub slug : Text
  pub name : Text
  pub description : Text
  pub icon : Text

pub record ForumCategory : Type 0 where
  pub name : Text
  pub forums : List ForumInfo

pub record ForumThread : Type 0 where
  pub id : Text
  pub title : Text
  pub url : Text
  pub author : Text
  pub tag : Text
  pub replies : Text
  pub views : Text
  pub last_activity : Text
  pub last_time : ℤ
  pub pinned : Bool
  pub closed : Bool
  pub unread_count : Text

pub record ForumThreadList : Type 0 where
  pub subforum : Text
  pub current_page : ℤ
  pub total_pages : ℤ
  pub threads : List ForumThread

pub record PortadaItem : Type 0 where
  pub title : Text
  pub url : Text
  pub forum : Text
  pub intro : Text
  pub image : Text
  pub replies : Text

pub record SearchResult : Type 0 where
  pub title : Text
  pub url : Text
  pub forum : Text
  pub author : Text
  pub date : Text

pub record ThreadListItem : Type 0 where
  pub title : Text
  pub url : Text
  pub forum : Text
  pub replies : Text
  pub last_activity : Text
  pub unread_count : Text
  pub unread_url : Text

pub record Profile : Type 0 where
  pub username : Text
  pub avatar : Text
  pub cover : Text
  pub rank : Text
  pub registered : Text
  pub posts : ℤ
  pub threads : ℤ
  pub visits : ℤ
  pub bio : Text
  pub online : Bool

pub record MentionItem : Type 0 where
  pub thread_title : Text
  pub thread_url : Text
  pub author : Text
  pub post_num : ℤ
  pub body : Text
  pub date : Text

pub record NotificationItem : Type 0 where
  pub id : Text
  pub author : Text
  pub avatar : Text
  pub text : Text
  pub target : Text
  pub url : Text
  pub time : Text
  pub unseen : Bool

pub record InboxItem : Type 0 where
  pub id : Text
  pub author : Text
  pub date : Text
  pub short : Text
  pub unread : Bool

pub record PrivateMessage : Type 0 where
  pub author : Text
  pub date : Text
  pub body : Text

pub record Conversation : Type 0 where
  pub title : Text
  pub messages : List PrivateMessage

-- The counters of a moderator's menu.
pub record ModBubbles : Type 0 where
  pub forum_slug : Text
  pub forum_id : Text
  pub reports : ℤ
  pub messages : ℤ

pub record ModReport : Type 0 where
  pub thread_id : Text
  pub post_num : Text
  pub thread_title : Text
  pub post_url : Text
  pub post_author : Text
  pub post_body : Text
  pub reason : Text
  pub reporter : Text
  pub reported_ago : Text

-- Key
abbrev pub report_key : ModReport → Text
report_key r = r.thread_id ++ (codes ":" ++ r.post_num)
