-- ===== src/Api/Dto.antt =====
-- api.go: the types of the answers, and how they are made of what the scraper fetches.
use mediavida.Base.{Bool, Text, List, map}
use mediavida.Base.Int.{ℤ}
use mediavida.Scraper.Cookies.{WebCookie}
use mediavida.Scraper.Pages.{
  PortadaItem, ForumCategory, ForumThreadList, SearchResult, ThreadListItem, Profile, MentionItem,
  NotificationItem, InboxItem, PrivateMessage, Conversation,
}
use mediavida.Scraper.Threads.{ForumMessage, ThreadPage}
use mediavida.Scraper.Posting.{QuotedReply}
use mediavida.Scraper.Messages.{TagOption}

pub record MessageDto : Type 0 where
  pub num : ℤ
  pub author : Text
  pub body : Text
  pub body_html : Text
  pub avatar : Text
  pub date : Text
  pub time : ℤ
  pub liked : Bool
  pub replies : ℤ

pub record QuotedReplyDto : Type 0 where
  pub num : ℤ
  pub author : Text
  pub avatar : Text
  pub body_html : Text
  pub date : Text

pub record ThreadPageDto : Type 0 where
  pub current_page : ℤ
  pub total_pages : ℤ
  pub messages : List MessageDto

unfoldable pub message_dto : ForumMessage → MessageDto
message_dto m = record {
  num = m.num;
  author = m.author;
  body = m.body;
  body_html = m.body_html;
  avatar = m.avatar;
  date = m.date;
  time = m.time;
  liked = m.liked;
  replies = m.replies;
}

unfoldable pub thread_page_dto : ThreadPage → ThreadPageDto
thread_page_dto p = record {
  current_page = p.current_page;
  total_pages = p.total_pages;
  messages = map message_dto p.messages;
}

unfoldable pub quoted_reply_dto : QuotedReply → QuotedReplyDto
quoted_reply_dto q = record {
  num = q.num;
  author = q.author;
  avatar = q.avatar;
  body_html = q.body_html;
  date = q.date;
}

pub record SearchResultDto : Type 0 where
  pub title : Text
  pub url : Text
  pub forum : Text
  pub author : Text
  pub date : Text

unfoldable pub search_results_dto : List SearchResult → List SearchResultDto
search_results_dto = map (λ r. record {
  title = r.title;
  url = r.url;
  forum = r.forum;
  author = r.author;
  date = r.date;
})

pub record InboxItemDto : Type 0 where
  pub id : Text
  pub author : Text
  pub date : Text
  pub preview : Text
  pub unread : Bool

unfoldable pub inbox_items_dto : List InboxItem → List InboxItemDto
inbox_items_dto = map (λ it. record {
  id = it.id;
  author = it.author;
  date = it.date;
  preview = it.short;
  unread = it.unread;
})

pub record PrivateMessageDto : Type 0 where
  pub author : Text
  pub date : Text
  pub body : Text

pub record ConversationDto : Type 0 where
  pub title : Text
  pub messages : List PrivateMessageDto

unfoldable pub conversation_dto : Conversation → ConversationDto
conversation_dto c = record {
  title = c.title;
  messages =
      map (λ (m : PrivateMessage). record { author = m.author; date = m.date; body = m.body })
        c.messages;
}

pub record ThreadListItemDto : Type 0 where
  pub title : Text
  pub url : Text
  pub forum : Text
  pub replies : Text
  pub last_activity : Text
  pub unread_count : Text
  pub unread_url : Text

unfoldable pub thread_list_items_dto : List ThreadListItem → List ThreadListItemDto
thread_list_items_dto = map (λ it. record {
  title = it.title;
  url = it.url;
  forum = it.forum;
  replies = it.replies;
  last_activity = it.last_activity;
  unread_count = it.unread_count;
  unread_url = it.unread_url;
})

pub record MentionDto : Type 0 where
  pub thread_title : Text
  pub thread_url : Text
  pub author : Text
  pub post_num : ℤ
  pub body : Text
  pub date : Text

unfoldable pub mentions_dto : List MentionItem → List MentionDto
mentions_dto = map (λ it. record {
  thread_title = it.thread_title;
  thread_url = it.thread_url;
  author = it.author;
  post_num = it.post_num;
  body = it.body;
  date = it.date;
})

pub record NotificationDto : Type 0 where
  pub id : Text
  pub author : Text
  pub avatar : Text
  pub text : Text
  pub target : Text
  pub url : Text
  pub time : Text
  pub unseen : Bool

unfoldable pub notifications_dto : List NotificationItem → List NotificationDto
notifications_dto = map (λ it. record {
  id = it.id;
  author = it.author;
  avatar = it.avatar;
  text = it.text;
  target = it.target;
  url = it.url;
  time = it.time;
  unseen = it.unseen;
})

pub record WatchTokenInfo : Type 0 where
  pub token : Text
  pub label : Text
  pub created_at : ℤ

-- The JSON that a route answers with, by its shape.
pub data Body : Type 0 where
  no_body error_body : Body
  raw : Text → Body
  status_body : Text → Body
  mv_cookies : List WebCookie → Body
  items : List PortadaItem → Body
  categories : List ForumCategory → Body
  forum_threads : ForumThreadList → Body
  thread_page : ThreadPageDto → Body
  liked edited : ℤ → Body
  source : ℤ → Text → Body
  quote : ℤ → Text → Text → Body
  posts : List QuotedReplyDto → Body
  submitted submitted_raw : Text → Body
  tags : Text → Text → List TagOption → Body
  results : Text → List SearchResultDto → Body
  conversations : ℤ → List InboxItemDto → Body
  conversation : ConversationDto → Body
  favorites : List ThreadListItemDto → Body
  user_threads : Text → List ThreadListItemDto → Body
  user_mentions : Text → List MentionDto → Body
  profile : Profile → Body
  notifications : ℤ → List NotificationDto → Body
  counters : ℤ → ℤ → ℤ → Body
  webhook : Text → Text → Body
  mod_forums : Text → List Text → Body
  mod_forums_added : Text → List Text → Bool → Body
  watch_paired : Text → Text → Body
  watches : List WatchTokenInfo → Body
