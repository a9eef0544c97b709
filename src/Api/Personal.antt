-- ===== src/Api/Personal.antt =====
-- api.go: the routes that read what belongs to a user.
use mediavida.Base.{Text, if◌then◌else◌, is_empty}
use mediavida.Numbers.{atoi_value}
use mediavida.Scraper.{ForumScraper, Packages}
use mediavida.Sessions.{Server}
use mediavida.Api.Dto.{
  conversations, conversation, favorites, user_threads, user_mentions, profile, inbox_items_dto,
  conversation_dto, thread_list_items_dto, mentions_dto,
}
use mediavida.Api.Routes.{Response, RouteEnv, authenticated, fetching, saving, reject}

-- The user of the path, or the own one.
unfoldable pub user_or_own : Text → ForumScraper → Text
user_or_own username s = if is_empty username then s.user else username

module _ (std : Packages) (env : RouteEnv) (client_id : Text) where
  -- GET /inbox
  unfoldable pub get_inbox : Text → Server → Response × Server
  get_inbox page = authenticated std env client_id (
      fetching std env client_id (λ o. o.fetch_inbox (atoi_value page))
        (λ l. saving std env client_id (conversations (atoi_value page) (inbox_items_dto l))))

  -- GET /messages/{id}
  unfoldable pub get_messages : Text → Server → Response × Server
  get_messages id = authenticated std env client_id (
      if is_empty id
      then reject std env client_id 400
      else fetching std env client_id (λ o. o.fetch_conversation id)
          (λ c. saving std env client_id (conversation (conversation_dto c))))

  -- GET /favorites
  unfoldable pub get_favorites : Server → Response × Server
  get_favorites = authenticated std env client_id (
      fetching std env client_id (λ o. o.fetch_favorites)
        (λ l. saving std env client_id (favorites (thread_list_items_dto l))))

  -- GET /users/{username}/posts
  unfoldable pub get_user_posts : Text → Server → Response × Server
  get_user_posts username = authenticated std env client_id (λ s.
      fetching std env client_id (λ o. o.fetch_user_posts (user_or_own username s))
        (λ l.
          saving std env client_id
            (user_threads (user_or_own username s) (thread_list_items_dto l)))
        s)

  -- GET /users/{username}/mentions
  unfoldable pub get_user_mentions : Text → Server → Response × Server
  get_user_mentions username = authenticated std env client_id (λ s.
      fetching std env client_id (λ o. o.fetch_mentions (user_or_own username s))
        (λ l. saving std env client_id (user_mentions (user_or_own username s) (mentions_dto l))) s)

  -- GET /profile
  unfoldable pub get_profile : Server → Response × Server
  get_profile = authenticated std env client_id (λ s.
      fetching std env client_id (λ o. o.fetch_profile s.user)
        (λ p. saving std env client_id (profile p)) s)
