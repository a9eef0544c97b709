-- ===== src/Api/Reading.antt =====
-- api.go: the routes that read the forum.
use mediavida.Base.{Text, codes, Option, none, some, map, if◌then◌else◌, is_empty}
use mediavida.Base.Int.{ℤ, pos, leb_ℤ, ltb_ℤ}
use mediavida.Numbers.{atoi, atoi_value}
use mediavida.Cache.{Entries}
use mediavida.Scraper.{Packages}
use mediavida.Sessions.{Server}
use mediavida.Api.Dto.{
  Body, items, categories, forum_threads, thread_page, source, quote, posts, tags, results,
  thread_page_dto, quoted_reply_dto, search_results_dto,
}
use mediavida.Api.Routes.{
  Response, RouteEnv, authenticated, fetching, answer, saving, reject, shared,
}

-- The page of the query, from 1.
unfoldable pub page_or_first : Text → ℤ
page_or_first p = elim (atoi p) [ none ↦ pos 1 | some n ↦ if ltb_ℤ (pos 0) n then n else pos 1 ]

module _ (std : Packages) (env : RouteEnv) (client_id : Text) where
  -- GET /portada
  unfoldable pub get_portada : (Body → Option Text) → Entries → Server → Response × Entries × Server
  get_portada marshal =
      shared std env client_id (codes "portada") 30 marshal (λ o. o.fetch_portada) items

  -- GET /forums
  unfoldable pub get_forums : (Body → Option Text) → Entries → Server → Response × Entries × Server
  get_forums marshal =
      shared std env client_id (codes "forums") 30 marshal (λ o. o.fetch_forum_index) categories

  -- GET /forums/{slug}/threads
  unfoldable pub get_forum_threads : Text → Text → Server → Response × Server
  get_forum_threads slug page = authenticated std env client_id (
      if is_empty slug
      then reject std env client_id 400
      else fetching std env client_id (λ o. o.fetch_forum_threads slug (page_or_first page))
          (λ l. answer std env client_id (forum_threads l)))

  -- GET /threads
  unfoldable pub get_threads : Text → Text → Server → Response × Server
  get_threads url page = authenticated std env client_id (
      if is_empty url
      then reject std env client_id 400
      else fetching std env client_id (λ o. o.fetch_thread url (atoi_value page))
          (λ p. saving std env client_id (thread_page (thread_page_dto p))))

  -- GET /threads/source
  unfoldable pub get_source : Text → Text → Server → Response × Server
  get_source num url = authenticated std env client_id (
      if leb_ℤ (atoi_value num) (pos 0)
      then reject std env client_id 400
      else fetching std env client_id (λ o. o.get_post_source (atoi_value num) url)
          (λ src. answer std env client_id (source (atoi_value num) src)))

  -- GET /threads/quote
  unfoldable pub get_quote : Text → Text → Server → Response × Server
  get_quote num url = authenticated std env client_id (
      if leb_ℤ (atoi_value num) (pos 0)
      then reject std env client_id 400
      else fetching std env client_id (λ o. o.get_quoted_post (atoi_value num) url)
          (λ q. answer std env client_id (quote (atoi_value num) q.0 q.1)))

  -- GET /threads/quoted
  unfoldable pub get_quoted : Text → Text → Server → Response × Server
  get_quoted num url = authenticated std env client_id (
      if leb_ℤ (atoi_value num) (pos 0)
      then reject std env client_id 400
      else fetching std env client_id (λ o. o.get_post_quoted (atoi_value num) url)
          (λ qs. answer std env client_id (posts (map quoted_reply_dto qs))))

  -- GET /threads/tags
  unfoldable pub get_tags : Text → Server → Response × Server
  get_tags subforum = authenticated std env client_id (
      if is_empty subforum
      then reject std env client_id 400
      else fetching std env client_id (λ o. o.fetch_new_thread_page subforum)
          (λ p. saving std env client_id (tags subforum p.fid p.tags)))

  -- GET /search
  unfoldable pub get_search : Text → Server → Response × Server
  get_search query = authenticated std env client_id (
      if is_empty query
      then reject std env client_id 400
      else fetching std env client_id (λ o. o.search query)
          (λ rs. answer std env client_id (results query (search_results_dto rs))))
