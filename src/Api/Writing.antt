-- ===== src/Api/Writing.antt =====
-- api.go: the routes that write to the forum. A body is `none` when it is no JSON of its type.
use mediavida.Base.{Bool, Text, codes, Option, none, some, ◌||◌, if◌then◌else◌, is_empty}
use mediavida.Base.Int.{ℤ, pos, leb_ℤ}
use mediavida.Base.Strings.{trim_space}
use mediavida.Scraper.{Packages}
use mediavida.Sessions.{Server}
use mediavida.Api.Dto.{status_body, liked, edited, submitted, submitted_raw}
use mediavida.Api.Routes.{Response, RouteEnv, Handler, authenticated, fetching, saving, reject}

pub record LikeRequest : Type 0 where
  pub post_num : ℤ
  pub url : Text

pub record ReplyRequest : Type 0 where
  pub text : Text
  pub reply_to_num : ℤ
  pub url : Text

pub record EditRequest : Type 0 where
  pub post_num : ℤ
  pub text : Text
  pub url : Text

pub record ThreadRequest : Type 0 where
  pub subforum : Text
  pub title : Text
  pub body : Text
  pub tag : ℤ
  pub add_to_favorites : Bool

module _ (std : Packages) (env : RouteEnv) (client_id : Text) where
  -- decodeJSON: a 400 for an error.
  unfoldable pub decoded : {A : Type 0} → Option A → (A → Handler) → Handler
  decoded none k = reject std env client_id 400
  decoded (some a) k = k a

  -- POST /threads/like
  unfoldable pub post_like : Option LikeRequest → Server → Response × Server
  post_like body = authenticated std env client_id (
      decoded body (λ req.
        if leb_ℤ req.post_num (pos 0)
        then reject std env client_id 400
        else fetching std env client_id (λ o. o.like_message req.post_num req.url)
            (λ u. saving std env client_id (liked req.post_num))))

  -- POST /threads/reply
  unfoldable pub post_reply_route : Option ReplyRequest → Server → Response × Server
  post_reply_route body = authenticated std env client_id (
      decoded body (λ req.
        if is_empty (trim_space req.text)
        then reject std env client_id 400
        else fetching std env client_id (λ o. o.post_reply req.text req.reply_to_num req.url)
            (λ u. saving std env client_id (status_body (codes "posted")))))

  -- POST /threads/edit
  unfoldable pub post_edit : Option EditRequest → Server → Response × Server
  post_edit body = authenticated std env client_id (
      decoded body (λ req.
        if leb_ℤ req.post_num (pos 0) || is_empty (trim_space req.text)
        then reject std env client_id 400
        else fetching std env client_id (λ o. o.edit_message req.post_num req.text req.url)
            (λ u. saving std env client_id (edited req.post_num))))

  -- POST /threads; `is_json` is json.Unmarshal at the answer of the forum.
  unfoldable pub post_thread : (Text → Bool) → Option ThreadRequest → Server → Response × Server
  post_thread is_json body = authenticated std env client_id (
      decoded body (λ req.
        if is_empty req.subforum || is_empty req.title || is_empty req.body
        then reject std env client_id 400
        else fetching std env client_id
            (λ o. o.create_thread req.subforum req.title req.body req.tag req.add_to_favorites)
            (λ text.
              saving std env client_id
                (if is_json text then submitted text else submitted_raw text))))

  -- POST /messages/{id}/reply: the body has the text.
  unfoldable pub post_message : Text → Option Text → Server → Response × Server
  post_message id body = authenticated std env client_id (
      if is_empty id
      then reject std env client_id 400
      else decoded body (λ text.
        if is_empty (trim_space text)
        then reject std env client_id 400
        else fetching std env client_id (λ o. o.send_private_message id text)
            (λ u. saving std env client_id (status_body (codes "sent")))))
