-- ===== src/Scraper/Messages.antt =====
-- scraper.go: SendPrivateMessage, FetchNewThreadPage and CreateThread.
use mediavida.Base.{
  Bool, Text, codes, Option, none, some, List, [], ◌∷◌, ◌++◌, ◌||◌, if◌then◌else◌, is_empty, leb,
  ◌==◌, same, text_key,
}
use mediavida.Base.Int.{ℤ}
use mediavida.Base.Strings.{trim_space}
use mediavida.Scraper.{ForumScraper}
use mediavida.Scraper.Recovery.{OpResult, op_ok, op_error, op_failed}
use mediavida.Scraper.Threads.{print_int, or_old}
use mediavida.Scraper.Posting.{PostNet, Posting, fails, do_post}

-- The page of a conversation: the token of its form, #token, and #mtid.
pub record ConversationDoc : Type 0 where
  pub form_token : Text
  pub token : Text
  pub mtid : Text

-- The page of the form of a new thread: #token, #fid, the inputs of these names, and value and text
-- of each option of its tags.
pub record NewThreadDoc : Type 0 where
  pub token : Text
  pub input_token : Text
  pub fid : Text
  pub input_fid : Text
  pub options : List (Text × Text)

pub record TagOption : Type 0 where
  pub id : Text
  pub name : Text

pub record NewThreadPage : Type 0 where
  pub token : Text
  pub fid : Text
  pub tags : List TagOption

unfoldable pub tags_of : List (Text × Text) → List TagOption
tags_of [] = []
tags_of ((id, name) ∷ options) =
    let rest = tags_of options in
    if is_empty id || same id (codes "0")
    then rest
    else record { id = id; name = trim_space name } ∷ rest

-- SendPrivateMessage; `doc` is the page of the conversation, `none` if it cannot be read.
module _ (net : PostNet) (doc : Option ConversationDoc) (conversation_id : Text) where
  conversation_url : Text
  conversation_url = codes "https://www.mediavida.com/mensajes/" ++ conversation_id

  on_page : Text → ConversationDoc → ForumScraper → Posting (Unit {0})
  on_page text d s =
      let token = or_old d.form_token d.token in
      if is_empty token
      then fails s
      else do_post net
          (record {
            url = codes "https://www.mediavida.com/msg/pm_action.php";
            form =
                (codes "token", token)
                ∷ (codes "mtid", or_old d.mtid conversation_id)
                ∷ (codes "msg", text)
                ∷ [];
            referer = conversation_url;
          })
          (λ status body. if leb 400 status then op_error op_failed else op_ok tt) s

  unfoldable pub send_private_message : Text → ForumScraper → Posting (Unit {0})
  unfolding on_page conversation_url
  send_private_message text s =
      if s.logged_in
      then (if is_empty (trim_space text)
          then fails s
          else elim doc [ none ↦ fails s | some d ↦ on_page (trim_space text) d s ])
      else fails s

-- FetchNewThreadPage
unfoldable pub fetch_new_thread_page : Option NewThreadDoc → ForumScraper → OpResult NewThreadPage
fetch_new_thread_page doc s =
    if s.logged_in
    then elim doc [
      | none ↦ op_error op_failed
      | some d ↦ op_ok (record {
        token = or_old d.token d.input_token;
        fid = or_old d.fid d.input_fid;
        tags = tags_of d.options;
      })
    ]
    else op_error op_failed

module _ (net : PostNet) (subforum title text : Text) (tag : ℤ) (add_to_fav : Bool) where
  on_form : OpResult NewThreadPage → ForumScraper → Posting Text
  on_form (op_error e) s = (op_error e, s, [])
  on_form (op_ok page) s =
      if is_empty page.token || is_empty page.fid
      then fails s
      else do_post net
          (record {
            url = codes "https://www.mediavida.com/foro/acciones_preview.php";
            form =
                (codes "cabecera", title)
                ∷ (codes "tag", print_int tag)
                ∷ (codes "cuerpo", text)
                ∷ (codes "tofav", if add_to_fav then codes "1" else codes "0")
                ∷ (codes "token", page.token)
                ∷ (codes "fid", page.fid)
                ∷ [];
            referer = codes "https://www.mediavida.com/foro/" ++ subforum ++ codes "/nuevo-hilo";
          })
          (λ status body. if status == 200 then op_ok body else op_error op_failed) s

  -- CreateThread
  unfoldable pub create_thread : Option NewThreadDoc → ForumScraper → Posting Text
  unfolding on_form
  create_thread doc s = on_form (fetch_new_thread_page doc s) s
