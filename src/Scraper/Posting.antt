-- ===== src/Scraper/Posting.antt =====
-- scraper.go: the operations that post to the open thread: LikeMessage, GetPostSource,
-- GetQuotedPost, GetPostQuoted, EditMessage and PostReply.
use mediavida.Base.{
  ℕ, Bool, true, false, Text, codes, Option, none, some, List, [], ◌∷◌, ◌++◌, ◌||◌, if◌then◌else◌,
  is_empty, leb, ◌==◌, map, same,
}
use mediavida.Base.Int.{ℤ, pos, ltb_ℤ, int_key}
use mediavida.Base.Strings.{trim_space, has_prefix}
use mediavida.Numbers.{atoi_value}
use mediavida.Scraper.{ForumScraper}
use mediavida.Scraper.Login.{Outcome, done, error, login}
use mediavida.Scraper.Recovery.{OpResult, op_ok, op_error, op_failed}
use mediavida.Scraper.Threads.{ThreadNet, print_int, ensure_thread}

-- A POST: its URL, its form and its Referer.
pub record PostRequest : Type 0 where
  pub url : Text
  pub form : List (Text × Text)
  pub referer : Text

-- The JSON of post_quote.php, and that of post_quoted.php.
pub record QuoteAnswer : Type 0 where
  pub status : ℤ
  pub min : Text
  pub full : Text
  pub autor : Text

pub record QuotedPost : Type 0 where
  pub num : Text
  pub nombre : Text
  pub avatar : Text
  pub fecha2 : Text
  pub text : Text

pub record QuotedAnswer : Type 0 where
  pub status : ℤ
  pub posts : List QuotedPost

pub record QuotedReply : Type 0 where
  pub num : ℤ
  pub author : Text
  pub avatar : Text
  pub body_html : Text
  pub date : Text

-- encoding/json at the answers, and goquery on a fragment of HTML (`none`: it does not parse): the
-- source of its first image, itself with every URL rewritten, and its text.
pub record Decoders : Type 0 where
  pub quote : Text → Option QuoteAnswer
  pub quoted : Text → Option QuotedAnswer
  pub status : Text → Option ℤ
  pub image : Text → Option Text
  pub rewritten : (Text → Text) → Text → Option Text
  pub text : Text → Option Text

-- The answers to one operation; `post`: status and body, `none` if the request fails.
pub record PostNet : Type 0 where
  pub threads : ThreadNet
  pub post : PostRequest → Option (ℕ × Text)

-- What an operation returns, the scraper after it, and the requests that it has posted.
abbrev pub Posting : Type 0 → Type 0
Posting A = OpResult A × ForumScraper × List PostRequest

abbrev pub fails : {A : Type 0} → ForumScraper → Posting A
fails s = (op_error op_failed, s, [])

-- client.Do, and what the code makes of the status and the body.
unfoldable pub do_post :
    {A : Type 0} → PostNet → PostRequest → (ℕ → Text → OpResult A) → ForumScraper → Posting A
do_post net req read s = (
  elim (net.post req) [ none ↦ op_error op_failed | some (status, body) ↦ read status body ],
  s,
  req ∷ [],
)

unfoldable pub on_open : {A : Type 0} → (ForumScraper → Posting A) → Bool × ForumScraper → Posting A
on_open k (true, s) = k s
on_open k (false, s) = fails s

-- ensureThread, and the rest of the operation behind it.
unfoldable pub on_thread :
    {A : Type 0} → PostNet → Text → (ForumScraper → Posting A) → ForumScraper → Posting A
on_thread net want k s = on_open k (ensure_thread net.threads want s)

-- forums.go: absolutizeMV
unfoldable pub absolutize : Text → Text
absolutize url =
    let u = trim_space url in
    if is_empty u
      || has_prefix u (codes "http")
      || has_prefix u (codes "//")
      || has_prefix u (codes "data:")
    then u
    else if has_prefix u (codes "/")
    then codes "https://www.mediavida.com" ++ u
    else u

unfoldable pub or_text : Option Text → Text → Text
or_text none text = text
or_text (some t) text = t

-- One post of post_quoted.php.
unfoldable pub reply_of : Decoders → QuotedPost → QuotedReply
reply_of js p = record {
  num = atoi_value p.num;
  author = p.nombre;
  avatar = elim (js.image p.avatar) [ none ↦ [] | some src ↦ absolutize src ];
  body_html = trim_space (or_text (js.rewritten absolutize p.text) p.text);
  date = trim_space (or_text (js.text p.fecha2) p.fecha2);
}

-- A status of 0 has no replies.
unfoldable pub replies_of : Decoders → QuotedAnswer → List QuotedReply
replies_of js a = if same a.status (pos 0) then [] else map (reply_of js) a.posts

module _ (net : PostNet) (num : ℤ) (want : Text) where
  -- LikeMessage on the open thread.
  unfoldable pub like_open : ForumScraper → Posting (Unit {0})
  like_open s =
      if is_empty s.thread_id || is_empty s.csrf_token
      then fails s
      else do_post net
          (record {
            url = codes "https://www.mediavida.com/foro/post_mola.php";
            form =
                (codes "token", s.csrf_token)
                ∷ (codes "tid", s.thread_id)
                ∷ (codes "num", print_int num)
                ∷ (codes "undo", codes "false")
                ∷ [];
            referer = s.thread_url;
          })
          (λ status body. if status == 200 then op_ok tt else op_error op_failed) s

  unfoldable pub like_after : Outcome × ForumScraper → Posting (Unit {0})
  like_after (error e, s) = fails s
  like_after (done, s) = on_thread net want like_open s

  unfoldable pub like_message : ForumScraper → Posting (Unit {0})
  like_message s =
      if s.logged_in
      then on_thread net want like_open s
      else like_after (login net.threads.login_net s)

  -- The form that the three readers of a post send.
  abbrev post_form : Text → ForumScraper → PostRequest
  post_form url s = record {
    url = url;
    form =
        (codes "num", print_int num)
        ∷ (codes "tid", s.thread_id)
        ∷ (codes "token", s.csrf_token)
        ∷ [];
    referer = s.thread_url;
  }

  -- A reader needs a thread and its token, and a 200.
  unfoldable pub read_post : {A : Type 0} → Text → (Text → OpResult A) → ForumScraper → Posting A
  read_post url read s =
      if s.logged_in
      then on_thread net want
          (λ o.
            if is_empty o.thread_id || is_empty o.csrf_token
            then fails o
            else do_post net (post_form url o)
                (λ status body. if status == 200 then read body else op_error op_failed) o)
          s
      else fails s

  unfoldable pub get_post_source : ForumScraper → Posting Text
  get_post_source = read_post (codes "https://www.mediavida.com/foro/post_contents.php") op_ok

  -- Author and body. The body of an answer that is no JSON is its text.
  unfoldable pub quote_of : Decoders → Text → Text × Text
  quote_of js body = elim (js.quote body) [
    | none ↦ ([], trim_space body)
    | some q ↦ (q.autor, if is_empty q.full then q.min else q.full)
  ]

  unfoldable pub get_quoted_post : Decoders → ForumScraper → Posting (Text × Text)
  get_quoted_post js =
      read_post (codes "https://www.mediavida.com/foro/post_quote.php")
        (λ body. op_ok (quote_of js body))

  unfoldable pub get_post_quoted : Decoders → ForumScraper → Posting (List QuotedReply)
  get_post_quoted js = read_post (codes "https://www.mediavida.com/foro/post_quoted.php") (λ body.
      elim (js.quoted body) [ none ↦ op_error op_failed | some a ↦ op_ok (replies_of js a) ])

  -- EditMessage: an answer of JSON whose status is not 1 is a rejection.
  unfoldable pub edit_answer : Decoders → ℕ → Text → OpResult (Unit {0})
  edit_answer js status body =
      if leb 400 status then op_error op_failed else elim (js.status body) [
        | none ↦ op_ok tt
        | some n ↦ if same n (pos 1) then op_ok tt else op_error op_failed
      ]

  unfoldable pub edit_open : Decoders → Text → ForumScraper → Posting (Unit {0})
  edit_open js text s =
      if is_empty s.thread_id || is_empty s.csrf_token
      then fails s
      else do_post net
          (record {
            url = codes "https://www.mediavida.com/foro/action/poster.php";
            form =
                (codes "cuerpo", text)
                ∷ (codes "tid", s.thread_id)
                ∷ (codes "num", print_int num)
                ∷ (codes "token", s.csrf_token)
                ∷ [];
            referer = s.thread_url;
          })
          (edit_answer js) s

  unfoldable pub edit_message : Decoders → Text → ForumScraper → Posting (Unit {0})
  edit_message js text s = if s.logged_in then on_thread net want (edit_open js text) s else fails s

  -- The text of a reply, behind a reference to the post that it answers.
  unfoldable pub reply_body : Text → Text
  reply_body text = if ltb_ℤ (pos 0) num then b'#' ∷ print_int num ++ codes " " ++ text else text

  unfoldable pub reply_open : Text → ForumScraper → Posting (Unit {0})
  reply_open text s =
      if is_empty s.csrf_token || is_empty s.thread_id || is_empty s.forum_id
      then fails s
      else do_post net
          (record {
            url = codes "https://www.mediavida.com/foro/action/poster.php";
            form =
                (codes "token", s.csrf_token)
                ∷ (codes "cabecera", [])
                ∷ (codes "fid", s.forum_id)
                ∷ (codes "tid", s.thread_id)
                ∷ (codes "pagina", s.page_num)
                ∷ (codes "cuerpo", reply_body text)
                ∷ [];
            referer = s.thread_url;
          })
          (λ status body. if leb 400 status then op_error op_failed else op_ok tt) s

  -- PostReply: `num` is replyToNum.
  unfoldable pub post_reply : Text → ForumScraper → Posting (Unit {0})
  post_reply text s = if s.logged_in then on_thread net want (reply_open text) s else fails s
