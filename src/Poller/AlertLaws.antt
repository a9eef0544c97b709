-- ===== src/Poller/AlertLaws.antt =====
-- What the fields of a report can put into the alert about it.
use mediavida.Base.{
  ℕ, suc, ◌+◌, ◌≡◌, refl, ◌∙◌, Text, codes, List, [], ◌∷◌, ◌++◌, arith, if◌then◌else◌, ◌==◌,
  is_empty,
}
use mediavida.Scraper.Pages.{ModReport}
use mediavida.Parsers.Texts.{join}
use mediavida.Poller.Alerts.{
  escape_byte, escape_string, newline, field_line, reporter_line, quoted_body, alert_title,
  url_lines, reason_lines, reporter_lines, format_report_alert,
}

-- How many tags a text opens or closes.
unfoldable pub tags : Text → ℕ
tags [] = 0
tags (c ∷ s) = let n = tags s in if c == b'<' then suc n else n

unfoldable pub all_tags : List Text → ℕ
all_tags [] = 0
all_tags (t ∷ ts) = tags t + all_tags ts

tags-append : (s t : Text) → tags (s ++ t) ≡ tags s + tags t
unfolding tags
tags-append [] t = omega arith
tags-append (c ∷ s) t = ground (arith, tags-append s t)

tags-escape_byte : (c : ℕ) → tags (escape_byte c) ≡ 0
unfolding tags escape_byte
tags-escape_byte c = ground arith

tags-escape_string : (s : Text) → tags (escape_string s) ≡ 0
unfolding escape_string tags
tags-escape_string [] = refl
tags-escape_string (c ∷ s) =
    omega (
      arith,
      tags-append (escape_byte c) (escape_string s),
      tags-escape_byte c,
      tags-escape_string s,
    )

tags-join : (ts : List Text) → tags (join newline ts) ≡ all_tags ts
unfolding join all_tags tags
tags-join [] = refl
tags-join (t ∷ []) = omega arith
tags-join (t ∷ u ∷ ts) =
    omega (arith, tags-append t (newline ++ join newline (u ∷ ts)), tags-join (u ∷ ts))

all_tags-append : (ss ts : List Text) → all_tags (ss ++ ts) ≡ all_tags ss + all_tags ts
unfolding all_tags
all_tags-append [] ts = omega arith
all_tags-append (s ∷ ss) ts = omega (arith, all_tags-append ss ts)

tags-field_line : (name value : Text) → tags (field_line name value) ≡ 2 + tags name
unfolding field_line tags
tags-field_line name value =
    omega
      (arith, tags-append name (codes ":</b> " ++ escape_string value), tags-escape_string value)

since : Text → Text
since ago = if is_empty ago then [] else codes " (" ++ (escape_string ago ++ codes ")")

tags-since : (ago : Text) → tags (since ago) ≡ 0
unfolding since tags
tags-since [] = refl
tags-since (c ∷ s) =
    omega (arith, tags-append (escape_string (c ∷ s)) (codes ")"), tags-escape_string (c ∷ s))

tags-reporter_line : (r : ModReport) → tags (reporter_line [] r) ≡ 2
unfolding reporter_line since tags
tags-reporter_line r = omega (
  arith,
  tags-append (field_line (codes "Reportado por") r.reporter) (since r.reported_ago),
  tags-field_line (codes "Reportado por") r.reporter,
  tags-since r.reported_ago,
)

tags-alert_title : (slug : Text) → tags (alert_title slug) ≡ 2
unfolding tags alert_title
tags-alert_title slug =
    omega (arith, tags-append (escape_string slug) (codes "</b>"), tags-escape_string slug)

all_tags-url_lines : (url : Text) → all_tags (url_lines url) ≡ 0
unfolding url_lines all_tags tags
all_tags-url_lines [] = refl
all_tags-url_lines (c ∷ s) = omega (arith, tags-escape_string (c ∷ s))

abbrev pub with_value : Text → ℕ
with_value t = if is_empty t then 0 else 2

all_tags-reason_lines : (reason : Text) → all_tags (reason_lines reason) ≡ with_value reason
unfolding reason_lines all_tags tags
all_tags-reason_lines [] = refl
all_tags-reason_lines (c ∷ s) = omega (arith, tags-field_line (codes "Motivo") (c ∷ s))

all_tags-reporter_lines : (r : ModReport) → all_tags (reporter_lines r) ≡ with_value r.reporter
unfolding reporter_lines all_tags
all_tags-reporter_lines r = ground (arith, tags-reporter_line r)

-- The tags of an alert are its own: three pairs, and one more for the reporter and for the reason of
-- a report that has them. No text of a forum, a user or a post adds one.
pub tags-format_report_alert :
    (slug : Text) (r : ModReport)
    → tags (format_report_alert slug r) ≡ 6 + (with_value r.reporter + with_value r.reason)
unfolding format_report_alert all_tags tags
tags-format_report_alert slug r =
    let quote : List Text = [] ∷ escape_string (quoted_body r.post_body) ∷ url_lines r.post_url in
    tags-join (
      alert_title slug
      ∷ []
      ∷ field_line (codes "Hilo") r.thread_title
      ∷ field_line (codes "Autor") r.post_author
      ∷ (reporter_lines r ++ (reason_lines r.reason ++ quote)))
    ∙ omega (
      arith,
      tags-alert_title slug,
      tags-field_line (codes "Hilo") r.thread_title,
      tags-field_line (codes "Autor") r.post_author,
      all_tags-append (reporter_lines r) (reason_lines r.reason ++ quote),
      all_tags-append (reason_lines r.reason) quote,
      all_tags-reporter_lines r,
      all_tags-reason_lines r.reason,
      tags-escape_string (quoted_body r.post_body),
      all_tags-url_lines r.post_url,
    )
