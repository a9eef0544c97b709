-- ===== src/Poller/Summary.antt =====
-- bubbles.go: sendDailySummary and buildDailySummary.
use mediavida.Base.{
  Bool, Text, codes, Option, none, some, List, [], ◌∷◌, ◌++◌, ◌&&◌, not, if◌then◌else◌, is_empty,
  same, text_key,
}
use mediavida.Base.Int.{ℤ, pos, ltb_ℤ, int_key}
use mediavida.Base.Maps.{Map}
use mediavida.Scraper.Pages.{ModBubbles, ModReport}
use mediavida.Scraper.Threads.{print_int}
use mediavida.Stores.ModForums.{ModForums, get_forums}
use mediavida.Sessions.{Session, is_authenticated}
use mediavida.Telegram.{TelegramBot, Sent}
use mediavida.Telegram.Chats.{send_mod_alert}
use mediavida.Poller.Moderation.{ModNet}
use mediavida.Poller.Alerts.{
  escape_string, newline, field_line, line_if, reporter_line, reports_page, messages_page,
}
use mediavida.Parsers.Texts.{join}

abbrev indent : Text
indent = codes "  "

filled : Text → Bool
filled t = not (is_empty t)

-- The lines of one report, in front of those of the others. Its bullet is one character of UTF-8.
report_lines : ModReport → List Text → List Text
unfolding filled
report_lines r rest =
    []
    ∷ ((226 ∷ 128 ∷ 162 ∷ codes " <b>") ++ (escape_string r.thread_title ++ codes "</b>"))
    ∷ (line_if (filled r.post_author) (indent ++ field_line (codes "Autor") r.post_author)
        ++ (line_if (filled r.reporter) (reporter_line indent r)
            ++ (line_if (filled r.reason) (indent ++ field_line (codes "Motivo") r.reason)
                ++ (line_if (filled r.post_url) (indent ++ escape_string r.post_url) ++ rest))))

unfoldable pub reports_lines : List ModReport → List Text → List Text
unfolding report_lines
reports_lines [] rest = rest
reports_lines (r ∷ rs) rest = report_lines r (reports_lines rs rest)

counter_line : Text → ℤ → Text
counter_line name n = codes "<b>" ++ (name ++ (codes ":</b> " ++ print_int n))

-- "Resumen diario — /foro/slug", with the sign in front of it.
abbrev summary_title : Text → Text
summary_title slug =
    (240 ∷ 159 ∷ 147 ∷ 139 ∷ codes " <b>Resumen diario ")
    ++ ((226 ∷ 128 ∷ 148 ∷ codes " /foro/") ++ (escape_string slug ++ codes "</b>"))

abbrev nothing_pending : Text
nothing_pending = codes "Sin reportes ni mensajes de mod pendientes " ++ 226 ∷ 156 ∷ 133 ∷ []

-- The link to the messages of moderators ends a summary that has read the reports.
message_link : ModBubbles → List Text
message_link mb =
    if ltb_ℤ (pos 0) mb.messages then [] ∷ (messages_page ++ escape_string mb.forum_id) ∷ [] else []

-- The lines behind those of the counters. A failed read of the reports ends the summary.
summary_rest : ModNet → ModBubbles → List Text
unfolding message_link
summary_rest n mb =
    if ltb_ℤ (pos 0) mb.reports
    then elim (n.mod_reports mb.forum_id) [
      | none ↦ [] ∷ (reports_page ++ escape_string mb.forum_id) ∷ []
      | some rs ↦ reports_lines rs (message_link mb)
    ]
    else message_link mb

unfoldable pub build_daily_summary : ModNet → Text → ModBubbles → Text
unfolding summary_rest counter_line
build_daily_summary n slug mb = join newline (
    if same mb.reports (pos 0) && same mb.messages (pos 0)
    then summary_title slug ∷ [] ∷ nothing_pending ∷ []
    else (summary_title slug
        ∷ counter_line (codes "Reportes pendientes") mb.reports
        ∷ (line_if (ltb_ℤ (pos 0) mb.messages)
              (counter_line (codes "Mensajes de mod pendientes") mb.messages)
            ++ summary_rest n mb)))

-- The summaries of one user's forums; one that fails or that the user does not moderate is left out.
unfoldable pub summaries : ModNet → Option TelegramBot → Text → List Text → List Sent
summaries n tb user [] = []
summaries n tb user (slug ∷ slugs) =
    let rest = summaries n tb user slugs in
    elim (n.mod_bubbles slug) [
      | none ↦ rest
      | some none ↦ rest
      | some (some mb) ↦ send_mod_alert user (build_daily_summary n slug mb) tb ++ rest
    ]

-- sendDailySummary, over the sessions; `nets` is what Mediavida answers each client. `none` is the
-- panic at `s.Status` of a nil *Session.
unfoldable pub send_daily_summary :
    (Text → ModNet)
    → Option TelegramBot
    → ModForums
    → Map Text (Option Session)
    → Option (List Sent)
send_daily_summary nets tb forums [] = some []
send_daily_summary nets tb forums ((id, none) ∷ m) = none
send_daily_summary nets tb forums ((id, some s) ∷ m) =
    let user = s.scraper.user in
    let own : List Sent =
      if is_authenticated s.status
      then summaries (nets id) tb user (get_forums user forums)
      else [] in
    elim (send_daily_summary nets tb forums m) [ none ↦ none | some sent ↦ some (own ++ sent) ]
