-- ===== src/Poller/Alerts.antt =====
-- bubbles.go: the texts of the alerts, and what checkMod sends to the bot.
use mediavida.Base.{
  ℕ, Bool, true, false, Text, codes, Option, none, some, List, [], ◌∷◌, ◌++◌, if◌then◌else◌, ltb,
  ◌==◌, is_empty, length,
}
use mediavida.Base.Int.{ℤ}
use mediavida.Scraper.Pages.{ModReport}
use mediavida.Scraper.Threads.{print_int}
use mediavida.Telegram.{TelegramBot, Sent, take}
use mediavida.Telegram.Chats.{send_mod_alert}
use mediavida.Poller.Moderation.{
  Alert, new_report, reports_changed, reports_unread, mod_messages, ModNet, ModState,
  check_mod_forums,
}
use mediavida.Parsers.Texts.{join}

-- html.EscapeString on one byte.
unfoldable pub escape_byte : ℕ → Text
escape_byte c =
    if c == b'<'
    then codes "&lt;"
    else if c == b'>'
    then codes "&gt;"
    else if c == b'&'
    then codes "&amp;"
    else if c == 39
    then codes "&#39;"
    else if c == 34
    then codes "&#34;"
    else c ∷ []

unfoldable pub escape_string : Text → Text
escape_string [] = []
escape_string (c ∷ s) = escape_byte c ++ escape_string s

abbrev pub newline : Text
newline = 10 ∷ []

-- A line with a bold name, and an escaped value behind it.
unfoldable pub field_line : Text → Text → Text
field_line name value = codes "<b>" ++ (name ++ (codes ":</b> " ++ escape_string value))

-- A line where there is a value.
abbrev pub line_if : Bool → Text → List Text
line_if true line = line ∷ []
line_if false line = []

-- Who has reported, and since when.
unfoldable pub reporter_line : Text → ModReport → Text
reporter_line indent r =
    indent
    ++ (field_line (codes "Reportado por") r.reporter
        ++ (if is_empty r.reported_ago
            then []
            else codes " (" ++ (escape_string r.reported_ago ++ codes ")")))

abbrev pub max_body : ℕ
max_body = 400

-- The body that an alert quotes, cut behind its first 400 bytes. The sign at the end is an ellipsis
-- in UTF-8.
unfoldable pub quoted_body : Text → Text
quoted_body body =
    if ltb max_body (length body) then take max_body body ++ 226 ∷ 128 ∷ 166 ∷ [] else body

-- The red light of the first line is a character of four bytes.
unfoldable pub alert_title : Text → Text
alert_title slug =
    (240 ∷ 159 ∷ 154 ∷ 168 ∷ codes " <b>Nuevo reporte en /foro/")
    ++ (escape_string slug ++ codes "</b>")

unfoldable pub url_lines : Text → List Text
url_lines url = if is_empty url then [] else [] ∷ escape_string url ∷ []

unfoldable pub reason_lines : Text → List Text
reason_lines reason = if is_empty reason then [] else field_line (codes "Motivo") reason ∷ []

unfoldable pub reporter_lines : ModReport → List Text
reporter_lines r = if is_empty r.reporter then [] else reporter_line [] r ∷ []

unfoldable pub format_report_alert : Text → ModReport → Text
format_report_alert slug r = join newline (
    alert_title slug
    ∷ []
    ∷ field_line (codes "Hilo") r.thread_title
    ∷ field_line (codes "Autor") r.post_author
    ∷ (reporter_lines r
        ++ (reason_lines r.reason
            ++ ([] ∷ escape_string (quoted_body r.post_body) ∷ url_lines r.post_url))))

pending_text : Text → Text → ℤ → Text → Text → Text
pending_text opening slug n page fid =
    opening
    ++ (slug
        ++ (codes " (" ++ (print_int n ++ (codes " pendiente(s))." ++ (newline ++ (page ++ fid))))))

abbrev pub reports_page : Text
reports_page = codes "https://www.mediavida.com/foro/reportes.php?fid="

abbrev pub messages_page : Text
messages_page = codes "https://www.mediavida.com/mensajes/mod?fid="

-- The text that goes to the bot.
unfoldable pub alert_text : Alert → Text
unfolding pending_text
alert_text (new_report slug r) = format_report_alert slug r
alert_text (reports_changed slug fid n) =
    pending_text (codes "Cambio en reportes de /foro/") slug n reports_page fid
alert_text (reports_unread slug fid n) =
    pending_text (codes "Nuevo(s) reporte(s) en /foro/") slug n reports_page fid
alert_text (mod_messages slug fid n) =
    codes "Mensaje(s) de mod en /foro/"
    ++ (slug
        ++ (codes ": "
            ++ (print_int n ++ (codes " pendiente(s)." ++ (newline ++ (messages_page ++ fid))))))

unfoldable pub send_alerts : Text → List Alert → Option TelegramBot → List Sent
send_alerts user [] tb = []
send_alerts user (a ∷ as') tb = send_mod_alert user (alert_text a) tb ++ send_alerts user as' tb

-- checkMod of a user with these forums; without a bot nothing is fetched.
unfoldable pub check_mod :
    ModNet → Option TelegramBot → Text → List Text → ModState → List Sent × ModState
check_mod n none user slugs st = ([], st)
check_mod n (some tb) user slugs st =
    let (alerts, st') = check_mod_forums n slugs st in (send_alerts user alerts (some tb), st')
