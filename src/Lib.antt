-- ===== src/Lib.antt =====
-- The Mediavida API: a server in Go that keeps one session of mediavida.com per account, polls the
-- counters of unread messages ("bubbles") of each session, and pushes what rises to devices.
--
-- Parts, and how they meet. A request passes the gate (auth.go), which finds the client of its
-- token in the session store (session.go) or behind an alias (alias.go, watch.go). A session of
-- that store holds a scraper (scraper.go), which logs in and saves its cookies to the durable
-- store (store.go); operations of the API retry around a re-login (api.go). The poller
-- (bubbles.go) walks the sessions, fetches their counters, and hands events to the hub (events.go)
-- and jobs to the push workers (fcm.go, ntfy.go), with the texts of activity.go. The data routes
-- of the API (api.go) call the scraper's operations on threads and messages for a client that the
-- gate lets through. A bot of Telegram (telegram.go) registers the chats that get the alerts of
-- moderators. A keep-alive (keepalive.go) renews the sessions, and a rate limiter (ratelimit.go)
-- stands behind the gate. The pages of mediavida.com are read by the parsers of scraper.go and
-- forums.go. The boot (main.go) restores the sessions, logs the configured tokens in and leaves
-- one session per account.
--
-- Files, and the code that they model:
-- - Base: texts as lists of bytes, maps as association lists, rows of tables, order of texts.
-- - Numbers: strconv.Atoi and the decimal print of fmt.
-- - Store (store.go): a record of the tables; Store/Sessions, Store/Tokens, Store/Notifs and
--   Store/Forums have one function per query. The first argument says whether SQLite answers.
-- - Scraper (scraper.go, api.go, forums.go): the record ForumScraper. Scraper/Cookies has
--   SaveSession, LoadSession and what they call; Scraper/Login has Login, SubmitGuard,
--   ValidateSession, RefreshSession and FetchBubbles over a record of what the requests answer;
--   Scraper/Recovery has Relogin, withRelogin and writeAPIError; Scraper/Totp has generateTOTP;
--   Scraper/Threads has FetchThread and ensureThread, Scraper/Posting the operations that post to
--   the open thread, Scraper/Messages SendPrivateMessage and CreateThread, Scraper/Pages the types
--   that the parsers of pages make.
-- - Parsers (scraper.go, forums.go): the record Dom of goquery's selections. Parsers/Texts has the
--   functions on texts, Parsers/Threads FetchFavorites, FetchUserPosts and Search, Parsers/Forums
--   FetchPortada, FetchForumIndex and FetchForumThreads, Parsers/People FetchProfile,
--   FetchMentions and FetchNotifications, Parsers/Mail FetchInbox and FetchConversation,
--   Parsers/Mods FetchModBubbles and FetchModReports, Parsers/Posts parseMessages and
--   extractMetadata, Parsers/Forms the pages of the forms.
-- - Stores (mod_forums.go, webhook.go, activity.go, fcm.go, watch.go): the small stores over the
--   durable one, a file for each.
-- - Api (api.go, watch.go): Api/Dto has the types of the answers, Api/Routes what the routes
--   share, Api/Reading, Api/Personal, Api/Writing, Api/Notices, Api/Moderators and Api/Watches one
--   function for each route, Api/Gated the dispatch over the routes behind requireAuthenticated.
--   Api/Site fills the interface of the scraper's operations with the modelled ones.
-- - Telegram (telegram.go): the bot's state, mentionsBot and handleMessage; Telegram/Admins has
--   parseTelegramAdmins, Telegram/Chats the file of chats and SendModAlert, Telegram/Updates Start
--   and pollUpdates.
-- - Sessions (session.go): the map of sessions over the tables. Sessions/Restore has Lookup, Get,
--   restoreFromRecord and RestoreAll; Sessions/Credentials has CreateFromCredentials, AutoLogin
--   and DropSession; Sessions/Canonical and Sessions/Reconcile pick one session per account.
-- - Auth (auth.go, alias.go, watch.go, api.go): Auth/Gate is APITokenMiddleware and
--   requireAuthenticated; Auth/Flows the registry of browser logins; Auth/Handlers the login,
--   status and logout handlers; Auth/Browser the two browser handlers.
-- - Activity (activity.go, fcm.go, ntfy.go): threadKey and the texts; Activity/Pushes has
--   buildActivityPushes, Activity/Sending the attempts of sendOne with their waits,
--   Activity/Fanout the jobs of FCM's NotifyBubbleIncrease and what they prune, Activity/Ntfy the
--   posts of ntfy's.
-- - Hub (events.go): subscribers and their buffered channels. Publish is split into the listing of
--   the channels and the sends, which other goroutines may come between. Hub/Stream is ServeSSE.
-- - Cache (cache.go): TTLCache; Get is split into its two looks.
-- - Poller (bubbles.go): Poller/Ticks has authedSessions, Poller/Queue the queue of poll jobs and
--   its workers as a step relation, Poller/Breaker the back-off, Poller/Favorites enrichFavorites,
--   Poller/Check checkOne, Poller/Moderation checkMod and handleNewReports, Poller/Alerts the
--   texts of the alerts, Poller/Summary the daily summary, Poller/Delivery the queue of push jobs
--   with Start and Stop.
-- - KeepAlive (keepalive.go): refreshAll, over ForEach of session.go.
-- - RateLimit (ratelimit.go): the token buckets, over an interface of float64.
-- - Program (main.go): the environment, the tokens, the paths; Program/Boot has RestoreSession and
--   what main does with the sessions.
-- - Examples: runs at concrete inputs.
-- Modules whose names end in Laws, and Activity/Keys, Auth/Unserved, Parsers/Numbers,
-- Poller/NewReports, Poller/Outage, Program/Environment, Program/Live, Program/Started, Hub/Among,
-- Hub/Serving, Scraper/Roundtrip, Scraper/OpenThread, Stores/ModForums/Lists, Telegram/Reached,
-- Telegram/Alerts and Telegram/Total, hold proofs.
--
-- Conventions. What the environment gives to a call is an argument: times in seconds (nanoseconds
-- for the waits of a push), answers to requests, draws of random numbers, whether SQLite answers.
-- Packages that the code calls are the record `Packages`: encoding/json, crypto/sha256 and
-- net/http/cookiejar. goquery is the record `Dom` of functions on its selections, and `Documents`
-- where a page is changed while it is read; what is found in the page of a thread or a form is the
-- record `ThreadDoc` or its like. A pointer that may be nil is an Option; a panic is `none`, and
-- `panicked` in the bot. The order of the entries of a map stands for Go's order of iteration.
-- Integers of Go that can be negative are ℤ; those that only count are ℕ, and the product of
-- parseRetryAfter wraps around at 64 bits. Texts are bytes. strings.ToLower, strings.ToUpper and
-- strings.EqualFold are modelled on ASCII letters only, and strings.TrimSpace and strings.Fields on
-- ASCII white space only: Go also folds the other letters of Unicode and removes its other spaces,
-- such as U+00A0, and the model leaves the bytes of both as they are, so that the theorems on what
-- folds or trims text speak of the program only where its text has none of them.
--
-- Fuel and bounds. The decimal print takes its number as fuel: a number has no more digits than
-- that. The count of skipped ticks takes 17, since a back-off is at most 16. Every other loop
-- follows its list; the loop of pollUpdates follows the list of what getUpdates answers.
--
-- Not modelled: goquery itself, the HTTP and JSON layers, locks (one operation of a store at a
-- time, but for the poll queue, the push queue and the hub), the timers, the limits and flags of
-- the process and the order of its shutdown, the web templates, the mobile app and the watch app.
pub mod Base
pub mod Numbers
pub mod Store
pub mod Scraper
pub mod Sessions
pub mod Auth
pub mod Activity
pub mod Hub
pub mod Poller
pub mod KeepAlive
pub mod RateLimit
pub mod Parsers
pub mod Program
pub mod Examples
pub mod Cache
pub mod Telegram
pub mod Stores
pub mod Api
