-- ===== src/Examples.antt =====
-- Runs of the model at concrete inputs, a file per part; this one has the inputs they share.
mod Trees
mod ParserRuns
mod PushRuns
mod BootRuns
mod TotpRuns
mod PollerRuns
mod SessionRuns
mod AuthRuns
mod OtherRuns
mod Json
mod ThreadRuns
mod ApiRuns
mod TelegramRuns
use mediavida.Base.{ℕ, Bool, true, false, Text, codes, Option, none, some, List, [], ◌∷◌}
use mediavida.Base.Int.{ℤ, pos}
use mediavida.Store.{Db, empty_db, SessionRecord, SessionRow}
use mediavida.Scraper.{Cookie, SavedSession, ForumScraper, Packages}
use mediavida.Scraper.Login.{LoginNet, GuardNet, Bubbles, BubblesAnswer, object}
use mediavida.Scraper.Recovery.{ReloginNet}
use mediavida.Sessions.{Session, authenticated, Server, Call}

abbrev pub sid : Cookie
sid = record {
  name = codes "sid";
  value = codes "1";
  domain = [];
  path = [];
  expires = none;
  max_age = pos 0;
  secure = true;
  http_only = true;
}

abbrev pub ana_session : SavedSession
ana_session = record { user = codes "ana"; pass = codes "pw"; cookies = sid ∷ [] }

-- Every stored session is ana's.
abbrev pub packages : Packages
packages = record {
  marshal = λ s. codes "{}";
  unmarshal = λ t. some ana_session;
  sha256_hex = λ t. t;
  set_cookies = λ cs jar. cs;
}

abbrev pub device : Text
device = codes "app_1"

abbrev pub forum : ForumScraper
forum = record {
  user = codes "ana";
  pass = codes "pw";
  client_id = device;
  logged_in = true;
  totp_secret = [];
  jar = sid ∷ [];
  last_cookie_fingerprint = [];
  last_save_time = 0;
  csrf_token = [];
  thread_id = [];
  forum_id = [];
  page_num = [];
  thread_url = [];
}

abbrev pub offline : ReloginNet
offline = record {
  login_net = record { page = none; post = none; follow = false; home = false; cookies = [] };
  guard_net = record { post = false; home = false; cookies = [] };
  page = none;
  up = true;
  now = 100;
  totp = λ s. none;
}

abbrev pub call : Call
call = record { read_up = true; now = 100; env_secret = []; net = offline }

abbrev pub live : Session
live = record { scraper = forum; status = authenticated; guard_url = [] }

abbrev pub device_record : SessionRecord
device_record = record {
  client_id = device;
  user = codes "ana";
  pass = codes "pw";
  cookies = codes "{}";
}

abbrev pub one_session : Db
one_session = record empty_db { mv_sessions = record { rec = device_record; updated_at = 7 } ∷ [] }

abbrev pub cold : Server
cold = record { sessions = []; db = one_session }

abbrev pub warm : Server
warm = record { sessions = (device, some live) ∷ []; db = one_session }
