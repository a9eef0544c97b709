-- ===== src/Examples/BootRuns.antt =====
-- The boot at a concrete input.
use native.Mathlib.Decide.{ℕ_discrete}
use mediavida.Base.{◌≡◌, refl, Bool, true, Text, codes, some, [], ◌∷◌}
use mediavida.Base.Keys.{text_key, text_discrete}
use mediavida.Base.Maps.{Map, lookup}
use mediavida.Base.Strings.{contains, has_prefix, starts}
use mediavida.Scraper.Login.{login, login_posted, verified, has_session}
use mediavida.Scraper.Recovery.{ReloginNet, relogin}
use mediavida.Sessions.Restore.{scraper_for}
use mediavida.Program.{is_api_token}
use mediavida.Program.Boot.{TokenEnv, BootEnv, boot}
use mediavida.Program.Live.{is_live}
use mediavida.Program.Started.{IsTaken, boot-is_live}
use mediavida.Examples.{packages, offline, call, cold, sid}

-- Mediavida takes the login.
abbrev online : ReloginNet
online = record offline {
  login_net = record {
    page = some (some (codes "csrf"));
    post = some (302, codes "/");
    follow = true;
    home = true;
    cookies = sid ∷ [];
  };
}

abbrev token_env : TokenEnv
token_env = record { get = call; retry = call; auto = record call { net = online } }

abbrev booting : BootEnv
booting = record {
  list_up = true;
  first = λ id. call;
  retry = λ id. call;
  token = λ id. token_env;
  reconcile_up = true;
  answers = record { alias_up = λ id. true; drop_up = λ id. true };
  now = 100;
  env_user = codes "ana";
  env_pass = codes "pw";
}

abbrev tokens : Map Text Bool
tokens = (codes "web", true) ∷ []

taken : (token : Text) → IsTaken packages booting.token (codes "ana") (codes "pw") token
unfolding relogin login login_posted verified has_session contains has_prefix starts scraper_for
    text_discrete ℕ_discrete
taken token db = refl

boot-is_live_example : is_live (codes "web") (boot packages booting tokens cold).1 ≡ true
unfolding is_api_token lookup text_discrete ℕ_discrete
boot-is_live_example =
    boot-is_live packages booting tokens cold (codes "web") refl refl refl (taken (codes "web"))
