-- ===== src/Examples/SessionRuns.antt =====
-- The session store and the scraper's session at concrete inputs.
use native.Mathlib.Decide.{ℕ_discrete}
use mediavida.Base.{◌≡◌, refl, Bool, true, Text, codes, none, some, [], ◌∷◌, same}
use mathlib.Core.List.Perm.{swap}
use mediavida.Base.Keys.{text_key, text_discrete}
use mediavida.Base.Maps.{lookup, insert}
use mediavida.Base.Rows.{select}
use mediavida.Base.Strings.{to_lower, lower_byte, has_prefix, contains, starts}
use mediavida.Store.{ok}
use mediavida.Store.Sessions.{get_session, all_sessions}
use mediavida.Scraper.{Cookie, ForumScraper, SavedSession, Packages}
use mediavida.Scraper.Cookies.{auth_cookie_fingerprint}
use mediavida.Scraper.Login.{login, login_posted, guard_url}
use mediavida.Scraper.Recovery.{
  ReloginNet, relogin, with_relogin, api_status, op_error, op_expired, Op, is_plain_failure,
  is_guard_error,
}
use mediavida.Scraper.Laws.{with_relogin_401, RedirectsToGuard}
use mediavida.Sessions.{Server, Call}
use mediavida.Sessions.Canonical.{canonical_for_user}
use mediavida.Sessions.CanonicalLaws.{
  HasServing, NoneBetter, canonical_for_user-best, canonical_for_user-perm,
}
use mediavida.Sessions.Reconcile.{
  canonical_by_user, collapse_owner, Answers, reconcile, collapse_all,
}
use mediavida.Sessions.ReconcileLaws.{view, reconcile-MayStay, view-reconcile, MayStay}
use mediavida.Examples.{
  packages, device, device_record, one_session, forum, live, cold, call, offline, sid, ana_session,
}

abbrev token : Text
token = codes "api_key"

abbrev tokens : Text → Bool
tokens t = same t token

-- The account of the device has an API token with a session, too.
abbrev doubled : Server
doubled = record { sessions = (token, some live) ∷ (device, some live) ∷ []; db = one_session }

abbrev answers : Answers
answers = record { alias_up = λ a. true; drop_up = λ a. true }

owner_is_token :
    collapse_owner tokens (canonical_by_user tokens doubled.sessions []) device_record ≡ some token
unfolding collapse_owner canonical_by_user to_lower lower_byte lookup insert text_discrete
    ℕ_discrete
owner_is_token = refl

device_stored : get_session true device doubled.db ≡ ok (some device_record)
unfolding get_session select text_discrete ℕ_discrete
device_stored = refl

view-reconcile_example :
    view device (reconcile tokens true answers 50 doubled).1
    ≡ elim (collapse_owner tokens (canonical_by_user tokens doubled.sessions []) device_record) [
      | none ↦ view device doubled
      | some o ↦ (ok none, ok (some o), none)
    ]
unfolding select
view-reconcile_example =
    view-reconcile tokens answers 50 doubled (λ a. refl) (λ a. refl) (refl, tt) device device_record
      device_stored

canonical_for_user-best_example :
    ((id : Text)
      → canonical_for_user (codes "Ana") (some tokens) doubled.sessions ≡ some id
      → HasServing (codes "Ana") id doubled.sessions
        × NoneBetter (some tokens) (codes "Ana") id doubled.sessions)
    × (canonical_for_user (codes "Ana") (some tokens) doubled.sessions ≡ none
        → (id : Text) → ¬ HasServing (codes "Ana") id doubled.sessions)
canonical_for_user-best_example =
    canonical_for_user-best (codes "Ana") (some tokens) doubled.sessions

-- A net in which the log-in works at once.
abbrev online : ReloginNet
online = record offline {
  login_net = record {
    page = some (some (codes "t"));
    post = some (200, []);
    follow = true;
    home = true;
    cookies = sid ∷ [];
  };
}

-- A net in which Mediavida asks for a code.
abbrev guarded_net : ReloginNet
guarded_net = record offline {
  login_net = record {
    page = some (some (codes "t"));
    post = some (302, codes "/login/guard/1");
    follow = true;
    home = true;
    cookies = [];
  };
}

abbrev expired : Op (Unit {0})
expired s = (op_error op_expired, s)

with_relogin_401_example : (forum.totp_secret ≡ []) × RedirectsToGuard guarded_net.login_net.post
unfolding with_relogin relogin login login_posted contains starts guard_url has_prefix api_status
    is_plain_failure is_guard_error
with_relogin_401_example =
    with_relogin_401 packages guarded_net expired expired forum one_session refl

abbrev old_session : SavedSession
old_session = record ana_session { cookies = record sid { expires = some 9 } ∷ [] }

abbrev old_packages : Packages
old_packages = record packages { unmarshal = λ t. some old_session }

abbrev stale_call : Call
stale_call = record call { net = online }

reconcile-MayStay_example : MayStay tokens (canonical_by_user tokens cold.sessions []) device_record
unfolding reconcile collapse_all collapse_owner canonical_by_user all_sessions get_session select
    lookup text_discrete ℕ_discrete
reconcile-MayStay_example =
    reconcile-MayStay tokens answers 50 cold (λ a. refl) (λ a. refl) (refl, tt) device device_record
      refl

canonical_for_user-perm_example :
    canonical_for_user (codes "ana") (some tokens) doubled.sessions
    ≡ canonical_for_user (codes "ana") (some tokens) ((device, some live) ∷ (token, some live) ∷ [])
canonical_for_user-perm_example =
    canonical_for_user-perm (codes "ana") (some tokens)
      (swap (device, some live) (token, some live) [])

abbrev other : Cookie
other = record sid { name = codes "_t" }

abbrev sess : Cookie
sess = record sid { name = codes "sess" }

-- A scraper that has saved the cookies of its jar in the other order.
abbrev saved_forum : ForumScraper
saved_forum = record forum {
  jar = sess ∷ other ∷ [];
  last_cookie_fingerprint = auth_cookie_fingerprint packages (other ∷ sess ∷ []);
}
