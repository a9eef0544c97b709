-- ===== src/Scraper/Roundtrip.antt =====
-- A saved session read back.
use mediavida.Base.{
  ℕ, ◌+◌, ◌≤◌, ◌≡◌, ◌≢◌, refl, ap, true, false, none, some, List, [], ◌∷◌, map, arith, text_key,
  All,
}
use mediavida.Base.Int.{pos, int_key}
use mediavida.Base.Sort.{sort_strings}
use mediavida.Store.{Db}
use mediavida.Store.Laws.{get_session-put_session}
use mediavida.Scraper.{Cookie, SavedSession, ForumScraper, Packages}
use mediavida.Scraper.Cookies.{
  month, saved_cookie, is_stale, live_cookies, auth_pairs, join_zero, auth_cookie_fingerprint,
  session_record, save_session, load_from_record, load_session, new_scraper, with_credentials,
}

-- A cookie as net/http/cookiejar returns it: with no expiry of its own.
abbrev pub IsReadBack : Cookie → Type 0
IsReadBack c = (c.expires ≡ none) × (c.max_age ≡ pos 0)

saved_cookie-is_stale :
    (now later : ℕ) (c : Cookie)
    → IsReadBack c
    → later ≤ now + month
    → is_stale later (saved_cookie now c) ≡ false
unfolding saved_cookie is_stale
saved_cookie-is_stale now later c h le = ground arith

live_cookies-map-saved_cookie :
    (now later : ℕ) (cs : List Cookie)
    → All IsReadBack cs
    → later ≤ now + month
    → live_cookies later (map (saved_cookie now) cs) ≡ map (saved_cookie now) cs
unfolding live_cookies
live_cookies-map-saved_cookie now later [] h le = refl
live_cookies-map-saved_cookie now later (c ∷ cs) h le =
    rw (saved_cookie-is_stale now later c h.0 le, live_cookies-map-saved_cookie now later cs h.1 le)

auth_pairs-map-saved_cookie :
    (now : ℕ) (cs : List Cookie) → auth_pairs (map (saved_cookie now) cs) ≡ auth_pairs cs
unfolding auth_pairs saved_cookie
auth_pairs-map-saved_cookie now [] = refl
auth_pairs-map-saved_cookie now (c ∷ cs) = ground (arith, auth_pairs-map-saved_cookie now cs)

-- What SaveSession hands to encoding/json.
abbrev pub written : ℕ → ForumScraper → SavedSession
written now s = record { user = s.user; pass = s.pass; cookies = map (saved_cookie now) s.jar }

module _ (std : Packages) where
  fingerprint-map-saved_cookie :
      (now : ℕ) (cs : List Cookie)
      → auth_cookie_fingerprint std (map (saved_cookie now) cs) ≡ auth_cookie_fingerprint std cs
  unfolding auth_cookie_fingerprint
  fingerprint-map-saved_cookie now cs =
      ap (λ l. std.sha256_hex (join_zero (sort_strings l))) (auth_pairs-map-saved_cookie now cs)

  module _ (now later : ℕ) (s : ForumScraper) where
    load_saved :
        std.unmarshal (std.marshal (written now s)) ≡ some (written now s)
        → std.set_cookies (map (saved_cookie now) s.jar) [] ≡ s.jar
        → s.user ≢ []
        → s.jar ≢ []
        → All IsReadBack s.jar
        → later ≤ now + month
        → load_from_record std later (session_record std now s) (new_scraper [] [] s.client_id) ≡ (
          true,
          record (new_scraper [] [] s.client_id) {
            user = s.user;
            pass = s.pass;
            jar = s.jar;
            last_cookie_fingerprint = auth_cookie_fingerprint std s.jar;
            logged_in = true;
          },
        )
    unfolding load_from_record session_record new_scraper with_credentials
    load_saved json jar u j b le = ground (
      arith,
      json,
      jar,
      live_cookies-map-saved_cookie now later s.jar b le,
      fingerprint-map-saved_cookie now s.jar,
    )

    -- A session that SaveSession has written, its auth cookies being others than those of the last
    -- save, is loaded by a fresh scraper of the same client for the 30 days that follow: with the
    -- user, the password, the cookies of the jar and their fingerprint. SQLite answers; the user is not empty, nor is
    -- the jar, which returns cookies with no expiry; encoding/json reads back the session that it
    -- wrote; and an empty jar that is given the saved cookies returns those that the old one did.
    pub load_session-save_session :
        (db : Db)
        → std.unmarshal (std.marshal (written now s)) ≡ some (written now s)
        → std.set_cookies (map (saved_cookie now) s.jar) [] ≡ s.jar
        → s.last_cookie_fingerprint ≢ auth_cookie_fingerprint std s.jar
        → s.user ≢ []
        → s.jar ≢ []
        → All IsReadBack s.jar
        → later ≤ now + month
        → load_session std true later
            (new_scraper [] [] s.client_id)
            (save_session std true now s db).1
          ≡ (
            true,
            record (new_scraper [] [] s.client_id) {
              user = s.user;
              pass = s.pass;
              jar = s.jar;
              last_cookie_fingerprint = auth_cookie_fingerprint std s.jar;
              logged_in = true;
            },
          )
    unfolding load_session save_session
    load_session-save_session db json jar changed u j b le = ground (
      arith,
      load_saved json jar u j b le,
      client,
      get_session-put_session (session_record std now s) now s.client_id db,
      client_new,
    )
      where
        client : (session_record std now s).client_id ≡ s.client_id
        client = unfold session_record in refl

        client_new : (new_scraper [] [] s.client_id).client_id ≡ s.client_id
        client_new = unfold new_scraper in refl
