-- ===== src/Auth/Browser.antt =====
-- auth.go: the browser handlers POST /auth/login and POST /auth/guard. The 400 for a code whose
-- session is not waiting for one is `no_pending_guard`.
use mediavida.Base.{ℕ, ◌≡◌, Text, Option, none, some, arith, text_key}
use mediavida.Base.Maps.{Map, lookup-erase_self}
use mediavida.Scraper.{ForumScraper, Packages}
use mediavida.Scraper.Cookies.{save_session}
use mediavida.Scraper.Login.{guard_required, Outcome, done, error, submit_guard}
use mediavida.Sessions.{
  Session, guard_needed, authenticated, Status, Server, set_session, in_memory,
}
use mediavida.Sessions.Restore.{lookup_session, get_of}
use mediavida.Sessions.RestoreLaws.{in_memory-set_session}
use mediavida.Sessions.Credentials.{create_from_credentials}
use mediavida.Auth.Flows.{AuthFlow, get_auth_flow, delete_auth_flow}
use mediavida.Auth.Handlers.{LoginEnv}

-- The pages: the form again with an error, the form for the code, the success, or a 400.
pub data Page : Type 0 where
  invalid_flow no_pending_guard login_form guard_form success : Page

abbrev pub Browser : Type 0
Browser = Page × Map Text AuthFlow × Server

abbrev pub IsAuthenticated : Option Session → Type 0
IsAuthenticated none = ⊥
IsAuthenticated (some s) = s.status ≡ authenticated

module _ (std : Packages) (env : LoginEnv) (flow_id : Text) where
  logged_in : Outcome × Server → Map Text AuthFlow → Browser
  logged_in (done, sv) flows = (success, delete_auth_flow flow_id flows, sv)
  logged_in (error (guard_required url), sv) flows = (guard_form, flows, sv)
  logged_in (error e, sv) flows = (login_form, flows, sv)

  login_as : Text → Text → Option Text × Map Text AuthFlow → Server → Browser
  login_as user pass (none, flows) sv = (invalid_flow, flows, sv)
  login_as user pass (some client_id, flows) sv =
      logged_in (create_from_credentials std env.create client_id user pass sv) flows

  unfoldable pub browser_login : Text → Text → Map Text AuthFlow → Server → Browser
  unfolding login_as logged_in
  browser_login user pass flows sv = login_as user pass (get_auth_flow flow_id env.now flows) sv

  coded : Text → Session → Outcome × ForumScraper → Map Text AuthFlow → Server → Browser
  coded client_id s (error e, scraper) flows sv =
      (guard_form, flows, set_session client_id (some (record s { scraper = scraper })) sv)
  coded client_id s (done, scraper) flows sv =
      let (scraper', db') = save_session std env.save_up env.now scraper sv.db in
      (
        success,
        delete_auth_flow flow_id flows,
        set_session client_id (some (record s { scraper = scraper'; status = authenticated }))
            (record sv { db = db' }),
      )

  guard_of : Text → Status → Session → Map Text AuthFlow → Server → Browser
  guard_of client_id guard_needed s flows sv =
      coded client_id s (submit_guard env.guard s.scraper) flows sv
  guard_of client_id _ s flows sv = (no_pending_guard, flows, sv)

  guard_as : Option Text × Map Text AuthFlow → Server → Browser
  guard_as (none, flows) sv = (invalid_flow, flows, sv)
  guard_as (some client_id, flows) sv =
      let (p, sv') = lookup_session std env.get client_id sv in
      elim (get_of p) [
        | none ↦ (no_pending_guard, flows, sv')
        | some s ↦ guard_of client_id s.status s flows sv'
      ]

  unfoldable pub browser_guard : Map Text AuthFlow → Server → Browser
  unfolding guard_as guard_of coded
  browser_guard flows sv = guard_as (get_auth_flow flow_id env.now flows) sv

  gone :
      (later : ℕ) (flows : Map Text AuthFlow)
      → (get_auth_flow flow_id later (delete_auth_flow flow_id flows)).0 ≡ none
  unfolding get_auth_flow delete_auth_flow
  gone later flows = ground (arith, lookup-erase_self flow_id flows)

  -- A browser login that ends in the success page uses up its flow: the flow is not found any more,
  -- at any time.
  browser_login-once :
      (user pass : Text) (flows : Map Text AuthFlow) (sv : Server) (later : ℕ)
      → (browser_login user pass flows sv).0 ≡ success
      → (get_auth_flow flow_id later (browser_login user pass flows sv).1).0 ≡ none
  unfolding browser_login
  browser_login-once user pass flows sv later h = grind (arith, h, gone)

  -- A code that ends in the success page uses up its flow, for all times, and leaves the client of
  -- the flow with an authenticated session in memory.
  pub browser_guard-IsAuthenticated :
      (id : Text) (flows : Map Text AuthFlow) (sv : Server) (later : ℕ)
      → (get_auth_flow flow_id env.now flows).0 ≡ some id
      → (browser_guard flows sv).0 ≡ success
      → ((get_auth_flow flow_id later (browser_guard flows sv).1).0 ≡ none)
        × IsAuthenticated (in_memory id (browser_guard flows sv).2.sessions)
  unfolding browser_guard
  browser_guard-IsAuthenticated id flows sv later f h =
      (grind (arith, h, gone), grind (arith, f, h, in_memory-set_session))
