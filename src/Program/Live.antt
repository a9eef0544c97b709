-- ===== src/Program/Live.antt =====
-- No look-up, restoration, login or reconciliation takes the session of an API token out of memory.
use mediavida.Base.{
  ℕ, ◌≡◌, ap, Bool, true, false, Text, Option, none, some, List, [], ◌∷◌, arith, Option-cases, inl,
  inr,
}
use mediavida.Base.Keys.{text_key}
use mediavida.Store.{SessionRecord, Reply, ok, failed}
use mediavida.Store.Laws.{client_id-get_session}
use mediavida.Scraper.{Packages}
use mediavida.Scraper.Recovery.{renewed, relogin}
use mediavida.Sessions.{Session, Server, Call, in_memory, set_session}
use mediavida.Sessions.Restore.{scraper_for, restore_from_record, lookup_session, get_of}
use mediavida.Sessions.RestoreLaws.{in_memory-set_session}
use mediavida.Sessions.Credentials.{drop_session, auto_login}
use mediavida.Sessions.Reconcile.{
  Answers, canonical_by_user, collapse_owner, collapse, collapse_all, reconcile,
}
use mediavida.Base.Maps.{Map, lookup-erase}
use mediavida.Program.Boot.{restore_session_e, restore_session}

abbrev pub is_there : Option Session → Bool
is_there none = false
is_there (some s) = true

-- The client has a session in memory.
abbrev pub is_live : Text → Server → Bool
is_live id sv = is_there (in_memory id sv.sessions)

pub is_live-set_session :
    (a b : Text) (s : Session) (sv : Server)
    → is_live b sv ≡ true
    → is_live b (set_session a (some s) sv) ≡ true
is_live-set_session a b s sv h = ground (arith, in_memory-set_session a b (some s) sv)

pub is_live-set_session_self :
    (a : Text) (s : Session) (sv : Server) → is_live a (set_session a (some s) sv) ≡ true
is_live-set_session_self a s sv = ground (arith, in_memory-set_session a a (some s) sv)

pub got : (p : Reply (Option Session)) (s : Session) → get_of p ≡ some s → p ≡ ok (some s)
unfolding get_of
got failed s h = absurd (ground (arith, h))
got (ok p) s h = ap ok h

module _ (std : Packages) (c : Call) where
  pub is_live-restore :
      (r : SessionRecord) (b : Text) (sv : Server)
      → is_live b sv ≡ true
      → is_live b (restore_from_record std c r sv).1 ≡ true
  unfolding restore_from_record
  is_live-restore r b sv h = grind (arith, is_live-set_session)

  pub is_live-restore_self :
      (r : SessionRecord) (sv : Server)
      → (restore_from_record std c r sv).0 ≡ true
      → is_live r.client_id (restore_from_record std c r sv).1 ≡ true
  unfolding restore_from_record
  is_live-restore_self r sv h = grind (arith, is_live-set_session_self)

  pub is_live-lookup_session :
      (id b : Text) (sv : Server)
      → is_live b sv ≡ true
      → is_live b (lookup_session std c id sv).1 ≡ true
  unfolding lookup_session
  is_live-lookup_session id b sv h = grind (arith, is_live-restore)

  pub is_live-restore_session :
      (id b : Text) (sv : Server)
      → is_live b sv ≡ true
      → is_live b (restore_session std c id sv).1 ≡ true
  unfolding restore_session restore_session_e
  is_live-restore_session id b sv h = grind (arith, is_live-restore)

  pub is_live-restore_session_self :
      (id : Text) (sv : Server)
      → (restore_session std c id sv).0 ≡ true
      → is_live id (restore_session std c id sv).1 ≡ true
  unfolding restore_session restore_session_e
  is_live-restore_session_self id sv h =
      grind (arith, client_id-get_session c.read_up id sv.db, is_live-restore_self)

  pub is_live-auto_login :
      (id user pass b : Text) (sv : Server)
      → is_live b sv ≡ true
      → is_live b (auto_login std c id user pass sv).1 ≡ true
  unfolding auto_login
  is_live-auto_login id user pass b sv h = grind (arith, is_live-set_session)

  pub is_live-auto_login_self :
      (id user pass : Text) (sv : Server)
      → (relogin std c.net (scraper_for c.env_secret user pass id) sv.db).0 ≡ renewed
      → is_live id (auto_login std c id user pass sv).1 ≡ true
  unfolding auto_login
  is_live-auto_login_self id user pass sv h = grind (arith, is_live-set_session_self)

module _ (is_api : Text → Bool) (canonical : Map Text Text) (up : Answers) (now : ℕ) where
  is_live-collapse :
      (r : SessionRecord) (owner t : Text) (sv : Server)
      → collapse_owner is_api canonical r ≡ some owner
      → is_api t ≡ true
      → is_live t sv ≡ true
      → is_live t (collapse is_api canonical up now r owner sv) ≡ true
  unfolding collapse collapse_owner drop_session in_memory
  is_live-collapse r owner t sv e a h = grind (arith, lookup-erase r.client_id t sv.sessions)

  is_live-collapse_all :
      (rs : List SessionRecord) (t : Text) (sv : Server)
      → is_api t ≡ true
      → is_live t sv ≡ true
      → is_live t (collapse_all is_api canonical up now rs sv).1 ≡ true
  unfolding collapse_all
  is_live-collapse_all [] t sv a h = h
  is_live-collapse_all (r ∷ rs) t sv a h = elim (Option-cases (collapse_owner is_api canonical r)) [
    | inl e ↦ rw (e, collapse_all) (is_live-collapse_all rs t sv a h)
    | inr (o, e) ↦
        rw (e, collapse_all)
          (is_live-collapse_all rs t (collapse is_api canonical up now r o sv) a
            (is_live-collapse r o t sv e a h))
  ]

pub is_live-reconcile :
    (is_api : Text → Bool) (list_up : Bool) (up : Answers) (now : ℕ) (t : Text) (sv : Server)
    → is_api t ≡ true
    → is_live t sv ≡ true
    → is_live t (reconcile is_api list_up up now sv).1 ≡ true
unfolding reconcile
is_live-reconcile is_api list_up up now t sv a h =
    grind (arith, is_live-collapse_all is_api (canonical_by_user is_api sv.sessions []) up now)
