-- ===== src/Sessions/RestoreLaws.antt =====
-- What Lookup promises.
use mathlib.Core.Path.{subst}
use mediavida.Base.{
  ◌≡◌, ◌≢◌, ◌↔◌, refl, true, false, Text, Option, none, some, List, [], ◌∷◌, arith, if◌then◌else◌,
  is_empty, same, Option-cases, Bool-cases, sym, inl, inr, All,
}
use mediavida.Base.Keys.{text_key}
use mediavida.Base.Maps.{lookup-insert}
use mediavida.Store.{SessionRecord, Db, ok, failed}
use mediavida.Store.Sessions.{get_session, all_sessions}
use mediavida.Store.Laws.{client_id-get_session}
use mediavida.Scraper.{Packages}
use mediavida.Scraper.Cookies.{load_from_record}
use mediavida.Sessions.{Session, authenticated, Server, Call, in_memory, set_session}
use mediavida.Sessions.Restore.{
  scraper_for, live_session, restore_from_record, lookup_session, restore_all, restore_each,
  attempt, get_of,
}

pub in_memory-set_session :
    (a b : Text) (p : Option Session) (sv : Server)
    → in_memory b (set_session a p sv).sessions ≡ (if same a b then p else in_memory b sv.sessions)
unfolding in_memory set_session
in_memory-set_session a b p sv = ground (arith, lookup-insert a b p sv.sessions)

pub db-set_session : (a : Text) (p : Option Session) (sv : Server) → (set_session a p sv).db ≡ sv.db
unfolding set_session
db-set_session a p sv = refl

module _ (std : Packages) (c : Call) where
  -- Lookup reports the store as unavailable exactly when the session is not in memory and SQLite
  -- does not answer.
  pub lookup_session-failed :
      (id : Text) (sv : Server)
      → ((lookup_session std c id sv).0 ≡ failed)
        ↔ ((in_memory id sv.sessions ≡ none) × (c.read_up ≡ false))
  unfolding lookup_session get_session
  lookup_session-failed id sv = (ground arith, ground arith)

  -- A session that Lookup returns is in memory afterwards, under the same client.
  pub lookup_session-in_memory :
      (id : Text) (sv : Server) (s : Session)
      → (lookup_session std c id sv).0 ≡ ok (some s)
      → in_memory id (lookup_session std c id sv).1.sessions ≡ some s
  unfolding lookup_session
  lookup_session-in_memory id sv s h = ground arith

  pub lookup_session-hit :
      (id : Text) (sv : Server) (s : Session)
      → in_memory id sv.sessions ≡ some s
      → lookup_session std c id sv ≡ (ok (some s), sv)
  unfolding lookup_session
  lookup_session-hit id sv s h = ground arith

  pub lookup_session-miss :
      (id : Text) (sv : Server)
      → in_memory id sv.sessions ≡ none
      → get_session c.read_up id sv.db ≡ ok none
      → lookup_session std c id sv ≡ (ok none, sv)
  unfolding lookup_session
  lookup_session-miss id sv h n = ground arith

  pub lookup_session-down :
      (id : Text) (sv : Server)
      → in_memory id sv.sessions ≡ none
      → c.read_up ≡ false
      → lookup_session std c id sv ≡ (failed, sv)
  unfolding lookup_session get_session
  lookup_session-down id sv h n = ground arith

  restore-others :
      (r : SessionRecord) (b : Text) (sv : Server)
      → r.client_id ≢ b
      → in_memory b (restore_from_record std c r sv).1.sessions ≡ in_memory b sv.sessions
  unfolding restore_from_record
  restore-others r b sv h = grind (arith, in_memory-set_session)

  -- Lookup of one client leaves what is in memory for every other client.
  pub lookup_session-others :
      (id b : Text) (sv : Server)
      → id ≢ b
      → in_memory b (lookup_session std c id sv).1.sessions ≡ in_memory b sv.sessions
  unfolding lookup_session
  lookup_session-others id b sv h =
      grind (arith, client_id-get_session c.read_up id sv.db, restore-others)

  -- A record with a usable cookie is trusted as it is: no request is made, nothing is written, and
  -- Lookup answers with an authenticated session of the record's client.
  pub lookup_session-trusts :
      (id : Text) (sv : Server) (r : SessionRecord)
      → in_memory id sv.sessions ≡ none
      → get_session c.read_up id sv.db ≡ ok (some r)
      → (load_from_record std c.now r (scraper_for c.env_secret [] [] id)).0 ≡ true
      → (s : Session) × ((lookup_session std c id sv).0 ≡ ok (some s))
        × (s.status ≡ authenticated)
        × ((lookup_session std c id sv).1.db ≡ sv.db)
  unfolding lookup_session restore_from_record
  lookup_session-trusts id sv r miss found usable = (
    live_session (load_from_record std c.now r (scraper_for c.env_secret [] [] id)).1,
    grind (arith, client_id-get_session c.read_up id sv.db r, in_memory-set_session),
    unfold live_session in refl,
    grind (arith, client_id-get_session c.read_up id sv.db r, db-set_session),
  )

-- The record is what the store has for its client, and has a usable cookie.
abbrev pub IsLoadable : Packages → (Text → Call) → Db → SessionRecord → Type 0
IsLoadable std calls db r =
    ((calls r.client_id).read_up ≡ true)
    × (get_session true r.client_id db ≡ ok (some r))
    × ((load_from_record std (calls r.client_id).now r
          (scraper_for (calls r.client_id).env_secret [] [] r.client_id)).0
        ≡ true)

module _ (std : Packages) (first retry : Text → Call) where
  attempt_loadable :
      (r : SessionRecord) (sv : Server)
      → IsLoadable std first sv.db r
      → (attempt std first retry r (lookup_session std (first r.client_id) r.client_id sv)).0 ≡ 0
  unfolding attempt get_of
  attempt_loadable r sv h = elim (Option-cases (in_memory r.client_id sv.sessions)) [
    | inl miss ↦
        (let t =
            lookup_session-trusts std (first r.client_id) r.client_id sv r miss (rw h.0 h.1) h.2 in
          ground (arith, t.1))
    | inr hit ↦
        ground (arith, lookup_session-hit std (first r.client_id) r.client_id sv hit.0 hit.1)
  ]

  db-attempt_loadable :
      (r : SessionRecord) (sv : Server)
      → IsLoadable std first sv.db r
      → (attempt std first retry r (lookup_session std (first r.client_id) r.client_id sv)).1.db
        ≡ sv.db
  unfolding attempt get_of
  db-attempt_loadable r sv h = elim (Option-cases (in_memory r.client_id sv.sessions)) [
    | inl miss ↦
        (let t =
            lookup_session-trusts std (first r.client_id) r.client_id sv r miss (rw h.0 h.1) h.2 in
          ground (arith, t.1, t.3))
    | inr hit ↦
        ground (arith, lookup_session-hit std (first r.client_id) r.client_id sv hit.0 hit.1)
  ]

  restore_each-loadable :
      (rs : List SessionRecord) (sv : Server)
      → All (IsLoadable std first sv.db) rs
      → (restore_each std first retry rs sv).0 ≡ 0
  unfolding restore_each
  restore_each-loadable [] sv h = refl
  restore_each-loadable (r ∷ rs) sv h = elim (Bool-cases (is_empty r.client_id)) [
    | inl e ↦ rw e (omega (arith, restore_each-loadable rs sv h.1))
    | inr e ↦
        let sv' : Server =
          (attempt std first retry r (lookup_session std (first r.client_id) r.client_id sv)).1 in
        let kept =
          subst (λ db. All (IsLoadable std first db) rs) (sym (db-attempt_loadable r sv h.0)) h.1 in
        rw (e, attempt_loadable r sv h.0) (omega (arith, restore_each-loadable rs sv' kept))
  ]

  -- RestoreAll answers 0 when SQLite answers and each record of the store has a usable cookie: Get
  -- has restored the record before the count is reached.
  pub restore_all-count :
      (records : List SessionRecord) (sv : Server)
      → all_sessions true sv.db ≡ ok records
      → All (IsLoadable std first sv.db) records
      → (restore_all std first retry true sv).0 ≡ 0
  unfolding restore_all
  restore_all-count records sv listed h = ground (arith, restore_each-loadable records sv h)
