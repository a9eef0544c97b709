-- ===== src/Sessions/ReconcileLaws.antt =====
-- One Mediavida session per account: what ReconcileAccountSessions leaves.
use mediavida.Base.{
  ℕ, ◌≡◌, refl, Bool, true, Text, Option, none, some, List, [], ◌∷◌, map, ◌⊎◌, inl, inr, arith,
  if◌then◌else◌, Option-cases, same,
}
use mediavida.Base.Keys.{text_key}
use mediavida.Base.Strings.{to_lower}
use mediavida.Base.Rows.{select, IsKeyed}
use mediavida.Base.Maps.{Map, lookup, lookup-insert, lookup-erase}
use mediavida.Store.{SessionRecord, SessionRow, Db, Reply, ok}
use mediavida.Store.Sessions.{get_session, all_sessions, session_key}
use mediavida.Store.Tokens.{add_app_alias, get_app_alias_owner}
use mediavida.Store.Sessions.{delete_session}
use mediavida.Store.Laws.{get_session-delete_session, get_app_alias_owner-add_app_alias}
use mediavida.Sessions.{Session, Server, in_memory}
use mediavida.Sessions.Credentials.{drop_session}
use mediavida.Sessions.Reconcile.{
  canonical_by_user, collapse_owner, Answers, collapse, collapse_all, reconcile,
}

-- What there is of a client: the durable session, the owner of its alias, the session in memory.
abbrev pub View : Type 0
View = Reply (Option SessionRecord) × Reply (Option Text) × Option Session

pub view : Text → Server → View
view a sv = (get_session true a sv.db, get_app_alias_owner true a sv.db, in_memory a sv.sessions)

pub get_session-add_app_alias :
    (up : Bool) (t o : Text) (now : ℕ) (a : Text) (db : Db)
    → get_session true a (add_app_alias up t o now db).1 ≡ get_session true a db
unfolding get_session add_app_alias
get_session-add_app_alias up t o now a db = ground arith

pub get_app_alias_owner-delete_session :
    (up : Bool) (b a : Text) (db : Db)
    → get_app_alias_owner true a (delete_session up b db).1 ≡ get_app_alias_owner true a db
unfolding get_app_alias_owner delete_session
get_app_alias_owner-delete_session up b a db = ground arith

module _ (is_api : Text → Bool) (canonical : Map Text Text) (up : Answers) (now : ℕ)
    (alias_up : (a : Text) → up.alias_up a ≡ true)
    (drop_up : (a : Text) → up.drop_up a ≡ true) where
  view-collapse :
      (r : SessionRecord) (owner a : Text) (sv : Server)
      → view a (collapse is_api canonical up now r owner sv)
        ≡ (if same r.client_id a then (ok none, ok (some owner), none) else view a sv)
  unfolding view collapse drop_session in_memory
  view-collapse r owner a sv = ground (
    arith,
    alias_up r.client_id,
    drop_up r.client_id,
    get_session-delete_session r.client_id a (add_app_alias true r.client_id owner now sv.db).1,
    get_session-add_app_alias true r.client_id owner now a sv.db,
    get_app_alias_owner-delete_session true r.client_id a
        (add_app_alias true r.client_id owner now sv.db).1,
    get_app_alias_owner-add_app_alias r.client_id owner now a sv.db,
    lookup-erase r.client_id a sv.sessions,
  )

  abbrev recs : List SessionRow → List SessionRecord
  recs = map (λ (r : SessionRow). r.rec)

  abbrev run : List SessionRow → Server → Server
  run rows sv = (collapse_all is_api canonical up now (recs rows) sv).1

  -- A client with no row is left as it is.
  view-run_absent :
      (rows : List SessionRow) (a : Text) (sv : Server)
      → select session_key a rows ≡ none
      → view a (run rows sv) ≡ view a sv
  unfolding collapse_all select
  view-run_absent [] a sv h = refl
  view-run_absent (r ∷ rows) a sv h = elim (Option-cases (collapse_owner is_api canonical r.rec)) [
    | inl e ↦ ground (arith, e, view-run_absent rows a sv)
    | inr (o, e) ↦ ground (
      arith,
      e,
      view-run_absent rows a (collapse is_api canonical up now r.rec o sv),
      view-collapse r.rec o a sv,
    )
  ]

  -- A client with one row is collapsed onto the row's owner, if there is one.
  view-run :
      (rows : List SessionRow) (a : Text) (row : SessionRow) (sv : Server)
      → IsKeyed session_key rows
      → select session_key a rows ≡ some row
      → view a (run rows sv) ≡ elim (collapse_owner is_api canonical row.rec) [
        | none ↦ view a sv
        | some o ↦ (ok none, ok (some o), none)
      ]
  unfolding collapse_all select
  view-run [] a row sv k h = cc
  view-run (r ∷ rows) a row sv k h = elim (Option-cases (collapse_owner is_api canonical r.rec)) [
    | inl e ↦ ground (arith, e, k.0, view-run_absent rows a sv, view-run rows a row sv k.1)
    | inr (o, e) ↦
        (let sv' = collapse is_api canonical up now r.rec o sv in
          ground (
            arith,
            e,
            k.0,
            view-run_absent rows a sv',
            view-run rows a row sv' k.1,
            view-collapse r.rec o a sv,
          ))
  ]

  -- What is left of a client that has a session behind the run is not to be collapsed.
  left-run :
      (rows : List SessionRow) (a : Text) (r : SessionRecord) (sv : Server)
      → IsKeyed session_key rows
      → (view a sv).0 ≡ get_session true a (record sv.db { mv_sessions = rows })
      → (view a (run rows sv)).0 ≡ ok (some r)
      → collapse_owner is_api canonical r ≡ none
  unfolding get_session
  left-run rows a r sv k e h = elim (Option-cases (select session_key a rows)) [
    | inl miss ↦ ground (arith, miss, view-run_absent rows a sv)
    | inr (row, hit) ↦ elim (Option-cases (collapse_owner is_api canonical row.rec)) [
      | inl kept ↦ ground (arith, hit, kept, view-run rows a row sv k)
      | inr (o, gone) ↦ ground (arith, hit, gone, view-run rows a row sv k)
    ]
  ]

-- Every canonical owner is an API token.
canonical_by_user-is_api :
    (is_api : Text → Bool) (m : Map Text (Option Session)) (out : Map Text Text)
    → ((u id : Text) → lookup u out ≡ some id → is_api id ≡ true)
    → (u id : Text) → lookup u (canonical_by_user is_api m out) ≡ some id
    → is_api id ≡ true
unfolding canonical_by_user
canonical_by_user-is_api is_api [] out h = h
canonical_by_user-is_api is_api ((i, none) ∷ m) out h = canonical_by_user-is_api is_api m out h
canonical_by_user-is_api is_api ((i, some s) ∷ m) out h =
    canonical_by_user-is_api is_api m _
      (λ u id. grind (arith, h u id, lookup-insert (to_lower s.scraper.user) u i out))

-- The record stays: its client is an API token, or no API token serves its account, or it is that
-- token's own.
abbrev pub MayStay : (Text → Bool) → Map Text Text → SessionRecord → Type 0
MayStay is_api canonical r =
    (is_api r.client_id ≡ true)
    ⊎ (lookup (to_lower r.user) canonical ≡ none)
    ⊎ (lookup (to_lower r.user) canonical ≡ some r.client_id)

MayStay-collapse_owner :
    (is_api : Text → Bool) (canonical : Map Text Text) (r : SessionRecord)
    → collapse_owner is_api canonical r ≡ none
    → MayStay is_api canonical r
unfolding collapse_owner
MayStay-collapse_owner is_api canonical r h = ground arith

module _ (is_api : Text → Bool) (up : Answers) (now : ℕ) (sv : Server)
    (alias_up : (a : Text) → up.alias_up a ≡ true) (drop_up : (a : Text) → up.drop_up a ≡ true)
    (keyed : IsKeyed session_key sv.db.mv_sessions) where
  abbrev canonical : Map Text Text
  canonical = canonical_by_user is_api sv.sessions []

  abbrev reconciled : Server
  reconciled = (reconcile is_api true up now sv).1

  reconciled-run : reconciled ≡ run is_api canonical up now alias_up drop_up sv.db.mv_sessions sv
  unfolding reconcile all_sessions
  reconciled-run = refl

  -- By a store that answers and has one record per client, a recorded session is collapsed exactly
  -- when `collapse_owner` names an owner for it: then its durable and its live session are gone and
  -- its token is an alias of the owner. Any other recorded session is left, with its alias and its
  -- live session, as it was.
  pub view-reconcile :
      (a : Text) (r : SessionRecord)
      → get_session true a sv.db ≡ ok (some r)
      → view a reconciled ≡ elim (collapse_owner is_api canonical r) [
        | none ↦ view a sv
        | some o ↦ (ok none, ok (some o), none)
      ]
  unfolding get_session
  view-reconcile a r h =
      rw reconciled-run (go (Option-cases (select session_key a sv.db.mv_sessions)))
    where
      go :
          ((select session_key a sv.db.mv_sessions ≡ none)
            ⊎ ((row : SessionRow) × (select session_key a sv.db.mv_sessions ≡ some row)))
          → view a (run is_api canonical up now alias_up drop_up sv.db.mv_sessions sv)
            ≡ elim (collapse_owner is_api canonical r) [
              | none ↦ view a sv
              | some o ↦ (ok none, ok (some o), none)
            ]
      go (inl miss) = ground (arith, miss)
      go (inr (row, hit)) = ground (
        arith,
        hit,
        view-run is_api canonical up now alias_up drop_up sv.db.mv_sessions a row sv keyed hit,
      )

  -- After a reconciliation by a store that answers, each durable session that is left is that of an
  -- API token, or of an account without a canonical API token, or the canonical one.
  pub reconcile-MayStay :
      (a : Text) (r : SessionRecord)
      → get_session true a reconciled.db ≡ ok (some r)
      → MayStay is_api canonical r
  unfolding view
  reconcile-MayStay a r h = MayStay-collapse_owner is_api canonical r (
      left-run is_api canonical up now alias_up drop_up sv.db.mv_sessions a r sv keyed refl
        (rw reconciled-run at h))

  -- The owner of a collapsed session is an API token, so it is never collapsed itself.
  pub collapse_owner-is_api :
      (r : SessionRecord) (o : Text) → collapse_owner is_api canonical r ≡ some o → is_api o ≡ true
  unfolding collapse_owner
  collapse_owner-is_api r o h =
      canonical_by_user-is_api is_api sv.sessions [] (λ u id e. unfold lookup in cc e)
        (to_lower r.user) o (ground arith)
