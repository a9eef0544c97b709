-- ===== src/Sessions/Reconcile.antt =====
-- session.go: ReconcileAccountSessions.
use mediavida.Base.{
  ℕ, ◌+◌, Bool, true, Text, Option, none, some, List, [], ◌∷◌, if◌then◌else◌, same, is_empty,
}
use mediavida.Base.Keys.{text_key}
use mediavida.Base.Strings.{to_lower}
use mediavida.Base.Sort.{text_lt}
use mediavida.Base.Maps.{Map, lookup, insert}
use mediavida.Store.{SessionRecord, ok, failed}
use mediavida.Store.Sessions.{all_sessions}
use mediavida.Store.Tokens.{add_app_alias}
use mediavida.Sessions.{Session, Server}
use mediavida.Sessions.Credentials.{drop_session}

abbrev stable_pick : Text → Option Text → Bool
stable_pick id none = true
stable_pick id (some cur) = text_lt id cur

-- The API token that serves each account, by its lower-case name.
unfoldable pub canonical_by_user :
    (Text → Bool) → Map Text (Option Session) → Map Text Text → Map Text Text
canonical_by_user is_api [] out = out
canonical_by_user is_api ((id, none) ∷ m) out = canonical_by_user is_api m out
canonical_by_user is_api ((id, some s) ∷ m) out =
    let u = to_lower s.scraper.user in
    canonical_by_user is_api m (
      if is_api id
      then (if is_empty u
          then out
          else if stable_pick id (lookup u out)
          then insert u id out
          else out)
      else out)

-- The owner onto which a record is collapsed, if it is.
unfoldable pub collapse_owner : (Text → Bool) → Map Text Text → SessionRecord → Option Text
collapse_owner is_api canonical r =
    if is_api r.client_id then none else elim (lookup (to_lower r.user) canonical) [
      | none ↦ none
      | some owner ↦ if same owner r.client_id then none else some owner
    ]

-- For each client ID: whether SQLite answers the alias's upsert, and the session's delete.
pub record Answers : Type 0 where
  pub alias_up : Text → Bool
  pub drop_up : Text → Bool

module _ (is_api : Text → Bool) (canonical : Map Text Text) (up : Answers) (now : ℕ) where
  unfoldable pub collapse : SessionRecord → Text → Server → Server
  collapse r owner sv =
      drop_session (up.drop_up r.client_id) r.client_id
        (record sv { db = (add_app_alias (up.alias_up r.client_id) r.client_id owner now sv.db).1 })

  unfoldable pub collapse_all : List SessionRecord → Server → ℕ × Server
  collapse_all [] sv = (0, sv)
  collapse_all (r ∷ rs) sv = elim (collapse_owner is_api canonical r) [
    | none ↦ collapse_all rs sv
    | some owner ↦ (let (n, sv') = collapse_all rs (collapse r owner sv) in (n + 1, sv'))
  ]

unfoldable pub reconcile : (Text → Bool) → Bool → Answers → ℕ → Server → ℕ × Server
unfolding collapse_all collapse
reconcile is_api list_up up now sv = elim (all_sessions list_up sv.db) [
  | failed ↦ (0, sv)
  | ok records ↦ collapse_all is_api (canonical_by_user is_api sv.sessions []) up now records sv
]
