-- ===== src/Auth/Unserved.antt =====
-- The clients that requireAuthenticated turns away, and the server behind it.
use mediavida.Base.{◌≡◌, ◌≢◌, refl, ap, ◌∙◌, false, Text, none, some, if◌then◌else◌}
use mediavida.Store.{ok}
use mediavida.Store.Sessions.{get_session}
use mediavida.Scraper.{Packages}
use mediavida.Sessions.{
  Session, Status, pending, guard_needed, authenticated, is_authenticated, Server, Call, in_memory,
}
use mediavida.Sessions.RestoreLaws.{lookup_session-hit, lookup_session-miss, lookup_session-down}
use mediavida.Auth.Gate.{scraper, status_401, status_503, required, require_authenticated}

module _ (std : Packages) (c : Call) (id : Text) (sv : Server) where
  pub require_authenticated-missing :
      in_memory id sv.sessions ≡ none
      → get_session c.read_up id sv.db ≡ ok none
      → require_authenticated std c id sv ≡ (status_401, sv)
  unfolding require_authenticated
  require_authenticated-missing m n = ap required (lookup_session-miss std c id sv m n)

  idle_at :
      (s : Session) (t : Status)
      → t ≢ authenticated
      → (if is_authenticated t then scraper s.scraper else status_401) ≡ status_401
  idle_at s pending n = refl
  idle_at s guard_needed n = refl
  idle_at s authenticated n = absurd (n refl)

  pub require_authenticated-idle :
      (s : Session)
      → in_memory id sv.sessions ≡ some s
      → s.status ≢ authenticated
      → require_authenticated std c id sv ≡ (status_401, sv)
  unfolding require_authenticated required
  require_authenticated-idle s m n =
      ap required (lookup_session-hit std c id sv s m) ∙ ap (λ q. (q, sv)) (idle_at s s.status n)

  pub require_authenticated-unread :
      in_memory id sv.sessions ≡ none
      → c.read_up ≡ false
      → require_authenticated std c id sv ≡ (status_503, sv)
  unfolding require_authenticated
  require_authenticated-unread m d = ap required (lookup_session-down std c id sv m d)
