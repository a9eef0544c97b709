-- ===== src/Sessions/Canonical.antt =====
-- session.go: CanonicalForUser.
use mediavida.Base.{Bool, true, false, Text, Option, none, some, [], ◌∷◌, ◌&&◌, not, if◌then◌else◌}
use mediavida.Base.Strings.{equal_fold}
use mediavida.Base.Sort.{text_lt}
use mediavida.Base.Maps.{Map}
use mediavida.Sessions.{Session, is_authenticated}

-- Whether an entry of the map serves the account.
unfoldable pub serves : Text → Option Session → Bool
serves user none = false
serves user (some s) = is_authenticated s.status && equal_fold s.scraper.user user

abbrev pub bool_eq : Bool → Bool → Bool
bool_eq true b = b
bool_eq false b = not b

-- The two cases of the switch that replace the canonical ID by `id`. `none` is a nil function.
unfoldable pub replaces : Option (Text → Bool) → Text → Text → Bool
replaces none id canonical = text_lt id canonical
replaces (some is_api) id canonical =
    if is_api id && not (is_api canonical)
    then true
    else bool_eq (is_api id) (is_api canonical) && text_lt id canonical

unfoldable pub better : Option (Text → Bool) → Text → Option Text → Option Text
better is_api id none = some id
better is_api id (some canonical) = if replaces is_api id canonical then some id else some canonical

-- The loop over the map; the last argument is the canonical ID found so far.
unfoldable pub canonical_from :
    Option (Text → Bool) → Text → Map Text (Option Session) → Option Text → Option Text
canonical_from is_api user [] found = found
canonical_from is_api user ((id, p) ∷ m) found =
    canonical_from is_api user m (if serves user p then better is_api id found else found)

unfoldable pub canonical_for_user :
    Text → Option (Text → Bool) → Map Text (Option Session) → Option Text
unfolding canonical_from
canonical_for_user user is_api m = canonical_from is_api user m none
