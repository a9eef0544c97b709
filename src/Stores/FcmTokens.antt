-- ===== src/Stores/FcmTokens.antt =====
-- fcm.go: FCMTokenStore. Each call says first whether SQLite answers.
use mediavida.Base.{Bool, Text, List, []}
use mediavida.Store.{Db, ok, failed}
use mediavida.Store.Tokens.{add_fcm_token, remove_fcm_token, get_fcm_tokens}

unfoldable pub add : Bool → Text → Text → Db → Db
add up client_id token db = (add_fcm_token up client_id token db).1

unfoldable pub remove : Bool → Text → Text → Db → Db
remove up client_id token db = (remove_fcm_token up client_id token db).1

unfoldable pub get : Bool → Text → Db → List Text
get up client_id db = elim (get_fcm_tokens up client_id db) [ failed ↦ [] | ok tokens ↦ tokens ]
