-- ===== src/Program.antt =====
-- main.go: the environment, the tokens, the public address and the paths of the process.
pub mod Boot
pub mod Environment
pub mod Live
pub mod Started
use mediavida.Base.{
  ℕ, ◌==◌, Bool, true, false, Text, codes, Option, none, some, List, [], ◌∷◌, ◌++◌, ◌&&◌, ◌||◌, not,
  if◌then◌else◌, same, is_empty,
}
use mediavida.Base.Keys.{text_key}
use mediavida.Base.Maps.{Map, lookup, insert}
use mediavida.Activity.{trim_right}
use mediavida.Base.Strings.{trim_space, has_prefix, cut, split}

-- os.Getenv: empty for a variable that is not set.
unfoldable pub get_env : Text → Map Text Text → Text
get_env k env = elim (lookup k env) [ none ↦ [] | some v ↦ v ]

unfoldable pub has_byte : ℕ → Text → Bool
has_byte b [] = false
has_byte b (c ∷ s) = c == b || has_byte b s

-- os.Setenv: an error, which the caller ignores, for an empty name, or a name with an `=` or a 0 byte, or
-- a value with a 0 byte.
unfoldable pub set_env : Text → Text → Map Text Text → Map Text Text
set_env k v env =
    if is_empty k || (has_byte b'=' k || (has_byte 0 k || has_byte 0 v))
    then env
    else insert k v env

-- One line of .env.
unfoldable pub load_line : Text → Map Text Text → Map Text Text
load_line text env =
    let line = trim_space text in
    if is_empty line || has_prefix line (codes "#") then env else elim (cut b'=' line) [
      | none ↦ env
      | some (k, v) ↦ if is_empty (get_env k env) then set_env k v env else env
    ]

unfoldable pub load_lines : List Text → Map Text Text → Map Text Text
load_lines [] env = env
load_lines (line ∷ lines) env = load_lines lines (load_line line env)

-- loadEnvFile, from the lines that the scanner gives; `none` is a file that does not open.
unfoldable pub load_env_file : Option (List Text) → Map Text Text → Map Text Text
load_env_file none env = env
load_env_file (some lines) env = load_lines lines env

unfoldable pub add_tokens : List Text → Map Text Bool → Map Text Bool
add_tokens [] tokens = tokens
add_tokens (p ∷ ps) tokens =
    let t = trim_space p in add_tokens ps (if is_empty t then tokens else insert t true tokens)

-- parseAPITokens, from the value of API_TOKENS.
unfoldable pub parse_api_tokens : Text → Map Text Bool
parse_api_tokens raw = if is_empty raw then [] else add_tokens (split b',' raw) []

-- apiTokens[id]: false for a missing key.
unfoldable pub is_api_token : Map Text Bool → Text → Bool
is_api_token tokens id = elim (lookup id tokens) [ none ↦ false | some b ↦ b ]

-- baseURL, from BASE_URL and the listen address.
unfoldable pub base_url : Text → Text → Text
base_url env_url addr =
    if is_empty env_url
    then codes "http://"
      ++ (if has_prefix addr (codes ":") then codes "localhost" ++ addr else addr)
    else trim_right env_url

-- What serves a request: the health check, the public routes, or the API behind the gate.
pub data Handler : Type 0 where
  health public_mux api_handler : Handler

-- The root mux, for a path that the mux does not clean.
unfoldable pub root_handler : Text → Text → Text → Handler
root_handler path method content_type =
    if same path (codes "/health")
    then health
    else if same path (codes "/auth/app-login") || same path (codes "/auth/guard")
    then public_mux
    else if same path (codes "/auth/login")
    then (if same method (codes "POST") && has_prefix content_type (codes "application/json")
        then api_handler
        else public_mux)
    else api_handler

-- The health check: 200 while SQLite answers.
unfoldable pub health_status : Bool → ℕ
health_status healthy = if healthy then 200 else 503
