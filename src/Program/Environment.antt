-- ===== src/Program/Environment.antt =====
-- What .env and API_TOKENS set.
use mediavida.Base.{
  ◌≡◌, ◌≢◌, refl, sym, ◌∙◌, Bool, true, false, Text, Option, none, some, List, [], ◌∷◌, ◌&&◌, ◌||◌,
  not, arith, same, is_empty, Bool-cases, Option-cases, inl, inr,
}
use mediavida.Base.Keys.{text_key}
use mediavida.Base.Maps.{Map, lookup, insert, lookup-insert}
use mediavida.Base.Strings.{trim_space, cut, split, pieces}
use mediavida.Program.{
  get_env, set_env, load_line, load_lines, load_env_file, add_tokens, parse_api_tokens,
  is_api_token,
}

get_env-set_env :
    (j k v : Text) (env : Map Text Text)
    → get_env k env ≢ []
    → get_env j env ≡ []
    → get_env k (set_env j v env) ≡ get_env k env
unfolding get_env set_env
get_env-set_env j k v env h e = ground (arith, lookup-insert j k v env)

get_env-load_line :
    (line k : Text) (env : Map Text Text)
    → get_env k env ≢ []
    → get_env k (load_line line env) ≡ get_env k env
unfolding load_line
get_env-load_line line k env h = elim (Option-cases (cut b'=' (trim_space line))) [
  | inl e ↦ ground (arith, e)
  | inr (p, e) ↦ ground (arith, e, get_env-set_env p.0 k p.1 env h)
]

get_env-load_lines :
    (lines : List Text) (k : Text) (env : Map Text Text)
    → get_env k env ≢ []
    → get_env k (load_lines lines env) ≡ get_env k env
unfolding load_lines
get_env-load_lines [] k env h = refl
get_env-load_lines (line ∷ lines) k env h =
    let e = get_env-load_line line k env h in
    get_env-load_lines lines k (load_line line env) (λ p. h (sym e ∙ p)) ∙ e

-- Whatever .env holds, a variable that the process already has with a value that is not empty keeps it.
pub get_env-load_env_file :
    (file : Option (List Text)) (k : Text) (env : Map Text Text)
    → get_env k env ≢ []
    → get_env k (load_env_file file env) ≡ get_env k env
unfolding load_env_file
get_env-load_env_file none k env h = refl
get_env-load_env_file (some lines) k env h = get_env-load_lines lines k env h

-- A text is among the trimmed pieces.
abbrev pub is_piece : Text → List Text → Bool
is_piece t [] = false
is_piece t (p ∷ ps) = same (trim_space p) t || is_piece t ps

is_api_token-add_tokens :
    (t : Text) (ps : List Text) (m : Map Text Bool)
    → is_api_token (add_tokens ps m) t ≡ (is_api_token m t || (not (is_empty t) && is_piece t ps))
unfolding is_api_token add_tokens
is_api_token-add_tokens t [] m = ground arith
is_api_token-add_tokens t (p ∷ ps) m = elim (Bool-cases (is_empty (trim_space p))) [
  | inl e ↦ ground (arith, e, is_api_token-add_tokens t ps m)
  | inr e ↦ ground (
    arith,
    e,
    is_api_token-add_tokens t ps (insert (trim_space p) true m),
    lookup-insert (trim_space p) t true m,
  )
]

-- The configured tokens are exactly the pieces of API_TOKENS between commas, without the white space
-- around them, that are not empty.
pub is_api_token-parse_api_tokens :
    (raw t : Text)
    → is_api_token (parse_api_tokens raw) t ≡ (not (is_empty t) && is_piece t (split b',' raw))
unfolding parse_api_tokens is_api_token lookup
is_api_token-parse_api_tokens [] [] = refl
is_api_token-parse_api_tokens [] (d ∷ t) = unfold split pieces trim_space in ground arith
is_api_token-parse_api_tokens (c ∷ s) t = is_api_token-add_tokens t (split b',' (c ∷ s)) []
