-- ===== src/Auth/Profile.antt =====
-- What app/core/config.py gives the browser logins of one surface, and its tests of paths.
pub mod Paths
pub mod Returns
use tpl_backend.Base.{
  ℕ, ◌++◌, Bool, true, false, not, ◌&&◌, ◌||◌, List, [], ◌∷◌, map, filter, any, length, Text, codes,
  text_eq, strip, is_empty, has_char, starts_with, split_on, drop_while, drop_last_while, leb, ◌==◌,
  if◌then◌else◌, Result, ok, err,
}
use tpl_backend.Base.Url.{is_removed, take_while}
use tpl_backend.Base.Json.{Json, null, bool, int, negative, float, str, arr, obj, nil, end}
use tpl_backend.Auth.Errors.{Failure, crashed}
use tpl_backend.Auth.Principal.{Surface}

-- `BrowserSurfaceProfile`
pub record Profile : Type 0 where
  pub surface : Surface
  pub client_id : Text
  pub client_secret : Text
  pub redirect_uri : Text
  pub application : Text
  pub frontend_base_url : Text
  pub frontend_origins : List Text
  pub policy_version : Text
  pub role_allowlist : List Text
  pub scope_allowlist : List Text
  pub default_return_to : Text
  pub allowed_return_paths : List Text
  pub required_scopes : List Text
  pub session_cookie_name : Text
  pub transaction_cookie_name : Text
  pub session_key_prefix : Text
  pub transaction_key_prefix : Text

-- `_split_csv`
unfoldable pub split_csv : Text → List Text
unfolding split_on strip
split_csv value = filter (λ t. not (is_empty t)) (map strip (split_on b',' value))

-- The test of `_validate_relative_path`.
unfoldable pub is_relative_path : Text → Bool
unfolding starts_with
is_relative_path value =
    starts_with (codes "/") value
    && not (starts_with (codes "//") value)
    && not (has_char value 92)
    && not (has_char value 0)
    && leb (length value) 1024

abbrev pub is_path_char : ℕ → Bool
is_path_char c = not (c == b'?' || c == b'#')

-- The text after the network location.
abbrev pub after_netloc : Text → Text
after_netloc (_ ∷ _ ∷ s) = drop_while (λ c. not (c == b'/' || c == b'?' || c == b'#')) s
after_netloc s = s

abbrev pub netloc_of : Text → Text
netloc_of (_ ∷ _ ∷ s) = take_while (λ c. not (c == b'/' || c == b'?' || c == b'#')) s
netloc_of s = []

-- `urlsplit(value).path` for a text that starts with a slash. `is_netloc` tells the network locations
-- for which `urlsplit` does not raise.
unfoldable pub url_path : (Text → Bool) → Text → Result Failure Text
unfolding is_removed starts_with take_while drop_while
url_path is_netloc value =
    let clean = filter (λ c. not (is_removed c)) value in
    let located : Result Failure Text =
      if is_netloc (netloc_of clean)
      then ok (take_while is_path_char (after_netloc clean))
      else err crashed in
    if starts_with (codes "//") clean then located else ok (take_while is_path_char clean)

-- The test of `_path_is_allowed`, on the path of the value.
unfoldable pub is_under : Text → Text → Bool
unfolding starts_with drop_last_while text_eq
is_under path allowed =
    if text_eq allowed (codes "/")
    then starts_with (codes "/") path
    else text_eq path allowed
      || starts_with (drop_last_while (λ c. c == b'/') allowed ++ codes "/") path

-- Truthiness of a decoded JSON value.
unfoldable pub is_truthy_json : Json → Bool
unfolding text_eq
is_truthy_json null = false
is_truthy_json (bool b) = b
is_truthy_json (int n) = not (n == 0)
is_truthy_json (negative _) = true
is_truthy_json (float s) = not (text_eq s (codes "0.0") || text_eq s (codes "-0.0"))
is_truthy_json (str s) = not (is_empty s)
is_truthy_json (arr nil) = false
is_truthy_json (arr _) = true
is_truthy_json (obj end) = false
is_truthy_json (obj _) = true

abbrev pub allowed_or_default : Profile → Text → Result Failure Text → Result Failure Text
allowed_or_default p value (err e) = err e
allowed_or_default p value (ok path) =
    ok (if any (is_under path) p.allowed_return_paths then value else p.default_return_to)

-- `_normalize_return_to` on a truthy text.
unfoldable pub normalize_path : (Text → Bool) → Profile → Text → Result Failure Text
unfolding is_relative_path url_path is_under
normalize_path is_netloc p value =
    if is_relative_path value
    then allowed_or_default p value (url_path is_netloc value)
    else ok p.default_return_to

-- `AuthService._normalize_return_to`. A truthy value that is no text has no `startswith`.
unfoldable pub normalize_return_to : (Text → Bool) → Profile → Json → Result Failure Text
unfolding normalize_path is_truthy_json
normalize_return_to is_netloc p (str []) = ok p.default_return_to
normalize_return_to is_netloc p (str (c ∷ s)) = normalize_path is_netloc p (c ∷ s)
normalize_return_to is_netloc p v = if is_truthy_json v then err crashed else ok p.default_return_to
