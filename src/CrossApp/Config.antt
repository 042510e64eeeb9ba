-- ===== src/CrossApp/Config.antt =====
-- app/app/domain/cross_app.py: the two settings. `urlsplit` and `json.loads` are parameters, none
-- where they raise; every refusal is a `ValueError`.
use tpl_backend.Base.{
  Bool, true, false, not, ◌&&◌, ◌||◌, Option, none, some, List, [], ◌∷◌, all, length, Text, codes,
  text_eq, is_empty, has_char, contains, drop_last_while, leb, ltb, ◌==◌, if◌then◌else◌, is_some,
  Result, ok, err, ◌>>=◌, ◌>>◌, require,
}
use tpl_backend.Base.Json.{Json, null, str, obj, Fields, end, field, get_or_null}
use tpl_backend.CrossApp.{is_app, ref_slot, replace_from, replace_once, occurs, Source, Target}

pub data Invalid : Type 0 where
  value_error : Invalid

-- `urlsplit(value)`, after `port` was read.
pub record Url : Type 0 where
  pub scheme : Text
  pub netloc : Text
  pub hostname : Option Text
  pub username : Option Text
  pub password : Option Text
  pub query : Text
  pub fragment : Text

abbrev pub has_host : Option Text → Bool
has_host none = false
has_host (some h) = not (is_empty h)

unfoldable pub is_http_url : Text → Url → Bool
unfolding text_eq
is_http_url value u =
    (text_eq u.scheme (codes "http") || text_eq u.scheme (codes "https"))
    && has_host u.hostname
    && not (is_some u.username)
    && not (is_some u.password)
    && is_empty u.fragment
    && not (has_char value 92)
    && all (λ c. not (leb c 32 || c == 127)) value

module _ (urlsplit : Text → Option Url) (loads : Text → Option Json) where
  abbrev pub split_url : Text → Result Invalid Url
  split_url value = elim (urlsplit value) [ none ↦ err value_error | some u ↦ ok u ]

  -- `_absolute_url`
  unfoldable pub absolute_url : Json → Result Invalid Text
  unfolding is_http_url
  absolute_url (str value) = do
    require (not (is_empty value || ltb 1024 (length value))) value_error
    u ← split_url value
    require (is_http_url value u) value_error
    ok value
  absolute_url _ = err value_error

  -- `set(entry) - allowed`
  abbrev pub only_keys : List Text → Fields → Bool
  only_keys allowed end = true
  only_keys allowed (field k v fs) = contains allowed k && only_keys allowed fs

  abbrev pub is_entry : List Text → Json → Bool
  is_entry allowed (obj fs) = only_keys allowed fs
  is_entry allowed _ = false

  abbrev pub are_entries : List Text → Fields → Bool
  are_entries allowed end = true
  are_entries allowed (field name entry fs) =
      is_app name && is_entry allowed entry && are_entries allowed fs

  abbrev pub as_object : Option Json → Result Invalid Fields
  as_object (some (obj fs)) = ok fs
  as_object _ = err value_error

  -- `_entries`
  unfoldable pub entries : List Text → Text → Result Invalid Fields
  unfolding is_app
  entries allowed text = do
    fs ← as_object (loads (if is_empty text then codes "{}" else text))
    require (are_entries allowed fs) value_error
    ok fs

  abbrev pub value_of : Text → Json → Json
  value_of name (obj fs) = get_or_null name fs
  value_of name _ = null

  -- One turn of the loop of `parse_sources`, on `entry.get("return_url")`.
  unfoldable pub parse_source : Text → Json → Result Invalid Source
  unfolding absolute_url replace_once replace_from occurs
  parse_source name null = ok (record { app = name; return_url = none })
  parse_source name (str template) = do
    let rest = replace_once ref_slot [] template
    require (not (has_char rest b'{' || has_char rest b'}')) value_error
    checked ← absolute_url (str (replace_from ref_slot (codes "x") 0 template))
    u ← split_url template
    require (not (occurs ref_slot u.netloc)) value_error
    ok (record { app = name; return_url = some template })
  parse_source name _ = err value_error

  unfoldable pub source_list : Fields → Result Invalid (List Source)
  unfolding parse_source get_or_null
  source_list end = ok []
  source_list (field name entry fs) = do
    source ← parse_source name (value_of (codes "return_url") entry)
    rest ← source_list fs
    ok (source ∷ rest)

  unfoldable pub parse_sources : Text → Result Invalid (List Source)
  unfolding entries source_list
  parse_sources text = do fs ← entries (codes "return_url" ∷ []) text; source_list fs

  unfoldable pub parse_target : Text → Json → Result Invalid Target
  unfolding absolute_url drop_last_while
  parse_target name value = do
    base ← absolute_url value
    u ← split_url base
    require (is_empty u.query) value_error
    ok (record { app = name; web_base_url = drop_last_while (λ c. c == b'/') base })

  unfoldable pub target_list : Fields → Result Invalid (List Target)
  unfolding parse_target get_or_null
  target_list end = ok []
  target_list (field name entry fs) = do
    target ← parse_target name (value_of (codes "web_base_url") entry)
    rest ← target_list fs
    ok (target ∷ rest)

  unfoldable pub parse_targets : Text → Result Invalid (List Target)
  unfolding entries target_list
  parse_targets text = do fs ← entries (codes "web_base_url" ∷ []) text; target_list fs
