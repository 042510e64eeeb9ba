-- ===== src/CrossApp.antt =====
-- app/app/domain/cross_app.py: how one application takes a user to another, and back.
pub mod Config
pub mod Quoting
pub mod Origins
mod Tests
use tpl_backend.Base.{
  ℕ, zero, suc, ◌≡◌, ◌+◌, ◌-◌, ◌*◌, ◌++◌, Bool, true, false, not, ◌&&◌, ◌||◌, Option, none, some,
  List, [], ◌∷◌, map, any, all, length, Text, codes, text_eq, is_empty, has_char, contains,
  starts_with, drop_last_while, leb, ltb, ◌==◌, if◌then◌else◌, is_some, Result, ok, err, ◌>>=◌,
  ◌>>◌, require,
}
use Prim.Native.Nat.{◌/◌, ◌%◌}
use tpl_backend.Base.Json.{Json, null, str, obj, Fields, end, field, get_or_null}

abbrev pub is_lower : ℕ → Bool
is_lower c = leb b'a' c && leb c b'z'

abbrev pub is_digit : ℕ → Bool
is_digit c = leb b'0' c && leb c b'9'

abbrev pub is_letter : ℕ → Bool
is_letter c = is_lower c || leb b'A' c && leb c b'Z'

-- `^[a-z][a-z0-9-]{0,31}$`
unfoldable pub is_app : Text → Bool
is_app [] = false
is_app (c ∷ s) =
    is_lower c && all (λ d. is_lower d || is_digit d || d == b'-') s && leb (length s) 31

-- `^[A-Za-z0-9._:-]{1,128}$`
unfoldable pub is_ref : Text → Bool
is_ref s =
    all (λ d. is_letter d || is_digit d || d == b'.' || d == b'_' || d == b':' || d == b'-') s
    && leb 1 (length s)
    && leb (length s) 128

abbrev pub ref_slot : Text
ref_slot = codes "{ref}"

pub record Origin : Type 0 where
  pub app : Text
  pub ref : Option Text

pub record Source : Type 0 where
  pub app : Text
  pub return_url : Option Text

pub record Target : Type 0 where
  pub app : Text
  pub web_base_url : Text

unfoldable pub clean_ref : Json → Option Text
unfolding is_ref
clean_ref (str s) = if is_ref s then some s else none
clean_ref _ = none

unfoldable pub clean_origin : Json → Json → List Text → Option Origin
unfolding is_app clean_ref
clean_origin (str app) ref known =
    if not (is_app app) || not (contains known app)
    then none
    else some (record { app = app; ref = clean_ref ref })
clean_origin _ ref known = none

-- `s.replace(old, new)` for a text `old` that is not empty; the number is what is left to pass over.
unfoldable pub replace_from : Text → Text → ℕ → Text → Text
unfolding starts_with
replace_from old new n [] = []
replace_from old new (suc n) (c ∷ s) = replace_from old new n s
replace_from old new zero (c ∷ s) =
    let replaced = new ++ replace_from old new (length old - 1) s in
    let kept = c ∷ replace_from old new 0 s in if starts_with old (c ∷ s) then replaced else kept

abbrev pub drop : ℕ → Text → Text
drop zero s = s
drop (suc n) [] = []
drop (suc n) (c ∷ s) = drop n s

-- `s.replace(old, new, 1)`
unfoldable pub replace_once : Text → Text → Text → Text
unfolding starts_with
replace_once old new [] = []
replace_once old new (c ∷ s) =
    let rest = replace_once old new s in
    if starts_with old (c ∷ s) then new ++ drop (length old - 1) s else c ∷ rest

-- `old in s`, for a text `old` that is not empty.
unfoldable pub occurs : Text → Text → Bool
unfolding starts_with
occurs old [] = false
occurs old (c ∷ s) = starts_with old (c ∷ s) || occurs old s

unfoldable pub is_unreserved : ℕ → Bool
is_unreserved c = is_letter c || is_digit c || c == b'_' || c == b'.' || c == b'-' || c == b'~'

unfoldable pub hex_digit : ℕ → ℕ
hex_digit n = if ltb n 10 then b'0' + n else b'A' + (n - 10)

-- The two upper-case hexadecimal digits of a byte.
unfoldable pub percent : ℕ → Text
unfolding hex_digit
percent n = b'%' ∷ hex_digit ((n / 16) % 16) ∷ hex_digit (n % 16) ∷ []

-- The code point in UTF-8, each byte quoted.
unfoldable pub quote_char : ℕ → Text
unfolding percent is_unreserved
quote_char c =
    if is_unreserved c
    then c ∷ []
    else if ltb c 0x80
    then percent c
    else if ltb c 0x800
    then percent (0xc0 + c / 64) ++ percent (0x80 + c % 64)
    else if ltb c 0x10000
    then percent (0xe0 + c / 4096) ++ percent (0x80 + (c / 64) % 64) ++ percent (0x80 + c % 64)
    else percent (0xf0 + c / 262144)
      ++ percent (0x80 + (c / 4096) % 64)
      ++ percent (0x80 + (c / 64) % 64)
      ++ percent (0x80 + c % 64)

-- `quote(s, safe="")`
unfoldable pub quote : Text → Text
unfolding quote_char
quote [] = []
quote (c ∷ s) = quote_char c ++ quote s

abbrev pub or_empty : Option Text → Text
or_empty none = []
or_empty (some s) = s

abbrev pub filled : Option Text → Option Text → Option Text
filled none ref = none
filled (some template) ref = some (replace_from ref_slot (quote (or_empty ref)) 0 template)

abbrev pub same_app : Source → Origin → Option Text
same_app source origin =
    if text_eq source.app origin.app then filled source.return_url origin.ref else none

unfoldable pub return_url : Option Source → Option Origin → Option Text
unfolding quote replace_from text_eq
return_url none _ = none
return_url (some _) none = none
return_url (some source) (some origin) = same_app source origin

-- `known_apps`: the keys of the mapping, each the application of its source.
unfoldable pub known_apps : List Source → List Text
known_apps sources = map (λ s. s.app) sources
