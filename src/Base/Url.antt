-- ===== src/Base/Url.antt =====
-- `urllib.parse.urlsplit` and `urlunsplit`, as the settings and the provider client call them. Which
-- network locations are refused (brackets, code points that normalize to a separator) is a parameter.
use Prim.Native.Nat.{ℕ, zero, suc, ◌+◌, ◌*◌, ◌-◌, ◌/◌, ◌%◌}
use mathlib.Core.Bool.{Bool, true, false, not, ◌&&◌, ◌||◌}
use mathlib.Core.Option.{Option, none, some}
use mathlib.Core.List.{[], ◌∷◌, ◌++◌, reverse, map}
use tpl_backend.Base.Tests.{leb, ltb, ◌==◌, if◌then◌else◌}
use tpl_backend.Base.Lists.{all, filter}
use tpl_backend.Base.Strings.{
  Text, codes, text_eq, starts_with, drop_while, has_char, is_empty, lower,
}

unfoldable pub take_while : (ℕ → Bool) → Text → Text
take_while p [] = []
take_while p (c ∷ s) = let rest = take_while p s in if p c then c ∷ rest else []

-- `urlsplit` removes tabs and line breaks.
unfoldable pub is_removed : ℕ → Bool
is_removed c = c == 9 || c == 10 || c == 13

-- `urlsplit` takes these from the left of a text.
unfoldable pub is_control_or_space : ℕ → Bool
is_control_or_space c = leb c 32

abbrev pub is_delimiter : ℕ → Bool
is_delimiter c = c == b'/' || c == b'?' || c == b'#'

abbrev pub tail : Text → Text
tail [] = []
tail (_ ∷ s) = s

-- The two sides of `s.partition(c)`.
unfoldable pub before : ℕ → Text → Text
unfolding take_while
before c s = take_while (λ d. not (d == c)) s

unfoldable pub after : ℕ → Text → Text
unfolding drop_while
after c s = tail (drop_while (λ d. not (d == c)) s)

-- The two sides of `s.rpartition(c)`, for a text that has `c`.
unfoldable pub before_last : ℕ → Text → Text
unfolding after
before_last c s = reverse (after c (reverse s))

-- `s.rpartition(c)[2]`
unfoldable pub after_last : ℕ → Text → Text
unfolding before
after_last c s = reverse (before c (reverse s))

pub record SplitResult : Type 0 where
  pub scheme : Text
  pub netloc : Text
  pub path : Text
  pub query : Text
  pub fragment : Text

abbrev is_scheme_start : ℕ → Bool
is_scheme_start c = leb b'a' c && leb c b'z' || leb b'A' c && leb c b'Z'

abbrev is_scheme_char : ℕ → Bool
is_scheme_char c =
    is_scheme_start c || leb b'0' c && leb c b'9' || c == b'+' || c == b'-' || c == b'.'

unfoldable is_scheme : Text → Bool
is_scheme [] = false
is_scheme (c ∷ s) = is_scheme_start c && all is_scheme_char s

-- `url[2:]`, where the text starts with two slashes.
abbrev located : Text → Text
located (_ ∷ _ ∷ s) = s
located s = s

-- The text after the scheme, in its parts.
unfoldable split_rest : (Text → Bool) → Text → Text → Option SplitResult
unfolding take_while drop_while before after starts_with
split_rest is_netloc scheme url =
    let has_netloc = starts_with (codes "//") url in
    let netloc = if has_netloc then take_while (λ c. not (is_delimiter c)) (located url) else [] in
    let rest = if has_netloc then drop_while (λ c. not (is_delimiter c)) (located url) else url in
    let main = before b'#' rest in
    if is_empty netloc || is_netloc netloc
    then some (record {
      scheme = scheme;
      netloc = netloc;
      path = before b'?' main;
      query = after b'?' main;
      fragment = after b'#' rest;
    })
    else none

-- `urlsplit`; none is its `ValueError`.
unfoldable pub urlsplit : (Text → Bool) → Text → Option SplitResult
unfolding is_removed is_control_or_space drop_while before after split_rest is_scheme lower
urlsplit is_netloc value =
    let url = filter (λ c. not (is_removed c)) (drop_while is_control_or_space value) in
    if has_char url b':' && is_scheme (before b':' url)
    then split_rest is_netloc (map lower (before b':' url)) (after b':' url)
    else split_rest is_netloc [] url

-- `_hostinfo`: the host in brackets, or up to the colon, and what follows.
unfoldable hostinfo : SplitResult → Text × Text
unfolding after_last before after
hostinfo u =
    let info = after_last b'@' u.netloc in
    if has_char info b'['
    then (before b']' (after b'[' info), after b':' (after b']' (after b'[' info)))
    else (before b':' info, after b':' info)

-- The host in lower case up to a zone; the empty text stands for `None`.
unfoldable pub hostname : SplitResult → Text
unfolding hostinfo before after lower
hostname u =
    let host = (hostinfo u).0 in
    if has_char host b'%'
    then map lower (before b'%' host) ++ b'%' ∷ after b'%' host
    else map lower host

abbrev is_digit : ℕ → Bool
is_digit c = leb b'0' c && leb c b'9'

-- `int` on digits, from the left.
unfoldable decimal : ℕ → Text → ℕ
decimal n [] = n
decimal n (c ∷ s) = decimal (n * 10 + (c - b'0')) s

-- A port is a number, or missing, or refused with a `ValueError`.
pub data Port : Type 0 where
  no_port bad_port : Port
  port_number : ℕ → Port

unfoldable pub port : SplitResult → Port
unfolding hostinfo decimal
port u =
    let digits = (hostinfo u).1 in
    if is_empty digits
    then no_port
    else if all is_digit digits && leb (decimal 0 digits) 65535
    then port_number (decimal 0 digits)
    else bad_port

unfoldable pub port_eq : Port → Port → Bool
port_eq no_port no_port = true
port_eq bad_port bad_port = true
port_eq (port_number m) (port_number n) = m == n
port_eq _ _ = false

-- `str` of a number below 10 ^ fuel.
unfoldable pub decimal_text : ℕ → ℕ → Text
decimal_text zero n = []
decimal_text (suc f) n =
    let more = decimal_text f (n / 10) in
    if ltb n 10 then (b'0' + n) ∷ [] else more ++ (b'0' + n % 10) ∷ []

-- `f":{parsed.port}"`, or nothing without a port.
unfoldable pub port_text : Port → Text
unfolding decimal_text
port_text (port_number n) = b':' ∷ decimal_text 5 n
port_text _ = []

-- `parsed.username or parsed.password`, as a truth value.
unfoldable pub has_userinfo : SplitResult → Bool
unfolding before_last text_eq
has_userinfo u =
    let info = before_last b'@' u.netloc in
    has_char u.netloc b'@' && not (is_empty info || text_eq info (codes ":"))

-- `urlunsplit` for a network location that is not empty, without a fragment.
unfoldable pub urlunsplit : Text → Text → Text → Text → Text
unfolding starts_with
urlunsplit scheme netloc path query =
    let rooted = if is_empty path || starts_with (codes "/") path then path else b'/' ∷ path in
    let full = codes "//" ++ netloc ++ rooted in
    let named = if is_empty scheme then full else scheme ++ codes ":" ++ full in
    if is_empty query then named else named ++ codes "?" ++ query
