-- ===== src/Delivery/Event.antt =====
-- app/app/application/dto/outbox.py: the event that a caller hands to the outbox, and its checks.
-- Instants are microseconds since the year 1, in UTC.
use tpl_backend.Base.{
  ℕ, ◌+◌, Bool, false, not, ◌&&◌, ◌||◌, Option, none, some, List, [], ◌∷◌, map, Text, codes,
  text_eq, length, any, all, is_empty, has_char, ltb, leb, ◌==◌, if◌then◌else◌, Result, ok, ◌>>◌,
  require,
}
use tpl_backend.Base.Json.{Json, text_size, encoded_size}

abbrev pub not_before_header : Text
not_before_header = codes "sunmoonai.not_before.v1"

-- A header is a text, or the ISO text that `isoformat(timespec="microseconds")` writes for an
-- instant in UTC.
pub data HeaderValue : Type 0 where
  plain : Text → HeaderValue
  instant : ℕ → HeaderValue

abbrev pub Headers : Type 0
Headers = List (Text × HeaderValue)

pub data EventError : Type 0 where
  invalid_field reserved_header headers_exceed event_too_large : EventError

pub record OutboxEvent : Type 0 where
  pub topic : Text
  pub aggregate_key : Text
  pub deduplication_key : Text
  pub payload : Json
  pub headers : List (Text × Text)
  pub not_before : Option ℕ

-- [a-z0-9]
unfoldable pub is_slug_start : ℕ → Bool
is_slug_start c = leb b'a' c && leb c b'z' || leb b'0' c && leb c b'9'

-- `^[a-z0-9][a-z0-9._-]{0,127}$`
unfoldable pub is_topic : Text → Bool
unfolding is_slug_start
is_topic [] = false
is_topic (c ∷ s) =
    is_slug_start c
    && all (λ d. is_slug_start d || d == b'.' || d == b'_' || d == b'-') s
    && leb (length s) 127

-- `min_length=1, max_length=512`
unfoldable pub is_key : Text → Bool
is_key s = leb 1 (length s) && leb (length s) 512

-- `headers[key] = value` on a `dict`
unfoldable pub set_header : Text → HeaderValue → Headers → Headers
set_header k v [] = (k, v) ∷ []
set_header k v ((j, w) ∷ hs) =
    let rest = set_header k v hs in if text_eq j k then (k, v) ∷ hs else (j, w) ∷ rest

unfoldable pub transport_headers : OutboxEvent → Headers
unfolding set_header
transport_headers e =
    let own : Headers = map (λ h. (h.0, plain h.1)) e.headers in
    elim e.not_before [ none ↦ own | some t ↦ set_header not_before_header (instant t) own ]

-- The ISO text has 32 characters, and no line break.
unfoldable pub value_length : HeaderValue → ℕ
value_length (plain s) = length s
value_length (instant t) = 32

unfoldable pub value_breaks : HeaderValue → Bool
value_breaks (plain s) = has_char s 10 || has_char s 13
value_breaks (instant t) = false

unfoldable pub header_exceeds : Text × HeaderValue → Bool
unfolding value_length value_breaks
header_exceeds (key, item) =
    is_empty key
    || ltb 128 (length key)
    || ltb 2048 (value_length item)
    || has_char key 10
    || has_char key 13
    || value_breaks item

unfoldable pub validate_headers : Headers → Result EventError (Unit {0})
unfolding header_exceeds
validate_headers hs = require (not (ltb 32 (length hs) || any header_exceeds hs)) headers_exceed

value_size : HeaderValue → ℕ
value_size (plain s) = text_size s
value_size (instant t) = 34

headers_size : Headers → ℕ
headers_size [] = 1
headers_size ((k, v) ∷ []) = text_size k + 1 + value_size v + 1
headers_size ((k, v) ∷ hs) = text_size k + 1 + value_size v + 1 + headers_size hs

-- The bytes of `{"payload":…,"headers":…}`.
unfoldable pub event_size : OutboxEvent → ℕ
unfolding transport_headers headers_size value_size
event_size e = 11 + encoded_size e.payload + 13 + headers_size (transport_headers e)

unfoldable pub has_reserved : OutboxEvent → Bool
has_reserved e = any (λ h. text_eq h.0 not_before_header) e.headers

unfoldable pub validate_serialized_size : OutboxEvent → Result EventError OutboxEvent
unfolding validate_headers transport_headers has_reserved event_size
validate_serialized_size e = do
  require (not (has_reserved e)) reserved_header
  validate_headers (transport_headers e)
  require (not (ltb 262144 (event_size e))) event_too_large
  ok e

-- `OutboxEvent.model_validate`: the fields, then the model validator.
unfoldable pub model_validate : OutboxEvent → Result EventError OutboxEvent
unfolding is_topic is_key validate_headers validate_serialized_size
model_validate e = do
  require (is_topic e.topic && is_key e.aggregate_key && is_key e.deduplication_key) invalid_field
  validate_headers (map (λ h. (h.0, plain h.1)) e.headers)
  validate_serialized_size e
