-- ===== src/Base/Json.antt =====
-- The values of `json.loads`, and the size of what `json.dumps` writes for them.
use Prim.Native.Nat.{◌/◌}
use tpl_backend.Base.Tests.{ltb, ◌==◌, if◌then◌else◌}
use tpl_backend.Base.Strings.{Text, text_eq}
use tpl_backend.Base.Lists.{length}
use Prim.Native.Nat.{ℕ, zero, suc, ◌+◌}
use mathlib.Core.Bool.{Bool, true, false, ◌||◌}
use mathlib.Core.Option.{Option, none, some}
use mathlib.Core.List.{List, [], ◌∷◌}

-- `negative n` is the integer -(n + 1); `float` keeps the literal that Python prints. The keys of
-- an object are distinct, as those of a `dict` are.
mutual
  pub data Json : Type 0 where
    null : Json
    bool : Bool → Json
    int : ℕ → Json
    negative : ℕ → Json
    float : Text → Json
    str : Text → Json
    arr : Items → Json
    obj : Fields → Json

  pub data Items : Type 0 where
    nil : Items
    cons : Json → Items → Items

  pub data Fields : Type 0 where
    end : Fields
    field : Text → Json → Fields → Fields

-- `entry.get(name)`, without a default.
unfoldable pub get : Text → Fields → Option Json
get name end = none
get name (field k v fs) = if text_eq k name then some v else get name fs

-- The same, with `None` for a missing key.
unfoldable pub get_or_null : Text → Fields → Json
unfolding get
get_or_null name fs = elim (get name fs) [ none ↦ null | some v ↦ v ]

unfoldable pub items : Items → List Json
items nil = []
items (cons v vs) = v ∷ items vs

-- The number of decimal digits; the first argument is fuel above `n`.
digit_count : ℕ → ℕ → ℕ
digit_count zero n = 0
digit_count (suc f) n = let more = digit_count f (n / 10) in if ltb n 10 then 1 else suc more

-- The bytes of one code point inside a JSON text with `ensure_ascii=False`, in UTF-8.
char_size : ℕ → ℕ
char_size c =
    if c == 34 || c == 92
    then 2
    else if c == 8 || c == 9 || c == 10 || c == 12 || c == 13
    then 2
    else if ltb c 32
    then 6
    else if ltb c 128
    then 1
    else if ltb c 2048
    then 2
    else if ltb c 65536
    then 3
    else 4

chars_size : Text → ℕ
chars_size [] = 0
chars_size (c ∷ s) = char_size c + chars_size s

-- A text with its quotes.
unfoldable pub text_size : Text → ℕ
unfolding chars_size char_size
text_size s = 2 + chars_size s

unfoldable mutual
  unfolding text_size digit_count

  -- The bytes of `json.dumps(value, separators=(",", ":"), ensure_ascii=False).encode()`.
  pub encoded_size : Json → ℕ
  encoded_size null = 4
  encoded_size (bool true) = 4
  encoded_size (bool false) = 5
  encoded_size (int n) = digit_count (suc n) n
  encoded_size (negative n) = 1 + digit_count (suc (suc n)) (suc n)
  encoded_size (float s) = length s
  encoded_size (str s) = text_size s
  encoded_size (arr vs) = 1 + items_size vs
  encoded_size (obj fs) = 1 + fields_size fs

  -- Each element with the comma or the bracket after it.
  items_size : Items → ℕ
  items_size nil = 1
  items_size (cons v nil) = encoded_size v + 1
  items_size (cons v vs) = encoded_size v + 1 + items_size vs

  fields_size : Fields → ℕ
  fields_size end = 1
  fields_size (field k v end) = text_size k + 1 + encoded_size v + 1
  fields_size (field k v fs) = text_size k + 1 + encoded_size v + 1 + fields_size fs
