-- ===== src/CrossApp/Quoting.antt =====
-- The address of the way back: `return_url` of app/app/domain/cross_app.py.
use tpl_backend.Base.{
  ℕ, ◌≡◌, ◌⊎◌, ◌+◌, ◌<◌, refl, inl, inr, Bool, true, false, Option, none, some, [], ◌∷◌, ◌++◌, Text,
  text_eq, text_eq_sound, ltb, All, All-append, Bool-cases, if◌then◌else◌, arith,
}
use Prim.Native.Nat.{◌/◌, ◌%◌}
use tpl_backend.CrossApp.{
  is_unreserved, hex_digit, percent, quote_char, quote, Source, Origin, ref_slot, replace_from,
  same_app, or_empty, filled, return_url,
}

-- The characters of a quoted text: none of them ends a path, starts a query or names a host.
pub IsQuoted : ℕ → Type 0
IsQuoted c = (is_unreserved c ≡ true) ⊎ (c ≡ b'%')

hex_digit-unreserved : (n : ℕ) → n < 16 → is_unreserved (hex_digit n) ≡ true
unfolding hex_digit is_unreserved
hex_digit-unreserved n h = ground arith

percent-IsQuoted : (n : ℕ) → All IsQuoted (percent n)
unfolding percent IsQuoted
percent-IsQuoted n = (
  inr refl,
  (inl (hex_digit-unreserved _ (omega arith)), (inl (hex_digit-unreserved _ (omega arith)), tt)),
)

then-IsQuoted : (n : ℕ) (t : Text) → All IsQuoted t → All IsQuoted (percent n ++ t)
then-IsQuoted n t h = All-append IsQuoted (percent n) t (percent-IsQuoted n) h

if-IsQuoted :
    (b : Bool) (s t : Text)
    → (b ≡ true → All IsQuoted s)
    → All IsQuoted t
    → All IsQuoted (if b then s else t)
if-IsQuoted true s t h k = h refl
if-IsQuoted false s t h k = k

quote_char-IsQuoted : (c : ℕ) → All IsQuoted (quote_char c)
unfolding quote_char IsQuoted
quote_char-IsQuoted c =
    let last : ℕ = 0x80 + c % 64 in
    let middle : ℕ = 0x80 + (c / 64) % 64 in
    let third : ℕ = 0x80 + (c / 4096) % 64 in
    let two = then-IsQuoted middle (percent last) (percent-IsQuoted last) in
    if-IsQuoted (is_unreserved c) _ _ (λ e. (inl e, tt))
      (if-IsQuoted (ltb c 0x80) _ _ (λ _. percent-IsQuoted c)
        (if-IsQuoted (ltb c 0x800) _ _
          (λ _. then-IsQuoted (0xc0 + c / 64) (percent last) (percent-IsQuoted last))
          (if-IsQuoted (ltb c 0x10000) _ _
            (λ _. then-IsQuoted (0xe0 + c / 4096) (percent middle ++ percent last) two)
            (then-IsQuoted (0xf0 + c / 262144) (percent third ++ (percent middle ++ percent last))
              (then-IsQuoted third (percent middle ++ percent last) two)))))

quote-IsQuoted : (s : Text) → All IsQuoted (quote s)
unfolding quote
quote-IsQuoted [] = tt
quote-IsQuoted (c ∷ s) =
    All-append IsQuoted (quote_char c) (quote s) (quote_char-IsQuoted c) (quote-IsQuoted s)

-- The way back that a source has for an origin.
pub record IsWayBack (source : Option Source) (origin : Option Origin) (u : Text) : Type 0 where
  pub from : Source
  pub to : Origin
  pub template : Text
  pub inserted : Text
  pub source_is : source ≡ some from
  pub origin_is : origin ≡ some to
  pub app_is : from.app ≡ to.app
  pub template_is : from.return_url ≡ some template
  pub quoted : All IsQuoted inserted
  pub result : u ≡ replace_from ref_slot inserted 0 template

filled-some :
    (template ref : Option Text) (u : Text)
    → filled template ref ≡ some u
    → (t : Text) × (template ≡ some t) × (u ≡ replace_from ref_slot (quote (or_empty ref)) 0 t)
filled-some none ref u h = cc
filled-some (some t) ref u h = (t, refl, cc (h))

-- An address of the way back is the template that the settings have for the very application that
-- the user came from, with its slots filled by unreserved and quoted characters only, whatever the
-- link said.
pub return_url-IsWayBack :
    (source : Option Source) (origin : Option Origin) (u : Text)
    → return_url source origin ≡ some u
    → IsWayBack source origin u
unfolding return_url
return_url-IsWayBack none origin u h = cc
return_url-IsWayBack (some s) none u h = cc
return_url-IsWayBack (some s) (some o) u h = elim (Bool-cases (text_eq s.app o.app)) [
  | inl e ↦
      let h' : filled s.return_url o.ref ≡ some u = rw (e, same_app) at h in
      let (t, is, result) = filled-some s.return_url o.ref u h' in
      record {
        from = s;
        to = o;
        template = t;
        inserted = quote (or_empty o.ref);
        source_is = refl;
        origin_is = refl;
        app_is = text_eq_sound s.app o.app e;
        template_is = is;
        quoted = quote-IsQuoted (or_empty o.ref);
        result = result;
      }
  | inr e ↦ let no : ◌≡◌ {A = Option Text} none (some u) = rw (e, same_app) at h in cc
]
