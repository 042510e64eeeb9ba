-- ===== src/Settings/Keys.antt =====
-- The keys of the profiles that the settings make: no two kinds of key meet in the store.
use tpl_backend.Base.{
  ℕ, zero, suc, ◌≡◌, ◌≢◌, ◌≤◌, refl, sym, ap, ◌∙◌, Bool, false, some, List, [], ◌∷◌, ◌++◌, Text,
  codes, text_eq, text_eq_sound, ◌==◌, inl, inr, Bool-cases, ok, err, arith,
}
use tpl_backend.Auth.Principal.{Surface, admin, web, internal, surface_eq}
use tpl_backend.Auth.Profile.{Profile}
use tpl_backend.Auth.Sessions.{IsSessionStore}
use tpl_backend.Auth.Service.{AuthService, transaction_error, transaction_key, session_key}
use tpl_backend.Auth.Login.{Instants, SessionSecrets, complete_login}
use tpl_backend.Auth.Login.Once.{complete_login_once}
use tpl_backend.Settings.{Settings, surface_text, profile_of, browser_profile}
use tpl_backend.Settings.Profiles.{browser_profile-IsMade}

append_assoc : (a b c : Text) → (a ++ b) ++ c ≡ a ++ (b ++ c)
append_assoc [] b c = refl
append_assoc (x ∷ a) b c = ap (λ s. x ∷ s) (append_assoc a b c)

abbrev tail_of : Text → Text
tail_of [] = []
tail_of (_ ∷ s) = s

append_cancel : (a b c : Text) → a ++ b ≡ a ++ c → b ≡ c
append_cancel [] b c h = h
append_cancel (x ∷ a) b c h = append_cancel a b c (ap tail_of h)

abbrev char_at : ℕ → Text → ℕ
char_at n [] = 0
char_at zero (c ∷ s) = c
char_at (suc n) (c ∷ s) = char_at n s

abbrev segment : Surface → Text → Text
segment surface kind = codes ":auth:" ++ surface_text surface ++ kind

-- What follows the slug of the application in a key.
abbrev after_slug : Surface → Text → Text → Text
after_slug surface kind x = segment surface kind ++ x

differ_at : (n : ℕ) (a b : Text) → (char_at n a == char_at n b) ≡ false → a ≢ b
differ_at n a b h e = let same = ap (char_at n) e in ground arith

surfaces-differ :
    (f g : Surface) (k l x y : Text) → surface_eq f g ≡ false → after_slug f k x ≢ after_slug g l y
unfolding surface_text surface_eq
surfaces-differ admin web k l x y h = differ_at 6 _ _ refl
surfaces-differ admin internal k l x y h = differ_at 6 _ _ refl
surfaces-differ web admin k l x y h = differ_at 6 _ _ refl
surfaces-differ web internal k l x y h = differ_at 6 _ _ refl
surfaces-differ internal admin k l x y h = differ_at 6 _ _ refl
surfaces-differ internal web k l x y h = differ_at 6 _ _ refl
surfaces-differ admin admin k l x y h = cc
surfaces-differ web web k l x y h = cc
surfaces-differ internal internal k l x y h = cc

abbrev oidc_kind : Text
oidc_kind = codes ":oidc:"

abbrev session_kind : Text
session_kind = codes ":session:"

kinds-differ : (f g : Surface) (x y : Text) → after_slug f oidc_kind x ≢ after_slug g session_kind y
unfolding surface_text surface_eq
kinds-differ admin admin x y = differ_at 12 _ _ refl
kinds-differ web web x y = differ_at 10 _ _ refl
kinds-differ internal internal x y = differ_at 15 _ _ refl
kinds-differ admin web x y = surfaces-differ admin web oidc_kind session_kind x y refl
kinds-differ admin internal x y = surfaces-differ admin internal oidc_kind session_kind x y refl
kinds-differ web admin x y = surfaces-differ web admin oidc_kind session_kind x y refl
kinds-differ web internal x y = surfaces-differ web internal oidc_kind session_kind x y refl
kinds-differ internal admin x y = surfaces-differ internal admin oidc_kind session_kind x y refl
kinds-differ internal web x y = surfaces-differ internal web oidc_kind session_kind x y refl

slug-apart : (slug a b x y : Text) → a ++ x ≢ b ++ y → (slug ++ a) ++ x ≢ (slug ++ b) ++ y
slug-apart slug a b x y h e =
    h (
      append_cancel slug (a ++ x) (b ++ y)
        (sym (append_assoc slug a x) ∙ e ∙ append_assoc slug b y))

-- The keys of two profiles with whatever follows them.
pub record AreApart (f g : Surface) (p q : Profile) (x y : Text) : Type 0 where
  pub kinds : p.transaction_key_prefix ++ x ≢ q.session_key_prefix ++ y
  pub sessions : surface_eq f g ≡ false → p.session_key_prefix ++ x ≢ q.session_key_prefix ++ y
  pub transactions :
      surface_eq f g ≡ false → p.transaction_key_prefix ++ x ≢ q.transaction_key_prefix ++ y

made-AreApart :
    (s : Settings) (f g : Surface) (b b' r r' : Text) (o o' l l' : List Text) (x y : Text)
    → AreApart f g (profile_of s f b o r l) (profile_of s g b' o' r' l') x y
unfolding profile_of
made-AreApart s f g b b' r r' o o' l l' x y = record {
  kinds =
      slug-apart s.app_slug (segment f oidc_kind) (segment g session_kind) x y
        (kinds-differ f g x y);
  sessions = λ h.
      slug-apart s.app_slug (segment f session_kind) (segment g session_kind) x y
        (surfaces-differ f g _ _ x y h);
  transactions = λ h.
      slug-apart s.app_slug (segment f oidc_kind) (segment g oidc_kind) x y
        (surfaces-differ f g _ _ x y h);
}

-- In the store that the two surfaces share, no key of a login transaction is a key of a session,
-- and different surfaces have no session key and no transaction key in common.
pub browser_profile-AreApart :
    (is_netloc : Text → Bool) (s : Settings) (f g : Surface) (p q : Profile) (x y : Text)
    → browser_profile is_netloc s f ≡ ok p
    → browser_profile is_netloc s g ≡ ok q
    → AreApart f g p q x y
browser_profile-AreApart is_netloc s f g p q x y h k =
    let m = browser_profile-IsMade is_netloc s f p h in
    let n = browser_profile-IsMade is_netloc s g q k in
    rw (m.made, n.made) (made-AreApart s f g _ _ _ _ _ _ _ _ x y)

not_equal : (a b : Text) → a ≢ b → text_eq a b ≡ false
not_equal a b h = elim (Bool-cases (text_eq a b)) [
  | inl e ↦ absurd (h (text_eq_sound a b e))
  | inr e ↦ e
]

-- With a profile that the settings made and a store that behaves as documented, a login transaction
-- is used once: after a call of `complete_login` with its identifier, every later call with it raises
-- `oidc_transaction_invalid`, whatever the random session identifiers are.
pub configured_login_once :
    (is_netloc : Text → Bool) (z : Settings) (surface : Surface) (a : AuthService) (i i' : Instants)
    (x x' : SessionSecrets) (code code' state state' id : Text) (s : a.sessions.State)
    (u u' : a.users.State)
    → browser_profile is_netloc z surface ≡ ok a.profile
    → IsSessionStore a.sessions
    → i.taken ≤ i'.taken
    → (complete_login a i' x' code' state'
        (some id)
        (complete_login a i x code state (some id) s u).sessions
        u').result
      ≡ err transaction_error
unfolding transaction_key session_key
configured_login_once is_netloc z surface a i i' x x' code code' state state' id s u u' made law
      le =
    let apart =
      browser_profile-AreApart is_netloc z surface surface a.profile a.profile id x.session_id made
        made in
    complete_login_once a i i' x x' code code' state state' id s u u' law
      (not_equal _ _ apart.kinds) le
