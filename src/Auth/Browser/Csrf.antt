-- ===== src/Auth/Browser/Csrf.antt =====
-- The tests of a request: `validate_csrf`, and the decisions of interfaces/http/middleware/auth.py.
use tpl_backend.Base.{
  ◌≡◌, refl, ap, ◌∙◌, ◌⊎◌, inl, inr, Bool, true, false, ◌&&◌, Option, none, some, [], ◌∷◌, Text,
  text_eq, text_eq_sound, contains, contains_sound, upper, map, In, Bool-cases, and_true, Result,
  ok, err, require, >>=-eq-ok,
}
use tpl_backend.Auth.Errors.{Failure}
use tpl_backend.Auth.Principal.{BrowserSession}
use tpl_backend.Auth.Service.{AuthService, is_ascii, compare_digest}
use tpl_backend.Auth.Browser.{safe_methods, is_allowed_origin, same_token, validate_csrf}

pub require-ok : (b : Bool) (e : Failure) → require b e ≡ ok tt → b ≡ true
require-ok true e h = refl
require-ok false e h = cc

pub compare_digest_sound : (s t : Text) → compare_digest s t ≡ ok true → s ≡ t
unfolding compare_digest
compare_digest_sound s t h = elim (Bool-cases (is_ascii s && is_ascii t)) [
  | inl e ↦
      let same : ◌≡◌ {A = Result Failure Bool} (ok (text_eq s t)) (ok true) =
        rw (e, compare_digest) at h in
      text_eq_sound s t (cc (same))
  | inr e ↦
      let no : ◌≡◌ {A = Result Failure Bool} (err _) (ok true) = rw (e, compare_digest) at h in cc
]

same_token_sound :
    (a : AuthService) (token : Text) (given : Option Text)
    → same_token a token given ≡ ok true
    → given ≡ some token
same_token_sound a token none h = cc
same_token_sound a token (some []) h = cc
same_token_sound a token (some (c ∷ s)) h =
    let e = compare_digest_sound token (c ∷ s) h in rw e refl

is_allowed_origin_sound :
    (a : AuthService) (origin : Option Text)
    → is_allowed_origin a origin ≡ true
    → (o : Text) × (origin ≡ some o) × In o a.profile.frontend_origins
is_allowed_origin_sound a none h = cc
is_allowed_origin_sound a (some o) h =
    (o, refl, contains_sound a.profile.frontend_origins o (and_true _ _ h).1)

-- A request passes only if its method is safe, or it comes from an origin of the frontend and
-- carries the token of the session.
pub validate_csrf_sound :
    (a : AuthService) (b : BrowserSession) (method : Text) (origin token : Option Text)
    → validate_csrf a b method origin token ≡ ok tt
    → (contains (safe_methods a) (map upper method) ≡ true)
      ⊎ (((o : Text) × (origin ≡ some o) × In o a.profile.frontend_origins)
          × (token ≡ some b.csrf_token))
unfolding validate_csrf
validate_csrf_sound a b method origin token h =
    elim (Bool-cases (contains (safe_methods a) (map upper method))) [
      | inl e ↦ inl e
      | inr e ↦
          let (u, allowed, h1) = >>=-eq-ok _ _ (rw (e, validate_csrf) at h) in
          let (same, matched, h2) = >>=-eq-ok _ _ h1 in
          inr (
            is_allowed_origin_sound a origin (require-ok _ _ allowed),
            same_token_sound a b.csrf_token token (matched ∙ ap ok (require-ok same _ h2)),
          )
    ]
