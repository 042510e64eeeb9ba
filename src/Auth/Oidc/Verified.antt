-- ===== src/Auth/Oidc/Verified.antt =====
-- What a verified token of app/app/infrastructure/security/oidc.py is.
use tpl_backend.Base.{
  arith, ℕ, ◌≡◌, ◌≤◌, ◌+◌, ◌⊎◌, refl, ap, inl, inr, Bool, true, false, Option, some, Text, codes,
  text_eq_sound, contains, contains_sound, In, ok, err, >>=-elim, require, ok-injective, ok-to,
  strip, is_empty,
}
use tpl_backend.Base.Json.{Json, int, str, arr, nil, cons, Fields, get}
use tpl_backend.Auth.Errors.{Failure}
use tpl_backend.Settings.{Settings}
use tpl_backend.Settings.Profiles.{require-true}
use tpl_backend.Auth.Oidc.{OidcMetadata, Registry, Jose, identity_token_invalid}
use tpl_backend.Auth.Oidc.Client.{Client, Outcome, and_then}
use tpl_backend.Auth.Oidc.Tokens.{
  is_text, is_own_audience, is_subject, audiences, identity_registry, access_registry,
  decode_signed_token, check_identity, check_access, Moment, metadata_or, verify_id_token,
  verify_access_token,
}
use tpl_backend.Auth.Oidc.Signed.{IsSigned, decode_signed_token-IsSigned}

-- The documented behaviour of `JWTClaimsRegistry.validate`.
pub record IsRegistry (jose : Jose) : Type 0 where
  pub valued :
      (r : Registry) (clock : ℕ) (claims : Fields) (name value : Text)
      → jose.validate r clock claims ≡ true
      → In (name, value) r.values
      → get name claims ≡ some (str value)
  pub unexpired :
      (r : Registry) (clock : ℕ) (claims : Fields) (e : ℕ)
      → jose.validate r clock claims ≡ true
      → get (codes "exp") claims ≡ some (int e)
      → clock ≤ e + r.leeway

and_then-ok :
    {K : Type 0} {A : Type 0} {B : Type 0} (o : Outcome K A) (rest : A → Client K → Outcome K B)
    (b : B)
    → (and_then o rest).0 ≡ ok b
    → (a : A) × (c : Client K) × (o ≡ (ok a, c)) × ((rest a c).0 ≡ ok b)
and_then-ok (err e, c) rest b h = cc
and_then-ok (ok a, c) rest b h = (a, c, refl, h)

pub is_text-get : (o : Option Json) (t : Text) → is_text o t ≡ true → o ≡ some (str t)
unfolding is_text
is_text-get (some (str s)) t h = ap (λ q. some (str q)) (text_eq_sound s t h)
is_text-get _ t h = cc

own_audience-get :
    (o : Option Json) (id : Text)
    → is_own_audience o id ≡ true
    → (o ≡ some (str id)) ⊎ (o ≡ some (arr (cons (str id) nil)))
unfolding is_own_audience
own_audience-get (some (str s)) id h = inl (ap (λ q. some (str q)) (text_eq_sound s id h))
own_audience-get (some (arr (cons (str s) nil))) id h =
    inr (ap (λ q. some (arr (cons (str q) nil))) (text_eq_sound s id h))
own_audience-get _ id h = cc

subject-get :
    (o : Option Json)
    → is_subject o ≡ true
    → (s : Text) × (o ≡ some (str s)) × (is_empty (strip s) ≡ false)
unfolding is_subject
subject-get (some (str s)) h = (s, refl, ground arith)
subject-get _ h = cc

module _ (is_netloc : Text → Bool) (settings : Settings) (jose : Jose) where
  module _ (law : IsRegistry jose) where
    -- The claims of an identity token that was made for this client and this login.
    pub record IsIdentity (client_id nonce : Text) (m : OidcMetadata) (clock : ℕ) (claims : Fields)
        : Type 0 where
      pub issued : get (codes "iss") claims ≡ some (str m.issuer)
      pub audience :
          (get (codes "aud") claims ≡ some (str client_id))
          ⊎ (get (codes "aud") claims ≡ some (arr (cons (str client_id) nil)))
      pub bound : get (codes "nonce") claims ≡ some (str nonce)
      pub subject :
          (s : Text) × (get (codes "sub") claims ≡ some (str s)) × (is_empty (strip s) ≡ false)
      pub unexpired :
          (e : ℕ)
          → get (codes "exp") claims ≡ some (int e)
          → clock ≤ e + settings.auth_clock_skew_seconds

    check_identity-IsIdentity :
        (client_id nonce : Text) (m : OidcMetadata) (clock : ℕ) (fs claims : Fields)
        → check_identity is_netloc settings jose client_id m nonce clock fs ≡ ok claims
        → (fs ≡ claims) × IsIdentity client_id nonce m clock claims
    unfolding check_identity identity_registry
    check_identity-IsIdentity client_id nonce m clock fs claims h =
        >>=-elim (require (is_text (get (codes "iss") fs) m.issuer) _) _ h λ u0 e0 h0.
          >>=-elim (require (is_own_audience (get (codes "aud") fs) client_id) _) _ h0 λ u1 e1 h1.
            >>=-elim
              (require
                (jose.validate (identity_registry is_netloc settings jose m.issuer nonce) clock fs)
                identity_token_invalid)
              _ h1
              λ u2 e2 h2.
                >>=-elim (require (is_subject (get (codes "sub") fs)) identity_token_invalid) _ h2
                  λ u3 e3 h3.
                    let same = ok-injective {E = Failure} h3 in
                    let valid = require-true _ _ u2 e2 in
                    (
                      same,
                      ok-to {E = Failure} (IsIdentity client_id nonce m clock) h3 (record {
                        issued = is_text-get _ _ (require-true _ _ u0 e0);
                        audience = own_audience-get _ _ (require-true _ _ u1 e1);
                        bound = law.valued _ clock fs (codes "nonce") nonce valid (inr (inl refl));
                        subject = subject-get _ (require-true _ _ u3 e3);
                        unexpired = λ e k. law.unexpired _ clock fs e valid k;
                      }),
                    )

    -- A token that is verified against the client's metadata, given or looked up.
    pub record IsVerified (client_id encoded nonce : Text) (given : Option OidcMetadata)
        (t : Moment is_netloc settings jose) (c : Client jose.KeySet) (claims : Fields)
        : Type 0 where
      pub metadata : OidcMetadata
      pub client : Client jose.KeySet
      pub known : metadata_or is_netloc settings jose given t.discovery c ≡ (ok metadata, client)
      pub signed : IsSigned is_netloc settings jose encoded metadata client t.first t.second claims
      pub identity : IsIdentity client_id nonce metadata t.clock claims

    -- Where `verify_id_token` returns claims, they are those of the given token, whose signature was
    -- checked with the allowed algorithms against keys that were cached or fetched from the provider's
    -- key address; the issuer is the metadata's, the audience is this client alone, the nonce is that
    -- of the login, the subject is not blank, and an integer expiry is not past by more than the clock
    -- skew; for a registry that behaves as documented.
    pub verify_id_token-IsVerified :
        (client_id encoded nonce : Text) (given : Option OidcMetadata)
        (t : Moment is_netloc settings jose) (c : Client jose.KeySet) (claims : Fields)
        → (verify_id_token is_netloc settings jose client_id encoded nonce given t c).0 ≡ ok claims
        → IsVerified client_id encoded nonce given t c claims
    unfolding verify_id_token
    verify_id_token-IsVerified client_id encoded nonce given t c claims h =
        let (m, c₁, known, h1) =
          and_then-ok (metadata_or is_netloc settings jose given t.discovery c) _ claims h in
        let (fs, c₂, signed, h2) =
          and_then-ok (decode_signed_token is_netloc settings jose encoded m t.first t.second c₁) _
            claims h1 in
        let (same, identity) = check_identity-IsIdentity client_id nonce m t.clock fs claims h2 in
        record {
          metadata = m;
          client = c₁;
          known = known;
          signed =
              decode_signed_token-IsSigned is_netloc settings jose encoded m t.first t.second c₁
                claims (rw signed (ap (λ q. ok q) same));
          identity = identity;
        }

    -- The claims of a workload token for this audience.
    pub record IsAccess (audience : Text) (m : OidcMetadata) (clock : ℕ) (claims : Fields)
        : Type 0 where
      pub addressed : In audience (audiences (get (codes "aud") claims))
      pub issued : get (codes "iss") claims ≡ some (str m.issuer)
      pub unexpired :
          (e : ℕ)
          → get (codes "exp") claims ≡ some (int e)
          → clock ≤ e + settings.auth_clock_skew_seconds

    check_access-IsAccess :
        (audience : Text) (m : OidcMetadata) (clock : ℕ) (fs claims : Fields)
        → check_access is_netloc settings jose audience m clock fs ≡ ok claims
        → (fs ≡ claims) × IsAccess audience m clock claims
    unfolding check_access access_registry
    check_access-IsAccess audience m clock fs claims h =
        >>=-elim (require (contains (audiences (get (codes "aud") fs)) audience) _) _ h λ u0 e0 h0.
          >>=-elim
            (require (jose.validate (access_registry is_netloc settings jose m.issuer) clock fs) _)
            _ h0
            λ u1 e1 h1.
              let same = ok-injective {E = Failure} h1 in
              let valid = require-true _ _ u1 e1 in
              (
                same,
                ok-to {E = Failure} (IsAccess audience m clock) h1 (record {
                  addressed = contains_sound _ audience (require-true _ _ u0 e0);
                  issued = law.valued _ clock fs (codes "iss") m.issuer valid (inl refl);
                  unexpired = λ e k. law.unexpired _ clock fs e valid k;
                }),
              )

    pub record IsVerifiedAccess (encoded audience : Text) (given : Option OidcMetadata)
        (t : Moment is_netloc settings jose) (c : Client jose.KeySet) (claims : Fields)
        : Type 0 where
      pub metadata : OidcMetadata
      pub client : Client jose.KeySet
      pub known : metadata_or is_netloc settings jose given t.discovery c ≡ (ok metadata, client)
      pub signed : IsSigned is_netloc settings jose encoded metadata client t.first t.second claims
      pub access : IsAccess audience metadata t.clock claims

    -- Where `verify_access_token` returns claims, they are those of the given token, whose signature
    -- was checked as for an identity token; it was issued by the provider for the audience, among
    -- others perhaps, and an integer expiry is not past by more than the clock skew; for a registry
    -- that behaves as documented.
    pub verify_access_token-IsVerified :
        (encoded audience : Text) (given : Option OidcMetadata) (t : Moment is_netloc settings jose)
        (c : Client jose.KeySet) (claims : Fields)
        → (verify_access_token is_netloc settings jose encoded audience given t c).0 ≡ ok claims
        → IsVerifiedAccess encoded audience given t c claims
    unfolding verify_access_token
    verify_access_token-IsVerified encoded audience given t c claims h =
        let (m, c₁, known, h1) =
          and_then-ok (metadata_or is_netloc settings jose given t.discovery c) _ claims h in
        let (fs, c₂, signed, h2) =
          and_then-ok (decode_signed_token is_netloc settings jose encoded m t.first t.second c₁) _
            claims h1 in
        let (same, access) = check_access-IsAccess audience m t.clock fs claims h2 in
        record {
          metadata = m;
          client = c₁;
          known = known;
          signed =
              decode_signed_token-IsSigned is_netloc settings jose encoded m t.first t.second c₁
                claims (rw signed (ap (λ q. ok q) same));
          access = access;
        }
