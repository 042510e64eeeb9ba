-- ===== src/Auth/Oidc/Outages.antt =====
-- What a verification in app/app/infrastructure/security/oidc.py may raise.
use tpl_backend.Base.{
  map, lower, text_eq, arith, ℕ, ◌≡◌, ◌++◌, refl, inl, inr, Bool, true, false, not, ◌||◌, ◌&&◌,
  Option, none, some, [], ◌∷◌, Text, codes, ◌==◌, if◌then◌else◌, Option-cases, Result-cases, Result,
  ◌≢◌, List, or_raise, ok-injective, ◌>>=◌, ok, err, ◌>>◌, require, is_empty, Raises, Raises-ok,
  Raises-err, Raises-or_raise, Raises-bind, Raises-require,
}
use mathlib.Core.Bool.{false≢true}
use tpl_backend.Base.Json.{Json, null, bool, int, negative, float, str, arr, obj, Fields, get}
use tpl_backend.Base.Url.{urlsplit, SplitResult, hostname, port, port_eq, has_userinfo}
use tpl_backend.Auth.Errors.{Failure, raised, crashed, library_error, unauthorized_error}
use tpl_backend.Settings.{is_http_scheme, is_production, is_bad, is_root_path, Settings, text_or}
use tpl_backend.Settings.Checks.{auth_allowed_algorithm_list}
use tpl_backend.Auth.Oidc.{
  OidcMetadata, Response, Exchange, Jose, Pairs, Reply, got, caught, leaked, reply_or,
  nonempty_text, split_or_crash, validate_provider_url, route_of, backchannel_target, fetch_key_set,
  unavailable, identity_token_invalid, accept_json,
}
use tpl_backend.Auth.Oidc.Client.{Client, Outcome, and_then, cached_keys, keep_keys, get_key_set}
use tpl_backend.Auth.Oidc.Tokens.{
  Attempt, decoded, refused, escaped, claims_of, attempt_with, last_attempt, retry,
  decode_signed_token, check_identity, Moment, metadata_or, verify_id_token, is_text,
  is_own_audience, is_subject, identity_registry,
}

-- The provider is unavailable, or an address made `urlsplit` raise.
abbrev pub is_outage : Failure → Bool
is_outage crashed = true
is_outage library_error = false
is_outage (raised e) = e.status_code == 503

-- The provider is unavailable, or the token is refused.
abbrev pub is_refusal : Failure → Bool
is_refusal crashed = false
is_refusal library_error = false
is_refusal (raised e) = e.status_code == 503 || e.status_code == 401

split-Raises : (o : Option SplitResult) → Raises is_outage (split_or_crash o)
split-Raises none = Raises-err _ is_outage crashed refl
split-Raises (some u) = Raises-ok is_outage u

text-Raises : (v : Json) (e : Failure) → is_outage e ≡ true → Raises is_outage (nonempty_text v e)
text-Raises (str (c ∷ s)) e h = Raises-ok is_outage (c ∷ s)
text-Raises (str []) e h = Raises-err _ is_outage e h
text-Raises null e h = Raises-err _ is_outage e h
text-Raises (bool b) e h = Raises-err _ is_outage e h
text-Raises (int n) e h = Raises-err _ is_outage e h
text-Raises (negative n) e h = Raises-err _ is_outage e h
text-Raises (float s) e h = Raises-err _ is_outage e h
text-Raises (arr vs) e h = Raises-err _ is_outage e h
text-Raises (obj fs) e h = Raises-err _ is_outage e h

-- The tests one after another, each with an outage.
guarded :
    {A : Type 0} (p : Failure → Bool) (b : Bool) (e : Failure) (rest : Result Failure A)
    → p e ≡ true
    → Raises p rest
    → Raises p (require b e >> rest)
guarded p b e rest h k = Raises-bind p (require b e) (λ _. rest) (Raises-require p b e h) (λ _. k)

outage-refusal : (a b : Bool) → a ≡ true → (a || b) ≡ true
outage-refusal a b h = ground arith

claims_of-escaped :
    (o : Reply Json) (e : Failure) → ◌≢◌ {A = Reply Json} o leaked → claims_of o ≡ escaped e → ⊥
claims_of-escaped caught e k h = cc
claims_of-escaped leaked e k h = k refl
claims_of-escaped (got (obj fs)) e k h = cc
claims_of-escaped (got _) e k h = cc

reply_or-Raises :
    {A : Type 0} (o : Reply A) (e : Failure)
    → is_outage e ≡ true
    → ◌≢◌ {A = Reply A} o leaked
    → Raises is_outage (reply_or o e)
reply_or-Raises (got a) e h k = Raises-ok is_outage a
reply_or-Raises caught e h k = Raises-err _ is_outage e h
reply_or-Raises leaked e h k = absurd (k refl)

-- What follows a call sees what the call returned.
Raises-after :
    {A : Type 0} {B : Type 0} (r : Result Failure A) (rest : A → Result Failure B)
    → Raises is_outage r
    → ((a : A) → r ≡ ok a → Raises is_outage (rest a))
    → Raises is_outage (r >>= rest)
unfolding Raises
Raises-after (err e) rest h k = λ f same. h f (cc (same))
Raises-after (ok a) rest h k = k a refl

reply_or-got : {A : Type 0} (o : Reply A) (e : Failure) (a : A) → reply_or o e ≡ ok a → o ≡ got a
reply_or-got (got b) e a h = let same = ok-injective {E = Failure} h in rw same refl
reply_or-got caught e a h = cc
reply_or-got leaked e a h = cc

or_raise-some : {A : Type 0} (o : Option A) (e : Failure) (a : A) → or_raise o e ≡ ok a → o ≡ some a
or_raise-some none e a h = cc
or_raise-some (some b) e a h = let same = ok-injective {E = Failure} h in rw same refl

-- The requests of an exchange raise only what the client catches, and so does the reading of the keys
-- from each document that the provider answers.
pub record IsSteady (jose : Jose) (x : Exchange) : Type 0 where
  pub sent : (url : Text) (headers : Pairs) → ◌≢◌ {A = Reply Response} (x.get url headers) leaked
  pub keyed :
      (url : Text) (headers : Pairs) (r : Response) (v : Json)
      → x.get url headers ≡ got r
      → r.json ≡ some v
      → ◌≢◌ {A = Reply jose.KeySet} (jose.import_key_set v) leaked

and_then-Raises :
    {K : Type 0} {A : Type 0} {B : Type 0} (o : Outcome K A) (rest : A → Client K → Outcome K B)
    → Raises is_refusal o.0
    → ((a : A) (c : Client K) → Raises is_refusal (rest a c).0)
    → Raises is_refusal (and_then o rest).0
unfolding Raises
and_then-Raises (err e, c) rest h k = λ f same. h f (cc (same))
and_then-Raises (ok a, c) rest h k = k a c

module _ (is_netloc : Text → Bool) (settings : Settings) where
  validate_provider_url-Raises :
      (v : Json) (field : Text)
      → Raises is_outage (validate_provider_url is_netloc settings v field)
  unfolding validate_provider_url
  validate_provider_url-Raises v field = Raises-bind is_outage _ _ (text-Raises v _ refl) λ value.
      Raises-bind is_outage _ _ (split-Raises (urlsplit is_netloc value)) λ parsed.
        Raises-bind is_outage _ _ (split-Raises (urlsplit is_netloc settings.casdoor_endpoint))
          λ endpoint.
            let invalid = unavailable (codes "OIDC metadata invalid " ++ field) in
            let cross_origin = unavailable (codes "OIDC metadata cross-origin " ++ field) in
            guarded is_outage (is_http_scheme parsed.scheme && not (is_empty (hostname parsed)))
              invalid _ refl
              (guarded is_outage (not (has_userinfo parsed) && is_empty parsed.fragment) invalid _
                refl
                (guarded is_outage
                  (not (is_production settings && not (text_eq parsed.scheme (codes "https"))))
                  (unavailable (codes "OIDC metadata requires HTTPS")) _ refl
                  (guarded is_outage
                    (not (is_empty (hostname endpoint))
                      && text_eq (map lower (hostname parsed)) (map lower (hostname endpoint)))
                    cross_origin _ refl
                    (guarded is_outage (not (is_bad (port parsed) || is_bad (port endpoint)))
                      crashed _ refl
                      (guarded is_outage (port_eq (port parsed) (port endpoint)) cross_origin _ refl
                        (Raises-ok is_outage value))))))

  route_of-Raises :
      (configured url : Text) → Raises is_outage (route_of is_netloc settings configured url)
  unfolding route_of
  route_of-Raises configured url =
      Raises-bind is_outage _ _ (split-Raises (urlsplit is_netloc configured)) λ backchannel.
        guarded is_outage
          (is_http_scheme backchannel.scheme
            && not (is_empty (hostname backchannel))
            && not (has_userinfo backchannel)
            && is_root_path backchannel.path
            && is_empty backchannel.query
            && is_empty backchannel.fragment)
          (unavailable (codes "OIDC backchannel endpoint invalid")) _ refl
          (Raises-bind is_outage _ _ (split-Raises (urlsplit is_netloc url)) λ parsed.
            Raises-bind is_outage _ _ (split-Raises (urlsplit is_netloc settings.casdoor_endpoint))
              λ endpoint. Raises-ok is_outage _)

  if-Raises :
      {A : Type 0} (b : Bool) (x y : Result Failure A)
      → Raises is_outage x
      → Raises is_outage y
      → Raises is_outage (if b then x else y)
  if-Raises true x y h k = h
  if-Raises false x y h k = k

  backchannel_target-Raises :
      (url field : Text) → Raises is_outage (backchannel_target is_netloc settings url field)
  unfolding backchannel_target
  backchannel_target-Raises url field =
      Raises-bind is_outage _ _ (validate_provider_url-Raises (str url) field) λ valid.
        if-Raises _ _ _ (Raises-ok is_outage _)
          (route_of-Raises (text_or settings.casdoor_backchannel_endpoint []) valid)

  module _ (jose : Jose) where
    fetch_key_set-Raises :
        (x : Exchange) (m : OidcMetadata)
        → IsSteady jose x
        → Raises is_outage (fetch_key_set is_netloc settings jose x m)
    unfolding fetch_key_set
    fetch_key_set-Raises x m steady =
        let down = unavailable (codes "OIDC JWKS unavailable") in
        let bad = unavailable (codes "OIDC JWKS invalid") in
        Raises-bind is_outage _ _ (backchannel_target-Raises m.jwks_uri (codes "jwks_uri"))
          λ (target : Text × Pairs).
            Raises-after _ _
              (reply_or-Raises (x.get target.0 (accept_json ∷ target.1)) down refl
                (steady.sent target.0 (accept_json ∷ target.1)))
              λ (response : Response) answered.
                guarded is_outage (response.status_code == 200) down _ refl (
                  Raises-after _ _ (Raises-or_raise is_outage response.json bad refl)
                    λ (payload : Json) read.
                      reply_or-Raises (jose.import_key_set payload) bad refl (
                        steady.keyed target.0 (accept_json ∷ target.1) response payload
                          (reply_or-got _ down response answered)
                          (or_raise-some _ bad payload read)))

    keep_keys-Raises :
        (now : ℕ) (r : Result Failure jose.KeySet) (c : Client jose.KeySet)
        → Raises is_outage r
        → Raises is_outage (keep_keys is_netloc settings now r c).0
    unfolding keep_keys
    keep_keys-Raises now (err e) c h = h
    keep_keys-Raises now (ok k) c h = h

    get_key_set-Raises :
        (m : OidcMetadata) (force : Bool) (x : Exchange) (c : Client jose.KeySet)
        → IsSteady jose x
        → Raises is_outage (get_key_set is_netloc settings jose m force x c).0
    unfolding get_key_set
    get_key_set-Raises m force x c steady =
        elim (Option-cases (cached_keys is_netloc settings force x.now c)) [
          | inl e ↦
              rw (e, get_key_set) (keep_keys-Raises x.now _ c (fetch_key_set-Raises x m steady))
          | inr (k, e) ↦ rw (e, get_key_set) (Raises-ok is_outage k)
        ]

    -- No exception but those that the client catches comes out of the decoding of the token.
    unfoldable pub Decodes : Text → Type 0
    Decodes encoded =
        (keys : jose.KeySet) (algorithms : List Text)
        → ◌≢◌ {A = Reply Json} (jose.decode encoded keys algorithms) leaked

    attempt_with-escaped :
        (encoded : Text) (r : Result Failure jose.KeySet) (e : Failure)
        → Decodes encoded
        → Raises is_outage r
        → attempt_with is_netloc settings jose encoded r ≡ escaped e
        → is_refusal e ≡ true
    unfolding attempt_with Raises Decodes
    attempt_with-escaped encoded (err crashed) e safe h k = cc
    attempt_with-escaped encoded (err library_error) e safe h k =
        absurd (false≢true (h library_error refl))
    attempt_with-escaped encoded (err (raised a)) e safe h k =
        let same : raised a ≡ e = cc (k) in
        let down = h (raised a) refl in rw (← same) (outage-refusal (a.status_code == 503) _ down)
    attempt_with-escaped encoded (ok keys) e safe h k =
        elim (Result-cases (auth_allowed_algorithm_list settings)) [
          | inl (algorithms, a) ↦
              absurd (claims_of-escaped _ e (safe keys algorithms) (rw (a, attempt_with) at k))
          | inr (f, a) ↦ let no : refused ≡ escaped e = rw (a, attempt_with) at k in cc
        ]

    last_attempt-Raises :
        (a : Attempt)
        → ((e : Failure) → a ≡ escaped e → is_refusal e ≡ true)
        → Raises is_refusal (last_attempt is_netloc settings jose a)
    unfolding last_attempt
    last_attempt-Raises (decoded claims) h = Raises-ok is_refusal claims
    last_attempt-Raises refused h = Raises-err _ is_refusal _ refl
    last_attempt-Raises (escaped e) h = Raises-err _ is_refusal e (h e refl)

    retry-Raises :
        (encoded : Text) (m : OidcMetadata) (x : Exchange) (a : Attempt) (c : Client jose.KeySet)
        → Decodes encoded
        → IsSteady jose x
        → ((e : Failure) → a ≡ escaped e → is_refusal e ≡ true)
        → Raises is_refusal (retry is_netloc settings jose encoded m x a c).0
    unfolding retry
    retry-Raises encoded m x (decoded claims) c safe steady h = Raises-ok is_refusal claims
    retry-Raises encoded m x (escaped e) c safe steady h = Raises-err _ is_refusal e (h e refl)
    retry-Raises encoded m x refused c safe steady h =
        last_attempt-Raises _
          λ e k. attempt_with-escaped encoded _ e safe (get_key_set-Raises m true x c steady) k

    decode_signed_token-Raises :
        (encoded : Text) (m : OidcMetadata) (x x' : Exchange) (c : Client jose.KeySet)
        → Decodes encoded
        → IsSteady jose x
        → IsSteady jose x'
        → Raises is_refusal (decode_signed_token is_netloc settings jose encoded m x x' c).0
    unfolding decode_signed_token
    decode_signed_token-Raises encoded m x x' c safe steady steady' =
        retry-Raises encoded m x' _ _ safe steady'
          λ e k. attempt_with-escaped encoded _ e safe (get_key_set-Raises m false x c steady) k

    check_identity-Raises :
        (client_id nonce : Text) (m : OidcMetadata) (clock : ℕ) (claims : Fields)
        → Raises is_refusal (check_identity is_netloc settings jose client_id m nonce clock claims)
    unfolding check_identity
    check_identity-Raises client_id nonce m clock claims =
        let issuer =
          unauthorized_error (codes "The identity token issuer is invalid")
            (codes "issuer_mismatch") in
        let audience =
          unauthorized_error (codes "The identity token audience is invalid")
            (codes "audience_mismatch") in
        guarded is_refusal (is_text (get (codes "iss") claims) m.issuer) issuer _ refl (
          guarded is_refusal (is_own_audience (get (codes "aud") claims) client_id) audience _ refl
            (guarded is_refusal
              (jose.validate (identity_registry is_netloc settings jose m.issuer nonce) clock
                claims)
              identity_token_invalid _ refl
              (guarded is_refusal (is_subject (get (codes "sub") claims)) identity_token_invalid _
                refl (Raises-ok is_refusal claims))))

    -- With known metadata, and while the requests, the reading of the answered keys and the decoding of
    -- the token raise nothing but what the client catches, `verify_id_token` returns claims or raises an
    -- exception of the application with status 401 or 503: the `ValueError` of an address does not come
    -- out.
    pub verify_id_token-Raises :
        (client_id encoded nonce : Text) (m : OidcMetadata) (t : Moment is_netloc settings jose)
        (c : Client jose.KeySet)
        → IsSteady jose t.first
        → IsSteady jose t.second
        → Decodes encoded
        → Raises is_refusal
            (verify_id_token is_netloc settings jose client_id encoded nonce (some m) t c).0
    unfolding verify_id_token metadata_or
    verify_id_token-Raises client_id encoded nonce m t c first second safe =
        and_then-Raises (decode_signed_token is_netloc settings jose encoded m t.first t.second c) _
          (decode_signed_token-Raises encoded m t.first t.second c safe first second)
          λ claims c₂. check_identity-Raises client_id nonce m t.clock claims
