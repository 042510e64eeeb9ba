-- ===== src/Settings/Production.antt =====
-- What the validation of the settings establishes before a production process serves.
use tpl_backend.Base.{
  unnegate, ◌≡◌, refl, Bool, true, false, not, ◌&&◌, List, [], ◌∷◌, Text, codes, all, contains,
  contains_sound, In, All, all-true, All-map, Option, none, some, ok, >>=-elim, require,
  ok-injective, ok-to, arith, if◌then◌else◌, text_eq_sound,
}
use tpl_backend.Base.Url.{SplitResult, urlsplit}
use tpl_backend.Auth.Principal.{Surface}
use tpl_backend.Auth.Profile.{Profile, split_csv}
use tpl_backend.Settings.{
  SettingsError, Settings, is_production, or_invalid, url_invalid, insecure_origins, has_some,
  no_algorithms, symmetric_algorithm, browser_profile, no_deployment_id, invalid_app_slug,
  wildcard_hosts, no_hosts, unverified_tls, insecure_cookie, invalid_locale,
}
use tpl_backend.Settings.Checks.{
  auth_cookie_secure, asymmetric, auth_allowed_algorithm_list, is_false, is_blank, is_slug,
  is_locale, surfaces_of, require_https, check_origins, check_surfaces, validate_base_security,
  check_process,
}
use tpl_backend.Settings.Profiles.{require-true}

pub denied : (a b : Bool) → a ≡ true → not (a && b) ≡ true → b ≡ false
denied a b h k = ground arith

denied_first : (a b : Bool) → b ≡ true → not (a && b) ≡ true → a ≡ false
denied_first a b h k = ground arith

-- Every algorithm that a token may be signed with is an asymmetric one.
algorithms-asymmetric :
    (s : Settings) (values : List Text)
    → auth_allowed_algorithm_list s ≡ ok values
    → All (λ v. In v asymmetric) values
unfolding auth_allowed_algorithm_list
algorithms-asymmetric s values h =
    let found = split_csv s.auth_allowed_algorithms in
    >>=-elim (require (has_some found) no_algorithms) _ h λ u e h1.
      >>=-elim (require (all (contains asymmetric) found) symmetric_algorithm) _ h1 λ v e1 h2.
        ok-to {E = SettingsError} (All (λ v. In v asymmetric)) h2 (
          All-map (λ t. contains asymmetric t ≡ true) (λ t. In t asymmetric) found
            (λ t k. contains_sound asymmetric t k)
            (all-true (contains asymmetric) found (require-true _ _ v e1)))

-- What production asks of the process.
pub record IsSealed (s : Settings) : Type 0 where
  pub hosts : contains (split_csv s.allowed_hosts) (codes "*") ≡ false
  pub provider_tls : s.casdoor_verify_ssl ≡ true
  pub cookies : auth_cookie_secure s ≡ true
  pub reference : s.reference_interaction_enabled ≡ false

secure_cookie :
    (s : Settings)
    → is_production s ≡ true
    → not (is_production s && is_false s.session_cookie_secure) ≡ true
    → auth_cookie_secure s ≡ true
unfolding auth_cookie_secure
secure_cookie s live h = ground arith

module _ (s : Settings) where
  abbrev no_wildcard : Bool
  no_wildcard = not (contains (split_csv s.allowed_hosts) (codes "*") && is_production s)

  abbrev verified : Bool
  verified = not (is_production s && not s.casdoor_verify_ssl)

  abbrev kept_secure : Bool
  kept_secure = not (is_production s && is_false s.session_cookie_secure)

  abbrev without_reference : Bool
  without_reference = not (is_production s && s.reference_interaction_enabled)

  check_process-IsSealed :
      (v : Unit {0}) → is_production s ≡ true → check_process s ≡ ok v → IsSealed s
  unfolding check_process
  check_process-IsSealed v live h =
      >>=-elim (require (not (is_blank s.deployment_id)) no_deployment_id) _ h λ u0 e0 h0.
        >>=-elim (require (is_slug s.app_slug) invalid_app_slug) _ h0 λ u1 e1 h1.
          >>=-elim (require no_wildcard wildcard_hosts) _ h1 λ u2 e2 h2.
            >>=-elim (require (has_some (split_csv s.allowed_hosts)) no_hosts) _ h2 λ u3 e3 h3.
              >>=-elim (require verified unverified_tls) _ h3 λ u4 e4 h4.
                >>=-elim (require kept_secure insecure_cookie) _ h4 λ u5 e5 h5. record {
                  hosts = denied_first _ (is_production s) live (require-true _ _ u2 e2);
                  provider_tls =
                      unnegate (denied (is_production s) _ live (require-true _ _ u4 e4));
                  cookies = secure_cookie s live (require-true _ _ u5 e5);
                  reference = denied (is_production s) _ live (require-true _ _ v h5);
                }

pub or_invalid-ok :
    (o : Option SplitResult) (e : SettingsError) (u : SplitResult)
    → or_invalid o e ≡ ok u
    → o ≡ some u
or_invalid-ok none e u h = cc
or_invalid-ok (some v) e u h = let same = ok-injective {E = SettingsError} h in rw same refl

module _ (is_netloc : Text → Bool) where
  -- An origin with the scheme `https`.
  pub IsSecure : Text → Type 0
  IsSecure origin =
      (u : SplitResult) × (urlsplit is_netloc origin ≡ some u) × (u.scheme ≡ codes "https")

  pub require_https-IsSecure :
      (refusal : SettingsError) (origin : Text) (v : Unit {0})
      → require_https is_netloc refusal origin ≡ ok v
      → IsSecure origin
  unfolding require_https IsSecure
  require_https-IsSecure refusal origin v h =
      >>=-elim (or_invalid (urlsplit is_netloc origin) url_invalid) _ h λ u e h1.
        (u, or_invalid-ok _ _ u e, text_eq_sound u.scheme (codes "https") (require-true _ _ v h1))

  check_origins-IsSecure :
      (origins : List Text) (v : Unit {0})
      → check_origins is_netloc origins ≡ ok v
      → All IsSecure origins
  unfolding check_origins
  check_origins-IsSecure [] v h = tt
  check_origins-IsSecure (origin ∷ origins) v h =
      >>=-elim (require_https is_netloc insecure_origins origin) _ h λ u e h1.
        (require_https-IsSecure insecure_origins origin u e, check_origins-IsSecure origins v h1)

  -- The surface has a profile, whose origins are all secure.
  pub HasSecureOrigins : Settings → Surface → Type 0
  HasSecureOrigins s surface =
      (p : Profile) × (browser_profile is_netloc s surface ≡ ok p) × All IsSecure p.frontend_origins

  check_surfaces-HasSecureOrigins :
      (s : Settings) (surfaces : List Surface) (v : Unit {0})
      → is_production s ≡ true
      → check_surfaces is_netloc s surfaces ≡ ok v
      → All (HasSecureOrigins s) surfaces
  unfolding check_surfaces HasSecureOrigins
  check_surfaces-HasSecureOrigins s [] v live h = tt
  check_surfaces-HasSecureOrigins s (surface ∷ surfaces) v live h =
      >>=-elim (browser_profile is_netloc s surface) _ h λ p e h1.
        >>=-elim (if is_production s then check_origins is_netloc p.frontend_origins else ok tt) _
          h1
          λ u e1 h2. (
            (p, e, check_origins-IsSecure p.frontend_origins u (rw live at e1)),
            check_surfaces-HasSecureOrigins s surfaces v live h2,
          )

  pub record IsHardened (s : Settings) : Type 0 where
    pub process : IsSealed s
    pub surfaces : All (HasSecureOrigins s) (surfaces_of none)
    pub algorithms :
        (values : List Text) × (auth_allowed_algorithm_list s ≡ ok values)
        × All (λ v. In v asymmetric) values

  -- A process in production whose settings pass the validation checks the certificate of the provider,
  -- sets its cookies for HTTPS only, has the reference interaction off, does not list the host `*`,
  -- accepts only asymmetric signatures, and every origin of both frontends is an HTTPS address.
  pub validate_base_security-IsHardened :
      (s : Settings) (v : Unit {0})
      → is_production s ≡ true
      → validate_base_security is_netloc s ≡ ok v
      → IsHardened s
  unfolding validate_base_security
  validate_base_security-IsHardened s v live h = >>=-elim (check_process s) _ h λ u0 e0 h0.
      >>=-elim (check_surfaces is_netloc s (surfaces_of none)) _ h0 λ u1 e1 h1.
        >>=-elim (require (is_locale s.web_frontend_default_locale) invalid_locale) _ h1 λ u2 e2 h2.
          >>=-elim (auth_allowed_algorithm_list s) _ h2 λ values e3 h3. record {
            process = check_process-IsSealed s u0 live e0;
            surfaces = check_surfaces-HasSecureOrigins s (surfaces_of none) u1 live e1;
            algorithms = (values, e3, algorithms-asymmetric s values e3);
          }
