-- ===== src/Settings/Profiles.antt =====
-- A profile made from the settings, and the logins that use it.
use tpl_backend.Base.{
  ◌≡◌, refl, sym, subst, ◌∙◌, inl, inr, Bool, true, false, List, [], Text, any, In, Result, ok, err,
  >>=-elim, require, ok-injective, traverse,
}
use tpl_backend.Auth.Errors.{Failure}
use tpl_backend.Auth.Principal.{Surface}
use tpl_backend.Auth.Profile.{Profile, split_csv, is_relative_path, url_path, is_under}
use tpl_backend.Auth.Profile.Paths.{IsPathOf, IsUnder, url_path-IsPathOf, is_under-IsUnder}
use tpl_backend.Auth.Profile.Returns.{IsSafe, IsReturn, is_relative_path-IsSafe, any-witness}
use tpl_backend.Settings.{
  SettingsError, unsafe_path, return_not_allowed, no_origins, Settings, SurfaceSettings,
  surface_settings, text_or, validate_relative_path, path_or_invalid, has_some, strict_origin,
  return_paths, profile_of, unique_from, browser_profile,
}

pub require-true : {E : Type 0} (b : Bool) (e : E) (u : Unit {0}) → require b e ≡ ok u → b ≡ true
require-true true e u h = refl
require-true false e u h = cc

pub validate_relative_path-IsSafe :
    (value r : Text) → validate_relative_path value ≡ ok r → (value ≡ r) × IsSafe r
unfolding validate_relative_path
validate_relative_path-IsSafe value r h =
    >>=-elim (require (is_relative_path value) unsafe_path) _ h λ u e h1.
      let same = ok-injective {E = SettingsError} h1 in
      (same, subst IsSafe same (is_relative_path-IsSafe value (require-true _ _ u e)))

path_or_invalid-ok :
    (r : Result Failure Text) (path : Text) → path_or_invalid r ≡ ok path → r ≡ ok path
path_or_invalid-ok (err e) path h = cc
path_or_invalid-ok (ok p) path h = let same = ok-injective {E = SettingsError} h in rw same refl

-- A path that is below one of those allowed.
pub IsAllowed : List Text → Text → Type 0
IsAllowed allowed value =
    (path : Text) × (a : Text) × IsPathOf value path × In a allowed × IsUnder path a

module _ (is_netloc : Text → Bool) where
  return_paths-IsAllowed :
      (c : SurfaceSettings) (allowed : List Text)
      → return_paths is_netloc c ≡ ok allowed
      → IsAllowed allowed c.auth_default_return_to
  unfolding return_paths IsAllowed
  return_paths-IsAllowed c allowed h =
      >>=-elim (traverse validate_relative_path (split_csv c.auth_allowed_return_paths)) _ h
        λ paths e h1. >>=-elim (require (has_some paths) return_not_allowed) _ h1 λ u e1 h2.
          >>=-elim (path_or_invalid (url_path is_netloc c.auth_default_return_to)) _ h2
            λ path e2 h3.
              >>=-elim (require (any (is_under path) paths) return_not_allowed) _ h3 λ v e3 h4.
                let (a, m, under) = any-witness (is_under path) paths (require-true _ _ v e3) in
                let same = ok-injective {E = SettingsError} h4 in
                (
                  path,
                  a,
                  url_path-IsPathOf is_netloc _ path (path_or_invalid-ok _ path e2),
                  subst (In a) same m,
                  is_under-IsUnder path a under,
                )

  -- What the settings of a surface make.
  pub record IsMade (s : Settings) (surface : Surface) (p : Profile) : Type 0 where
    pub base : Text
    pub origins : List Text
    pub allowed : List Text
    pub is_base : strict_origin is_netloc (surface_settings s surface).frontend_base_url ≡ ok base
    pub made :
        p
        ≡ profile_of s surface base
            (unique_from [] origins)
            (surface_settings s surface).auth_default_return_to
            allowed
    pub safe : IsSafe (surface_settings s surface).auth_default_return_to
    pub reaches : IsAllowed allowed (surface_settings s surface).auth_default_return_to

  pub browser_profile-IsMade :
      (s : Settings) (surface : Surface) (p : Profile)
      → browser_profile is_netloc s surface ≡ ok p
      → IsMade s surface p
  unfolding browser_profile
  browser_profile-IsMade s surface p h =
      let c = surface_settings s surface in
      >>=-elim (strict_origin is_netloc c.frontend_base_url) _ h λ base e h1.
        >>=-elim
          (traverse (strict_origin is_netloc) (split_csv (text_or c.frontend_allowed_origins base)))
          _ h1
          λ origins e1 h2.
            >>=-elim (require (has_some (unique_from [] origins)) no_origins) _ h2 λ u e2 h3.
              >>=-elim (validate_relative_path c.auth_default_return_to) _ h3 λ return_to e3 h4.
                >>=-elim (return_paths is_netloc c) _ h4 λ allowed e4 h5.
                  let (same, safe) =
                    validate_relative_path-IsSafe c.auth_default_return_to return_to e3 in
                  record {
                    base = base;
                    origins = origins;
                    allowed = allowed;
                    is_base = e;
                    made = sym (ok-injective {E = SettingsError} h5) ∙ rw (← same) refl;
                    safe = rw same safe;
                    reaches = return_paths-IsAllowed c allowed e4;
                  }

  either-IsAllowed :
      (p : Profile) (r : Text)
      → IsSafe p.default_return_to
      → IsAllowed p.allowed_return_paths p.default_return_to
      → IsReturn p r
      → IsSafe r × IsAllowed p.allowed_return_paths r
  unfolding IsReturn IsAllowed
  either-IsAllowed p r safe reaches (inl e) = rw e (safe, reaches)
  either-IsAllowed p r safe reaches (inr (s, (path, a, l, m, u))) = (s, (path, a, l, m, u))

  -- What `normalize_return_to` accepts is safe with a profile that the settings made.
  pub configured-IsSafe :
      (s : Settings) (surface : Surface) (p : Profile) (r : Text)
      → browser_profile is_netloc s surface ≡ ok p
      → IsReturn p r
      → IsSafe r × IsAllowed p.allowed_return_paths r
  unfolding profile_of
  configured-IsSafe s surface p r h k =
      let made = browser_profile-IsMade s surface p h in
      either-IsAllowed p r (rw made.made made.safe) (rw made.made made.reaches) k
