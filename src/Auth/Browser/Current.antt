-- ===== src/Auth/Browser/Current.antt =====
-- What a session that `get_browser_session` returns satisfies, and what becomes of the others.
use tpl_backend.Base.{
  ℕ, ◌≡◌, ◌≤◌, ◌<◌, refl, ◌∙◌, inl, inr, true, Option, none, some, Text, text_eq_sound, Bool-cases,
  Option-cases, and_true, arith, [], ◌∷◌, ◌⊎◌, is_empty, ltb, length, ◌||◌,
}
use tpl_backend.Auth.Principal.{
  Surface, admin, web, internal, surface_eq, Principal, BrowserSession,
}
use tpl_backend.Auth.Sessions.{IsSessionStore}
use tpl_backend.Auth.Service.{AuthService, known_id, session_key}
use tpl_backend.Auth.Browser.{
  is_current, current_session, found_session, get_browser_session, delete_session,
}

surface_eq_sound : (s t : Surface) → surface_eq s t ≡ true → s ≡ t
unfolding surface_eq
surface_eq_sound admin admin h = refl
surface_eq_sound web web h = refl
surface_eq_sound internal internal h = refl
surface_eq_sound _ _ h = cc

-- A principal of this service and surface that has not expired.
pub record IsCurrent (a : AuthService) (now : ℕ) (p : Principal) : Type 0 where
  pub lasts : now < p.expires_at
  pub app : p.app ≡ a.settings.app_slug
  pub surface : p.surface ≡ a.profile.surface
  pub audience : p.audience ≡ a.profile.client_id
  pub policy : p.policy_version ≡ a.profile.policy_version

is_current-IsCurrent :
    (a : AuthService) (now : ℕ) (p : Principal) → is_current a now p ≡ true → IsCurrent a now p
unfolding is_current
is_current-IsCurrent a now p h =
    let (h1, policy) = and_true _ _ h in
    let (h2, audience) = and_true _ _ h1 in
    let (h3, surface) = and_true _ _ h2 in
    let (lasts, app) = and_true _ _ h3 in
    record {
      lasts = ground arith;
      app = text_eq_sound _ _ app;
      surface = surface_eq_sound _ _ surface;
      audience = text_eq_sound _ _ audience;
      policy = text_eq_sound _ _ policy;
    }

-- What `found_session` may do: nothing to find, a session that is returned, or one that is deleted.
data Outcome (a : AuthService) (now : ℕ) (k : Text) (s : a.sessions.State)
    : Option Text → Option BrowserSession × a.sessions.State → Type 0 where
  absent : (raw : Option Text) → (raw ≡ none) ⊎ (raw ≡ some []) → Outcome a now k s raw (none, s)
  returned :
      (raw : Text) (b : BrowserSession)
      → a.codec.model_validate_json raw ≡ some b
      → IsCurrent a now b.principal
      → Outcome a now k s (some raw) (some b, s)
  discarded : (raw : Text) → Outcome a now k s (some raw) (none, a.sessions.delete now k s)

module _ (a : AuthService) (now : ℕ) where
  current_session-none_or :
      (v : Option BrowserSession)
      → (current_session a now v ≡ none)
        ⊎ ((b : BrowserSession) × (v ≡ some b)
            × (current_session a now v ≡ some b)
            × IsCurrent a now b.principal)
  unfolding current_session
  current_session-none_or none = inl refl
  current_session-none_or (some b) = elim (Bool-cases (is_current a now b.principal)) [
    | inl e ↦ inr (b, refl, rw e refl, is_current-IsCurrent a now b.principal e)
    | inr e ↦ inl (rw e refl)
  ]

  found_session-Outcome :
      (k : Text) (raw : Option Text) (s : a.sessions.State)
      → Outcome a now k s raw (found_session a now k raw s)
  found_session-Outcome k none s = absent none (inl refl)
  found_session-Outcome k (some []) s = absent (some []) (inr refl)
  found_session-Outcome k (some (c ∷ raw)) s =
      elim (current_session-none_or (a.codec.model_validate_json (c ∷ raw))) [
        | inl e ↦ rw (e, found_session) (discarded (c ∷ raw))
        | inr (b, v, e, current) ↦ rw (e, found_session) (returned (c ∷ raw) b v current)
      ]

Outcome-returned :
    {a : AuthService} {now : ℕ} {k : Text} {s : a.sessions.State} {raw : Option Text}
    {r : Option BrowserSession × a.sessions.State} (b : BrowserSession)
    → Outcome a now k s raw r
    → r.0 ≡ some b
    → IsCurrent a now b.principal
      × ((v : Text) × (raw ≡ some v) × (a.codec.model_validate_json v ≡ some b))
      × (r.1 ≡ s)
Outcome-returned b (absent raw h) e = cc
Outcome-returned b (returned raw c v current) e =
    let same : c ≡ b = cc (e) in (rw (← same) current, (raw, refl, rw (← same) v), refl)
Outcome-returned b (discarded raw) e = cc

Outcome-none :
    {a : AuthService} {t now later : ℕ} {k : Text} {s : a.sessions.State} {raw : Option Text}
    {r : Option BrowserSession × a.sessions.State}
    → IsSessionStore a.sessions
    → t ≤ later
    → now ≤ later
    → Outcome a now k s raw r
    → a.sessions.read t k s ≡ raw
    → r.0 ≡ none
    → (raw ≡ some []) ⊎ (a.sessions.read later k r.1 ≡ none)
Outcome-none {t} {later} {k} {s} law le le' (absent _ (inl e)) stored h =
    inr (law.read_later t later k s le (stored ∙ e))
Outcome-none law le le' (absent _ (inr e)) stored h = inl e
Outcome-none law le le' (returned raw b v current) stored h = cc
Outcome-none {now} {later} {k} {s} law le le' (discarded raw) stored h =
    inr (law.read-delete now later k s le')

pub known_id-cases : (id : Text) → (known_id (some id) ≡ none) ⊎ (known_id (some id) ≡ some id)
unfolding known_id
known_id-cases id = elim (Bool-cases (is_empty id || ltb 256 (length id))) [
  | inl e ↦ inl (rw e refl)
  | inr e ↦ inr (rw e refl)
]

-- A session comes back only while it lasts, and only as it is stored under its identifier for this
-- application, surface, client and policy version; the store is left as it was.
pub get_browser_session-IsCurrent :
    (a : AuthService) (t now : ℕ) (id : Text) (s : a.sessions.State) (b : BrowserSession)
    → (get_browser_session a t now (some id) s).0 ≡ some b
    → IsCurrent a now b.principal
      × ((v : Text) × (a.sessions.read t (session_key a id) s ≡ some v)
          × (a.codec.model_validate_json v ≡ some b))
      × ((get_browser_session a t now (some id) s).1 ≡ s)
unfolding get_browser_session
get_browser_session-IsCurrent a t now id s b h = elim (known_id-cases id) [
  | inl e ↦
      let no : ◌≡◌ {A = Option BrowserSession} none (some b) = rw (e, get_browser_session) at h in
      cc
  | inr e ↦
      rw (e, get_browser_session)
        (Outcome-returned b
          (found_session-Outcome a now (session_key a id) (a.sessions.read t (session_key a id) s)
            s)
          (rw (e, get_browser_session) at h))
]

-- With a store that behaves as documented, and an identifier of an allowed length: what
-- `get_browser_session` refuses it deletes, so that nothing is stored under the identifier later,
-- unless the stored text was empty.
pub get_browser_session-discards :
    (a : AuthService) (t now later : ℕ) (id : Text) (s : a.sessions.State)
    → IsSessionStore a.sessions
    → known_id (some id) ≡ some id
    → t ≤ now
    → now ≤ later
    → (get_browser_session a t now (some id) s).0 ≡ none
    → (a.sessions.read t (session_key a id) s ≡ some [])
      ⊎ (a.sessions.read later (session_key a id) (get_browser_session a t now (some id) s).1
          ≡ none)
unfolding get_browser_session
get_browser_session-discards a t now later id s law e le le' h =
    rw (e, get_browser_session)
      (Outcome-none law (omega arith) le'
        (found_session-Outcome a now (session_key a id) (a.sessions.read t (session_key a id) s) s)
        refl (rw (e, get_browser_session) at h))

get_browser_session-absent :
    (a : AuthService) (t now : ℕ) (id : Option Text) (s : a.sessions.State)
    → ((y : Text) → known_id id ≡ some y → a.sessions.read t (session_key a y) s ≡ none)
    → get_browser_session a t now id s ≡ (none, s)
unfolding get_browser_session
get_browser_session-absent a t now id s gone = elim (Option-cases (known_id id)) [
  | inl e ↦ rw (e, get_browser_session) refl
  | inr (y, e) ↦ rw (e, get_browser_session, gone y e) refl
]

read-delete_session :
    (a : AuthService) (t t' : ℕ) (id : Option Text) (s : a.sessions.State) (y : Text)
    → IsSessionStore a.sessions
    → t ≤ t'
    → known_id id ≡ some y
    → a.sessions.read t' (session_key a y) (delete_session a t id s) ≡ none
unfolding delete_session
read-delete_session a t t' id s y law le e =
    rw (e, delete_session) (law.read-delete t t' (session_key a y) s le)

-- With a store that behaves as documented, after `delete_session` the identifier opens no session, at any later time.
pub get_browser_session-delete_session :
    (a : AuthService) (t t' now : ℕ) (id : Option Text) (s : a.sessions.State)
    → IsSessionStore a.sessions
    → t ≤ t'
    → get_browser_session a t' now id (delete_session a t id s) ≡ (none, delete_session a t id s)
get_browser_session-delete_session a t t' now id s law le =
    get_browser_session-absent a t' now id (delete_session a t id s)
      (λ y e. read-delete_session a t t' id s y law le e)
