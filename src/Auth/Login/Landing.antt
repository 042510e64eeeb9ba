-- ===== src/Auth/Login/Landing.antt =====
-- Where `complete_login` of app/app/application/services/auth_service.py sends the browser.
use tpl_backend.Base.{
  ◌≡◌, refl, ap, inl, inr, Bool, true, false, Option, none, some, [], ◌∷◌, Text, Option-cases,
  Result, ok, err, ok-injective,
}
use tpl_backend.Base.Json.{Json}
use tpl_backend.Auth.Errors.{Failure}
use tpl_backend.Auth.Principal.{BrowserSession}
use tpl_backend.Auth.Profile.Returns.{IsReturn}
use tpl_backend.Auth.Sessions.{Claims}
use tpl_backend.Auth.Service.{AuthService, known_id, transaction_error}
use tpl_backend.Auth.Login.{
  Instants, SessionSecrets, SessionStart, check_transaction, created, store_session, exchanged,
  checked, taken, complete_login,
}
use tpl_backend.Auth.Login.Checks.{check_transaction-IsMatched}

module _ (a : AuthService) (i : Instants) (x : SessionSecrets) where
  module _ (return_to : Text) (start : SessionStart) (r : Text) where
    created-return :
        (b : BrowserSession) (q : Bool × a.sessions.State)
        → (created a i x b return_to q).0 ≡ ok (start, r)
        → return_to ≡ r
    created-return b (false, s) h = cc
    created-return b (true, s) h =
        ap (λ (q : SessionStart × Text). q.1) (ok-injective {E = Failure} h)

    store_session-return :
        (b : Result Failure BrowserSession) (s : a.sessions.State)
        → (store_session a i x return_to b s).0 ≡ ok (start, r)
        → return_to ≡ r
    store_session-return (err e) s h = cc
    store_session-return (ok b) s h = created-return b _ h

    exchanged-return :
        (k : Result Failure Claims) (s : a.sessions.State) (u : a.users.State)
        → (exchanged a i x return_to k s u).result ≡ ok (start, r)
        → return_to ≡ r
    exchanged-return (err e) s u h = cc
    exchanged-return (ok k) s u h = store_session-return _ s h

  module _ (start : SessionStart) (r : Text) where
    checked-IsReturn :
        (code state : Text) (raw : Option Json) (t : Result Failure (Text × (Text × Text)))
        (s : a.sessions.State) (u : a.users.State)
        → check_transaction a state raw ≡ t
        → (checked a i x code t s u).result ≡ ok (start, r)
        → IsReturn a.profile r
    checked-IsReturn code state raw (err e) s u k h = cc
    checked-IsReturn code state raw (ok (nonce, (verifier, return_to))) s u k h =
        let matched = check_transaction-IsMatched a state raw nonce verifier return_to k in
        let same = exchanged-return return_to start r _ s u h in rw (← same) matched.returns

    taken-IsReturn :
        (code state : Text) (q : Option Text × a.sessions.State) (u : a.users.State)
        → (taken a i x code state q u).result ≡ ok (start, r)
        → IsReturn a.profile r
    taken-IsReturn code state (none, s) u h = cc
    taken-IsReturn code state (some [], s) u h = cc
    taken-IsReturn code state (some (c ∷ raw), s) u h =
        checked-IsReturn code state (a.codec.loads (c ∷ raw)) _ s u refl h

    -- A completed login goes on to an allowed way back.
    pub complete_login-IsReturn :
        (code state : Text) (id : Option Text) (s : a.sessions.State) (u : a.users.State)
        → (complete_login a i x code state id s u).result ≡ ok (start, r)
        → IsReturn a.profile r
    unfolding complete_login
    complete_login-IsReturn code state id s u h = elim (Option-cases (known_id id)) [
      | inl e ↦
          let no : ◌≡◌ {A = Result Failure (SessionStart × Text)} (err transaction_error)
              (ok (start, r)) =
            rw (e, complete_login) at h in
          cc
      | inr (y, e) ↦ taken-IsReturn code state _ u (rw (e, complete_login) at h)
    ]
