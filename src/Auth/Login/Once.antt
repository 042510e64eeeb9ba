-- ===== src/Auth/Login/Once.antt =====
-- A login transaction is used once.
use tpl_backend.Base.{
  ℕ, ◌≡◌, ◌≤◌, refl, ap, ◌∙◌, ◌≢◌, inl, inr, Bool, true, false, Option, none, some, [], ◌∷◌, Text,
  text_eq, text_eq_refl, Result, ok, err,
}
use tpl_backend.Auth.Errors.{Failure}
use tpl_backend.Auth.Principal.{Principal, BrowserSession}
use tpl_backend.Auth.Sessions.{IsSessionStore, Claims}
use tpl_backend.Auth.Service.{
  AuthService, transaction_error, known_id, transaction_key, session_key,
}
use tpl_backend.Auth.Browser.Current.{known_id-cases}
use tpl_backend.Auth.Login.{
  Instants, SessionSecrets, principal_from_claims, created, store_session, finished, exchanged,
  checked, taken, check_transaction, complete_login,
}

module _ (a : AuthService) (i : Instants) (x : SessionSecrets) (law : IsSessionStore a.sessions)
    (k : Text) (apart : k ≢ session_key a x.session_id) (t : ℕ) where
  created-state :
      (b : BrowserSession) (return_to : Text) (q : Bool × a.sessions.State)
      → (created a i x b return_to q).1 ≡ q.1
  created-state b return_to (false, s) = refl
  created-state b return_to (true, s) = refl

  read-store_session :
      (return_to : Text) (r : Result Failure BrowserSession) (s : a.sessions.State)
      → a.sessions.read t k (store_session a i x return_to r s).1 ≡ a.sessions.read t k s
  read-store_session return_to (err e) s = refl
  read-store_session return_to (ok b) s =
      ap (a.sessions.read t k) (created-state b return_to _)
      ∙ law.read-create_other i.stored t (session_key a x.session_id) k _ _ s apart

  read-finished :
      (return_to : Text) (p : Result Failure Principal × a.users.State) (s : a.sessions.State)
      → a.sessions.read t k (finished a i x return_to p s).sessions ≡ a.sessions.read t k s
  read-finished return_to p s = read-store_session return_to _ s

  read-exchanged :
      (return_to : Text) (r : Result Failure Claims) (s : a.sessions.State) (u : a.users.State)
      → a.sessions.read t k (exchanged a i x return_to r s u).sessions ≡ a.sessions.read t k s
  read-exchanged return_to (err e) s u = refl
  read-exchanged return_to (ok c) s u = read-finished return_to (principal_from_claims a i x c u) s

  read-checked :
      (code : Text) (r : Result Failure (Text × (Text × Text))) (s : a.sessions.State)
      (u : a.users.State)
      → a.sessions.read t k (checked a i x code r s u).sessions ≡ a.sessions.read t k s
  read-checked code (err e) s u = refl
  read-checked code (ok (nonce, (verifier, return_to))) s u =
      read-exchanged return_to (a.oidc.exchange_authorization_code code verifier nonce) s u

  -- What follows the `GETDEL` writes no other key than the session's.
  read-taken :
      (code state : Text) (r : Option Text × a.sessions.State) (u : a.users.State)
      → a.sessions.read t k (taken a i x code state r u).sessions ≡ a.sessions.read t k r.1
  read-taken code state (none, s) u = refl
  read-taken code state (some [], s) u = refl
  read-taken code state (some (c ∷ raw), s) u =
      read-checked code (check_transaction a state (a.codec.loads (c ∷ raw))) s u

taken-none :
    (a : AuthService) (i : Instants) (x : SessionSecrets) (code state : Text)
    (r : Option Text × a.sessions.State) (u : a.users.State)
    → r.0 ≡ none
    → (taken a i x code state r u).result ≡ err transaction_error
taken-none a i x code state (none, s) u e = refl
taken-none a i x code state (some v, s) u e = cc

complete_login-absent :
    (a : AuthService) (i : Instants) (x : SessionSecrets) (code state id : Text)
    (s : a.sessions.State) (u : a.users.State)
    → IsSessionStore a.sessions
    → (known_id (some id) ≡ some id → a.sessions.read i.taken (transaction_key a id) s ≡ none)
    → (complete_login a i x code state (some id) s u).result ≡ err transaction_error
unfolding complete_login
complete_login-absent a i x code state id s u law gone = elim (known_id-cases id) [
  | inl e ↦ rw (e, complete_login) refl
  | inr e ↦
      rw (e, complete_login)
        (taken-none a i x code state _ u (law.take-read i.taken (transaction_key a id) s ∙ gone e))
]

read-complete_login :
    (a : AuthService) (i : Instants) (x : SessionSecrets) (code state id : Text)
    (s : a.sessions.State) (u : a.users.State) (t : ℕ)
    → IsSessionStore a.sessions
    → transaction_key a id ≢ session_key a x.session_id
    → i.taken ≤ t
    → known_id (some id) ≡ some id
    → a.sessions.read t
        (transaction_key a id)
        (complete_login a i x code state (some id) s u).sessions
      ≡ none
unfolding complete_login
read-complete_login a i x code state id s u t law apart le e =
    rw (e, complete_login)
      (read-taken a i x law (transaction_key a id) apart t code state _ u
        ∙ law.read-take i.taken t (transaction_key a id) s le)

text_eq-apart : (s t : Text) → text_eq s t ≡ false → s ≢ t
text_eq-apart s t h e = let yes : text_eq s t ≡ true = rw e (text_eq_refl t) in cc

-- With a store that behaves as documented: once `complete_login` was called with a transaction's
-- identifier, successful or not, every later call with the identifier raises
-- `oidc_transaction_invalid`, whatever code and state it brings, if the key of the session that the
-- first call stores is another one than the transaction's.
pub complete_login_once :
    (a : AuthService) (i i' : Instants) (x x' : SessionSecrets) (code code' state state' id : Text)
    (s : a.sessions.State) (u u' : a.users.State)
    → IsSessionStore a.sessions
    → text_eq (transaction_key a id) (session_key a x.session_id) ≡ false
    → i.taken ≤ i'.taken
    → (complete_login a i' x' code' state'
        (some id)
        (complete_login a i x code state (some id) s u).sessions
        u').result
      ≡ err transaction_error
complete_login_once a i i' x x' code code' state state' id s u u' law apart le =
    complete_login-absent a i' x' code' state' id _ u' law
      (read-complete_login a i x code state id s u i'.taken law (text_eq-apart _ _ apart) le)
