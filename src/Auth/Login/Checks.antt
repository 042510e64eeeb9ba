-- ===== src/Auth/Login/Checks.antt =====
-- What a callback must bring: the checks of `complete_login` on the stored transaction.
use tpl_backend.Base.{
  ◌≡◌, refl, ap, ◌∙◌, inl, inr, true, Option, some, Text, codes, text_eq_sound, Option-cases,
  Result, ok, err, require, >>=-elim, ok-injective,
}
use tpl_backend.Base.Json.{Json, str, obj, Fields, get, get_or_null}
use tpl_backend.Auth.Errors.{Failure}
use tpl_backend.Auth.Profile.{normalize_return_to}
use tpl_backend.Auth.Profile.Returns.{IsReturn, normalize_return_to-IsReturn}
use tpl_backend.Auth.Browser.Csrf.{require-ok, compare_digest_sound}
use tpl_backend.Auth.Service.{AuthService, surface_name, transaction_error, same_digest}
use tpl_backend.Auth.Login.{
  Transaction, entry, read_transaction, check_transaction, is_str, as_text,
}

entry-ok :
    (a : AuthService) (name : Text) (fs : Fields) (v : Json)
    → entry a name fs ≡ ok v
    → get name fs ≡ some v
entry-ok a name fs v h = elim (Option-cases (get name fs)) [
  | inl e ↦
      let no : ◌≡◌ {A = Result Failure Json} (err transaction_error) (ok v) = rw (e, entry) at h in
      cc
  | inr (w, e) ↦
      let yes : ◌≡◌ {A = Result Failure Json} (ok w) (ok v) = rw (e, entry) at h in
      e ∙ ap some (ok-injective yes)
]

-- The stored object of a transaction that was started for this surface and this state.
pub record IsMatched (a : AuthService) (state : Text) (raw : Option Json)
    (nonce code_verifier return_to : Text) : Type 0 where
  pub fields : Fields
  pub stored : raw ≡ some (obj fields)
  pub surface_is : get (codes "surface") fields ≡ some (str (surface_name a.profile.surface))
  pub state_is : get (codes "state") fields ≡ some (str state)
  pub nonce_is : get (codes "nonce") fields ≡ some (str nonce)
  pub verifier_is : get (codes "code_verifier") fields ≡ some (str code_verifier)
  pub returns : IsReturn a.profile return_to

is_str-str : (v : Json) (t : Text) → is_str v t ≡ true → v ≡ str t
is_str-str (str s) t h = ap str (text_eq_sound s t h)
is_str-str _ t h = cc

same_digest-str : (v : Json) (t : Text) → same_digest v t ≡ ok true → v ≡ str t
same_digest-str (str s) t h = ap str (compare_digest_sound s t h)
same_digest-str _ t h = cc

as_text-str : (v : Json) (t : Text) → as_text v ≡ ok t → v ≡ str t
as_text-str (str s) t h = ap str (ok-injective {E = Failure} h)
as_text-str _ t h = cc

-- What `read_transaction` reads.
record IsRead (a : AuthService) (raw : Option Json) (x : Transaction a) : Type 0 where
  pub fields : Fields
  pub stored : raw ≡ some (obj fields)
  pub surface_at : get (codes "surface") fields ≡ some x.surface
  pub state_at : get (codes "state") fields ≡ some x.state
  pub nonce_at : get (codes "nonce") fields ≡ some x.nonce
  pub verifier_at : get (codes "code_verifier") fields ≡ some x.code_verifier
  pub returns : IsReturn a.profile x.return_to

read_transaction-IsRead :
    (a : AuthService) (raw : Option Json) (x : Transaction a)
    → read_transaction a raw ≡ ok x
    → IsRead a raw x
unfolding read_transaction
read_transaction-IsRead a (some (obj fs)) x h =
    >>=-elim (entry a (codes "surface") fs) _ h λ surface h1 k1.
      >>=-elim (entry a (codes "state") fs) _ k1 λ state h2 k2.
        >>=-elim (entry a (codes "nonce") fs) _ k2 λ nonce h3 k3.
          >>=-elim (entry a (codes "code_verifier") fs) _ k3 λ verifier h4 k4.
            >>=-elim
              (normalize_return_to a.is_netloc a.profile (get_or_null (codes "return_to") fs)) _ k4
              λ return_to h5 k5. rw (← ok-injective {E = Failure} k5) (record {
                fields = fs;
                stored = refl;
                surface_at = entry-ok a (codes "surface") fs surface h1;
                state_at = entry-ok a (codes "state") fs state h2;
                nonce_at = entry-ok a (codes "nonce") fs nonce h3;
                verifier_at = entry-ok a (codes "code_verifier") fs verifier h4;
                returns = normalize_return_to-IsReturn a.is_netloc a.profile _ return_to h5;
              })
read_transaction-IsRead a _ x h = cc

-- A callback goes on only if the transaction that was taken was started on this surface with the very
-- state that it brings; the nonce and the verifier are the stored ones, and the way back is allowed.
pub check_transaction-IsMatched :
    (a : AuthService) (state : Text) (raw : Option Json) (nonce code_verifier return_to : Text)
    → check_transaction a state raw ≡ ok (nonce, (code_verifier, return_to))
    → IsMatched a state raw nonce code_verifier return_to
unfolding check_transaction
check_transaction-IsMatched a state raw nonce code_verifier return_to h =
    >>=-elim (read_transaction a raw) _ h λ x read h1.
      >>=-elim (require (is_str x.surface (surface_name a.profile.surface)) transaction_error) _ h1
        λ u here h2. >>=-elim (same_digest x.state state) _ h2 λ same digest h3.
          >>=-elim (require same transaction_error) _ h3 λ v yes h4.
            >>=-elim (as_text x.nonce) _ h4 λ n nonce_text h5.
              >>=-elim (as_text x.code_verifier) _ h5 λ c verifier_text h6.
                let r = read_transaction-IsRead a raw x read in
                let all_is = ok-injective {E = Failure} h6 in
                let n_is : n ≡ nonce = ap (λ (q : Text × (Text × Text)). q.0) all_is in
                let c_is : c ≡ code_verifier = ap (λ (q : Text × (Text × Text)). q.1.0) all_is in
                let r_is : x.return_to ≡ return_to =
                  ap (λ (q : Text × (Text × Text)). q.1.1) all_is in
                record {
                  fields = r.fields;
                  stored = r.stored;
                  surface_is = r.surface_at ∙ ap some (is_str-str _ _ (require-ok _ _ here));
                  state_is =
                      r.state_at
                      ∙ ap some (same_digest-str _ _ (digest ∙ ap ok (require-ok _ _ yes)));
                  nonce_is = r.nonce_at ∙ ap some (as_text-str _ _ (nonce_text ∙ ap ok n_is));
                  verifier_is =
                      r.verifier_at ∙ ap some (as_text-str _ _ (verifier_text ∙ ap ok c_is));
                  returns = rw (← r_is) r.returns;
                }
