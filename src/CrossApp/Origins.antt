-- ===== src/CrossApp/Origins.antt =====
-- What a link may say: `clean_origin` of app/app/domain/cross_app.py.
use tpl_backend.Base.{
  ◌≡◌, refl, ap, inl, inr, Bool, true, false, not, ◌||◌, Option, none, some, List, Text, contains,
  contains_sound, In, Bool-cases, arith,
}
use tpl_backend.Base.Json.{Json, str}
use tpl_backend.CrossApp.{is_app, is_ref, Origin, clean_ref, clean_origin}

clean_ref_sound : (v : Json) (r : Text) → clean_ref v ≡ some r → (v ≡ str r) × (is_ref r ≡ true)
unfolding clean_ref
clean_ref_sound (str s) r h = elim (Bool-cases (is_ref s)) [
  | inl e ↦
      let h' : ◌≡◌ {A = Option Text} (some s) (some r) = rw (e, clean_ref) at h in
      let same : s ≡ r = cc (h') in (ap str same, rw (← same) e)
  | inr e ↦ let no : ◌≡◌ {A = Option Text} none (some r) = rw (e, clean_ref) at h in cc
]
clean_ref_sound _ r h = cc

pub record IsKnown (app ref : Json) (known : List Text) (o : Origin) : Type 0 where
  pub named : app ≡ str o.app
  pub listed : In o.app known
  pub formed : is_app o.app ≡ true
  pub reference : (r : Text) → o.ref ≡ some r → (ref ≡ str r) × (is_ref r ≡ true)

or_false : (a b : Bool) → (not a || not b) ≡ false → (a ≡ true) × (b ≡ true)
or_false a b h = ground arith

-- Of a link, only a known application with a well-formed name is believed, and with it at most the
-- reference that it gave, if that is well formed.
pub clean_origin-IsKnown :
    (app ref : Json) (known : List Text) (o : Origin)
    → clean_origin app ref known ≡ some o
    → IsKnown app ref known o
unfolding clean_origin
clean_origin-IsKnown (str s) ref known o h =
    elim (Bool-cases (not (is_app s) || not (contains known s))) [
      | inl e ↦ let no : ◌≡◌ {A = Option Origin} none (some o) = rw (e, clean_origin) at h in cc
      | inr e ↦
          let (formed, listed) = or_false (is_app s) (contains known s) e in
          let h' : ◌≡◌ {A = Option Origin} (some (record { app = s; ref = clean_ref ref }))
              (some o) =
            rw (e, clean_origin) at h in
          let same : ◌≡◌ {A = Origin} (record { app = s; ref = clean_ref ref }) o = cc (h') in
          rw (← same) (record {
            named = refl;
            listed = contains_sound known s listed;
            formed = formed;
            reference = λ r k. clean_ref_sound ref r k;
          })
    ]
clean_origin-IsKnown _ ref known o h = cc
