-- ===== src/Auth/Memory.antt =====
-- A session store in memory, where nothing expires: it shows that the interface of
-- app/app/application/ports/auth.py can be met.
use tpl_backend.Base.{
  ◌≡◌, refl, ◌≢◌, inl, inr, Bool, true, false, Option, none, some, Text, text_eq, text_eq_sound,
  text_eq_refl, if◌then◌else◌, Bool-cases, Option-cases,
}
use tpl_backend.Auth.Sessions.{SessionStore, IsSessionStore}

abbrev pub Entries : Type 0
Entries = Text → Option Text

abbrev pub put : Text → Option Text → Entries → Entries
put k v s j = if text_eq j k then v else s j

abbrev pub add : Text → Text → Entries → Bool × Entries
add k v s = elim (s k) [ none ↦ (true, put k (some v) s) | some _ ↦ (false, s) ]

abbrev pub memory : SessionStore
memory = record {
  State = Entries;
  create = λ t k v ttl s. add k v s;
  read = λ t k s. s k;
  take = λ t k s. (s k, put k none s);
  delete = λ t k s. put k none s;
}

put_same : (k : Text) (v : Option Text) (s : Entries) → put k v s k ≡ v
put_same k v s = rw (text_eq_refl k) refl

put_other : (j k : Text) (v : Option Text) (s : Entries) → j ≢ k → put k v s j ≡ s j
put_other j k v s ne = elim (Bool-cases (text_eq j k)) [
  | inl e ↦ absurd (ne (text_eq_sound j k e))
  | inr e ↦ rw e refl
]

add_absent : (k v : Text) (s : Entries) → s k ≡ none → (add k v s).0 ≡ true
add_absent k v s e = rw (e, add) refl

add_new : (k v : Text) (s : Entries) → (add k v s).0 ≡ true → (add k v s).1 k ≡ some v
add_new k v s h = elim (Option-cases (s k)) [
  | inl e ↦ rw (e, add) (put_same k (some v) s)
  | inr (w, e) ↦ let no : ◌≡◌ {A = Bool} false true = rw (e, add) at h in cc
]

add_other : (j k v : Text) (s : Entries) → j ≢ k → (add k v s).1 j ≡ s j
add_other j k v s ne = elim (Option-cases (s k)) [
  | inl e ↦ rw (e, add) (put_other j k (some v) s ne)
  | inr (w, e) ↦ rw (e, add) refl
]

pub memory-IsSessionStore : IsSessionStore memory
memory-IsSessionStore = record {
  take-read = λ t k s. refl;
  read-take = λ t t' k s le. put_same k none s;
  read-delete = λ t t' k s le. put_same k none s;
  create_absent = λ t k v ttl s e. add_absent k v s e;
  read-create = λ t t' k v ttl s h le lt. add_new k v s h;
  read-create_other = λ t t' k j v ttl s ne. add_other j k v s ne;
  read_later = λ t t' k s le e. e;
}
