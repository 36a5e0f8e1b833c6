-- ===== src/Schemas/Accepted.antt =====
-- app/schemas/: what the validators return is accepted again, so that what a registration stores
-- can be sent at a login.
use mathlib.Core.Path.{subst}
use Prim.Native.Char.{Char}
use Prim.Native.String.{count}
use fast_api_community_backe.Common.{
  and_left, and_right, ℕ, ◌≤◌, ◌≡◌, refl, sym, ap, ◌∙◌, inl, inr, String, Bool, true, ◌&&◌, Option,
  some, none, leb, arith, Bool-cases,
}
use fast_api_community_backe.Schemas.{
  Unicode, before_final_newline, has_length, matches, looks_ahead, is_letter, is_id_char,
  is_not_newline, any_character, validate_id_format, validate_password_format,
  validate_title_format, validate_content_format,
}
use fast_api_community_backe.Schemas.Matching.{
  accept-some, matches-repeats, repeats-has_length, stripped_and_tested, stripped-again,
}
use fast_api_community_backe.Schemas.Forms.{
  ◌>>=◌, field, id_field, password_field, name_field, title_field, content_field, user_login,
  user_register, create_board,
}
use fast_api_community_backe.Services.Users.Register.{UserRegister}

bind-some :
    {A B : Type 0} (o : Option A) (f : A → Option B) {b : B}
    → (o >>= f) ≡ some b
    → (a : A) × (o ≡ some a) × (f a ≡ some b)
unfolding ◌>>=◌
bind-some none f h = cc
bind-some (some a) f h = (a, refl, h)

some_inj : {A : Type 0} {a b : A} → some a ≡ some b → a ≡ b
some_inj h = cc

field-some :
    (low high : ℕ) (validate : String → Option String) (v : String) {w : String}
    → field low high validate v ≡ some w
    → (has_length low high v ≡ true) × (validate v ≡ some w)
field-some low high validate v h = elim (Bool-cases (has_length low high v)) [
  | inl t ↦ (t, rw t at h)
  | inr t ↦ let nothing : none ≡ some _ = rw t at h in cc
]

module _ (unicode : Unicode) where
  -- a field that is stripped and then tested, where the test bounds the length
  stripped_field-again :
      (low high : ℕ) (test : String → Bool) (v w : String)
      → ((x : String) → before_final_newline x ≡ x → test x ≡ true → has_length low high x ≡ true)
      → field low high (stripped_and_tested unicode test) v ≡ some w
      → field low high (stripped_and_tested unicode test) w ≡ some w
  stripped_field-again low high test v w bounded h =
      let (fits, accepted) = field-some low high (stripped_and_tested unicode test) v h in
      let (again, passes, final) = stripped-again unicode test v w accepted in
      rw (bounded w final passes) again

  id_field-again : (v w : String) → id_field unicode v ≡ some w → id_field unicode w ≡ some w
  unfolding id_field validate_id_format
  id_field-again v w h =
      stripped_field-again 5 30
        (λ x.
          looks_ahead is_letter x
          && (looks_ahead unicode.is_decimal x && matches (is_id_char unicode) 5 30 x))
        v w bounded h
    where
      bounded :
          (x : String)
          → before_final_newline x ≡ x
          → (looks_ahead is_letter x
              && (looks_ahead unicode.is_decimal x && matches (is_id_char unicode) 5 30 x))
            ≡ true
          → has_length 5 30 x ≡ true
      bounded x final t =
          let behind = and_right (looks_ahead is_letter x) _ t in
          let matched = and_right (looks_ahead unicode.is_decimal x) _ behind in
          repeats-has_length (is_id_char unicode) 5 30 x
            (matches-repeats (is_id_char unicode) 5 30 x final matched)

  class_field-again :
      (p : Char → Bool) (low high : ℕ) (v w : String)
      → field low high (stripped_and_tested unicode (matches p low high)) v ≡ some w
      → field low high (stripped_and_tested unicode (matches p low high)) w ≡ some w
  class_field-again p low high v w h =
      stripped_field-again low high (matches p low high) v w
        (λ x final t. repeats-has_length p low high x (matches-repeats p low high x final t)) h

  password_field-again :
      (v w : String) → password_field unicode v ≡ some w → password_field unicode w ≡ some w
  unfolding password_field validate_password_format
  password_field-again v w h =
      let (fits, accepted) = field-some 8 30 (validate_password_format unicode) v h in
      let (passed, same) = accept-some accepted in
      ap (field 8 30 (validate_password_format unicode)) (sym same) ∙ h

  has_length-bounds :
      (low high : ℕ) (validate : String → Option String) (v : String) {w : String}
      → field low high validate v ≡ some w
      → (low ≤ count v) × (count v ≤ high)
  has_length-bounds low high validate v h =
      let (fits, accepted) = field-some low high validate v h in
      let below = and_left (leb low (count v)) (leb (count v) high) fits in
      let above = and_right (leb low (count v)) (leb (count v) high) fits in
      (ground arith, ground arith)

  -- Of a title and a content that are accepted, what is kept has 2 to 200 and 30 to 2000
  -- characters, and is accepted once more as it is.
  pub create_board-again :
      (title content : String) (accepted : String × String)
      → create_board unicode title content ≡ some accepted
      → (create_board unicode accepted.0 accepted.1 ≡ some accepted)
        × ((2 ≤ count accepted.0) × (count accepted.0 ≤ 200))
        × ((30 ≤ count accepted.1) × (count accepted.1 ≤ 2000))
  unfolding create_board title_field content_field validate_title_format validate_content_format
      ◌>>=◌
  create_board-again title content accepted h =
      let (title', a, h1) = bind-some (title_field unicode title) _ h in
      let (content', b, h2) = bind-some (content_field unicode content) _ h1 in
      let a' = class_field-again is_not_newline 2 200 title title' a in
      let b' = class_field-again any_character 30 2000 content content' b in
      subst
        (λ (f : String × String).
          (create_board unicode f.0 f.1 ≡ some f)
          × ((2 ≤ count f.0) × (count f.0 ≤ 200))
          × ((30 ≤ count f.1) × (count f.1 ≤ 2000)))
        (some_inj h2)
        (
          rw (a', b') refl,
          has_length-bounds 2 200 (validate_title_format unicode) title' a',
          has_length-bounds 30 2000 (validate_content_format unicode) content' b',
        )

  -- The id and the password that a registration stores are accepted at a login, as they are.
  pub user_login-user_register :
      (email_str : String → Option String) (id password name email : String) (form : UserRegister)
      → user_register unicode email_str id password name email ≡ some form
      → user_login unicode form.id form.password
        ≡ some (record { id = form.id; password = form.password })
  unfolding user_register user_login ◌>>=◌
  user_login-user_register email_str id password name email form h =
      let (id', a, h1) = bind-some (id_field unicode id) _ h in
      let (password', b, h2) = bind-some (password_field unicode password) _ h1 in
      let (name', c, h3) = bind-some (name_field unicode name) _ h2 in
      let (email', d, h4) = bind-some (email_str email) _ h3 in
      subst
        (λ (f : UserRegister).
          user_login unicode f.id f.password ≡ some (record { id = f.id; password = f.password }))
        (some_inj h4) (rw (id_field-again id id' a, password_field-again password password' b) refl)
