-- ===== src/Schemas/Matching.antt =====
-- app/schemas/: what a text has that a pattern of the validators matches.
use Prim.Native.Char.{Char}
use fast_api_community_backe.Common.{
  and_right, ℕ, ◌≡◌, refl, sym, ap, ◌∙◌, String, Bool, true, false, ◌||◌, Option, some,
}
use fast_api_community_backe.Schemas.{
  Unicode, strip, before_final_newline, all_chars, repeats, has_length, matches, accept,
}
use fast_api_community_backe.Schemas.Stripping.{strip-strip, final-strip}

-- What is accepted is the text itself, and the test holds.
pub accept-some : {b : Bool} {v w : String} → accept b v ≡ some w → (b ≡ true) × (v ≡ w)
accept-some {b = true} h = (refl, cc)
accept-some {b = false} h = cc

pub accept-true : {b : Bool} (v : String) → b ≡ true → accept b v ≡ some v
accept-true v t = rw t refl

-- A text without a newline at its end that matches repeats the class.
pub matches-repeats :
    (p : Char → Bool) (low high : ℕ) (v : String)
    → before_final_newline v ≡ v
    → matches p low high v ≡ true
    → repeats p low high v ≡ true
unfolding matches
matches-repeats p low high v e h =
    same (repeats p low high v) (ap (λ w. repeats p low high v || repeats p low high w) (sym e) ∙ h)
  where
    same : (b : Bool) → (b || b) ≡ true → b ≡ true
    same true h = refl
    same false h = h

pub repeats-has_length :
    (p : Char → Bool) (low high : ℕ) (v : String)
    → repeats p low high v ≡ true
    → has_length low high v ≡ true
repeats-has_length p low high v h = and_right (all_chars p v) (has_length low high v) h

-- A validator that strips, tests and returns the stripped text lets through what it has returned.
module _ (unicode : Unicode) (test : String → Bool) where
  abbrev pub stripped_and_tested : String → Option String
  stripped_and_tested v = accept (test (strip unicode v)) (strip unicode v)

  pub stripped-again :
      (v w : String)
      → stripped_and_tested v ≡ some w
      → (stripped_and_tested w ≡ some w) × (test w ≡ true) × (before_final_newline w ≡ w)
  stripped-again v w h =
      let (passed, same) = accept-some h in
      let unchanged : strip unicode w ≡ w =
        ap (strip unicode) (sym same) ∙ (strip-strip unicode v ∙ same) in
      let passes : test w ≡ true = ap test (sym same) ∙ passed in
      (
        rw unchanged (accept-true w passes),
        passes,
        ap before_final_newline (sym same) ∙ (final-strip unicode v ∙ same),
      )
