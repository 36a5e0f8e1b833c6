-- ===== src/Schemas/Stripping.antt =====
-- app/schemas/: what is stripped has nothing left to strip, and ends in no newline.
use Prim.Native.Char.{Char, code}
use fast_api_community_backe.Common.{
  ◌≡◌, refl, ap, inl, inr, String, Bool, true, false, not, ◌==◌, arith, Bool-cases,
}
use fast_api_community_backe.Schemas.{
  Unicode, strip, lstrip, rstrip, keep_before, before_final_newline,
}

module _ (unicode : Unicode) where
  rstrip-keep_before :
      (c : Char) (r : String)
      → rstrip unicode r ≡ r
      → rstrip unicode (keep_before unicode c r) ≡ keep_before unicode c r
  unfolding rstrip
  rstrip-keep_before c String.[] e = elim (Bool-cases (unicode.is_space c)) [
    | inl t ↦ rw t refl
    | inr t ↦ rw (t, t) refl
  ]
  rstrip-keep_before c (String.◌∷◌ d s) e = ap (keep_before unicode c) e

  rstrip-rstrip : (s : String) → rstrip unicode (rstrip unicode s) ≡ rstrip unicode s
  unfolding rstrip
  rstrip-rstrip String.[] = refl
  rstrip-rstrip (String.◌∷◌ c s) = rstrip-keep_before c (rstrip unicode s) (rstrip-rstrip s)

  final-keep_before :
      (c : Char) (r : String)
      → before_final_newline r ≡ r
      → before_final_newline (keep_before unicode c r) ≡ keep_before unicode c r
  unfolding before_final_newline
  final-keep_before c String.[] e = elim (Bool-cases (unicode.is_space c)) [
    | inl t ↦ rw t refl
    | inr t ↦ rw t (elim (Bool-cases (code c == 10)) [
      | inl n ↦ let space = unicode.newline_is_space c (ground arith) in absurd (cc)
      | inr n ↦ rw n refl
    ])
  ]
  final-keep_before c (String.◌∷◌ d s) e = ap (String.◌∷◌ c) e

  final-rstrip : (s : String) → before_final_newline (rstrip unicode s) ≡ rstrip unicode s
  unfolding rstrip before_final_newline
  final-rstrip String.[] = refl
  final-rstrip (String.◌∷◌ c s) = final-keep_before c (rstrip unicode s) (final-rstrip s)

  -- A text that begins with no space.
  abbrev begins_tight : String → Bool
  begins_tight String.[] = true
  begins_tight (String.◌∷◌ c s) = not (unicode.is_space c)

  begins_tight-lstrip : (s : String) → begins_tight (lstrip unicode s) ≡ true
  unfolding lstrip
  begins_tight-lstrip String.[] = refl
  begins_tight-lstrip (String.◌∷◌ c s) = elim (Bool-cases (unicode.is_space c)) [
    | inl t ↦ rw t (begins_tight-lstrip s)
    | inr t ↦ rw (t, t) refl
  ]

  begins_tight-keep_before :
      (c : Char) (r : String)
      → unicode.is_space c ≡ false
      → begins_tight (keep_before unicode c r) ≡ true
  begins_tight-keep_before c String.[] t = rw (t, t) refl
  begins_tight-keep_before c (String.◌∷◌ d s) t = rw t refl

  begins_tight-rstrip :
      (s : String) → begins_tight s ≡ true → begins_tight (rstrip unicode s) ≡ true
  unfolding rstrip
  begins_tight-rstrip String.[] h = refl
  begins_tight-rstrip (String.◌∷◌ c s) h = elim (Bool-cases (unicode.is_space c)) [
    | inl t ↦ let no_space : false ≡ true = rw t at h in cc
    | inr t ↦ begins_tight-keep_before c (rstrip unicode s) t
  ]

  lstrip-tight : (s : String) → begins_tight s ≡ true → lstrip unicode s ≡ s
  unfolding lstrip
  lstrip-tight String.[] h = refl
  lstrip-tight (String.◌∷◌ c s) h = elim (Bool-cases (unicode.is_space c)) [
    | inl t ↦ let no_space : false ≡ true = rw t at h in cc
    | inr t ↦ rw t refl
  ]

  pub strip-strip : (v : String) → strip unicode (strip unicode v) ≡ strip unicode v
  unfolding strip
  strip-strip v =
      rw
        (lstrip-tight (rstrip unicode (lstrip unicode v))
          (begins_tight-rstrip (lstrip unicode v) (begins_tight-lstrip v)))
        (rstrip-rstrip (lstrip unicode v))

  pub final-strip : (v : String) → before_final_newline (strip unicode v) ≡ strip unicode v
  unfolding strip
  final-strip v = final-rstrip (lstrip unicode v)
