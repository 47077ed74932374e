-- ===== src/Targets/Terminates.antt =====
-- The loop of substitute_env_vars in target.rs ends, and leaves a text with no placeholder as it is.
use telepair.Base.{
  ℕ, zero, suc, ◌≤◌, ◌<◌, ◌≡◌, refl, Bool, ◌&&◌, ◌||◌, true, false, Option, none, some, [], ◌∷◌,
  ◌++◌, ◌==◌, length, is_some, arith, Option-cases, inl, inr,
}
use Prim.Native.Char.{Char, code}
use text.Mathlib.TextEquality.{Char-path}
use telepair.Targets.Substitution.{
  Text, dollar, left_brace, right_brace, find_char, strip, escaped, placeholder, replace, expand,
}

find_char-length :
    (k : Char) (s before after : Text)
    → find_char k s ≡ some (before, after)
    → length after < length s
unfolding find_char
find_char-length k [] before after h = cc
find_char-length k (c ∷ cs) before after h = elim (Option-cases (find_char k cs)) [
  | inl absent ↦ ground (arith, absent)
  | inr ((b, a), found) ↦ ground (arith, found, find_char-length k cs b a)
]

strip-length : (k : Char) (s rest : Text) → strip k s ≡ some rest → length rest < length s
strip-length k [] rest h = cc
strip-length k (c ∷ cs) rest h = ground arith

placeholder-length :
    (after name rest : Text) → placeholder after ≡ some (name, rest) → length rest ≤ length after
unfolding placeholder
placeholder-length after name rest h = elim (Option-cases (strip left_brace after)) [
  | inl absent ↦ ground (arith, absent)
  | inr (s, found) ↦ ground (
    arith,
    found,
    strip-length left_brace after s found,
    find_char-length right_brace s name rest,
  )
]

escaped-length :
    (after name rest : Text) → escaped after ≡ some (name, rest) → length rest ≤ length after
unfolding escaped
escaped-length after name rest h = elim (Option-cases (strip dollar after)) [
  | inl absent ↦ ground (arith, absent)
  | inr (s, found) ↦
      ground (arith, found, strip-length dollar after s found, placeholder-length s name rest)
]

replace-length :
    (variable : Text → Option Text) (after : Text)
    → length (replace variable after).1 ≤ length after
unfolding replace
replace-length variable after = elim (Option-cases (escaped after)) [
  | inr ((name, rest), found) ↦ ground (arith, found, escaped-length after name rest found)
  | inl plain ↦ elim (Option-cases (placeholder after)) [
    | inr ((name, rest), found) ↦
        ground (arith, plain, found, placeholder-length after name rest found)
    | inl literal ↦ ground (arith, plain, literal)
  ]
]

is_some-none : (o : Option Text) → is_some o ≡ false → o ≡ none
is_some-none none h = refl
is_some-none (some t) h = cc

-- A dollar sign and a left brace stand side by side.
unfoldable pub mentions : Text → Bool
mentions [] = false
mentions (c ∷ cs) = code c == code dollar && is_some (strip left_brace cs) || mentions cs

find_char-mentions :
    (s before after : Text)
    → find_char dollar s ≡ some (before, after)
    → mentions s ≡ false
    → (s ≡ before ++ dollar ∷ after) × (strip left_brace after ≡ none) × (mentions after ≡ false)
unfolding find_char mentions
find_char-mentions [] before after h m = cc
find_char-mentions (c ∷ cs) before after h m = elim (Option-cases (find_char dollar cs)) [
  | inl absent ↦ ground (arith, absent, Char-path c dollar, is_some-none (strip left_brace cs))
  | inr ((b, a), found) ↦ ground (
    arith,
    found,
    Char-path c dollar,
    is_some-none (strip left_brace cs),
    find_char-mentions cs b a found,
  )
]

replace-plain :
    (variable : Text → Option Text) (after : Text)
    → strip left_brace after ≡ none
    → mentions after ≡ false
    → replace variable after ≡ (dollar ∷ [], after)
unfolding replace escaped placeholder mentions
replace-plain variable [] bare m = refl
replace-plain variable (c ∷ cs) bare m = ground arith

expand_ends :
    (variable : Text → Option Text) (s : Text) (fuel : ℕ)
    → length s < fuel
    → (is_some (expand fuel variable s) ≡ true)
      × (expand (suc fuel) variable s ≡ expand fuel variable s)
unfolding expand
expand_ends variable s zero few = ground arith
expand_ends variable s (suc fuel) few = elim (Option-cases (find_char dollar s)) [
  | inl absent ↦ ground (arith, absent)
  | inr ((before, after), found) ↦
      let shorter : length (replace variable after).1 < fuel =
        omega
          (arith, find_char-length dollar s before after found, replace-length variable after) in
      ground (arith, found, expand_ends variable (replace variable after).1 fuel shorter)
]

expand_verbatim :
    (variable : Text → Option Text) (s : Text) (fuel : ℕ)
    → mentions s ≡ false
    → length s < fuel
    → expand fuel variable s ≡ some s
unfolding expand
expand_verbatim variable s zero m few = ground arith
expand_verbatim variable s (suc fuel) m few = elim (Option-cases (find_char dollar s)) [
  | inl absent ↦ ground (arith, absent)
  | inr ((before, after), found) ↦
      let (split, bare, clean) = find_char-mentions s before after found m in
      let shorter : length after < fuel =
        omega (arith, find_char-length dollar s before after found) in
      ground (
        arith,
        found,
        split,
        replace-plain variable after bare clean,
        expand_verbatim variable after fuel clean shorter,
      )
]

-- One round of the loop for each character, and one more, is always enough: the loop then ends with
-- a text, whatever the variables hold, and more rounds give the same text. A text in which no dollar
-- sign stands before a left brace comes out as it is: `$$`, as in a shell's process number, is not
-- touched.
pub expand-terminates :
    (variable : Text → Option Text) (s : Text) (fuel : ℕ)
    → length s < fuel
    → (is_some (expand fuel variable s) ≡ true)
      × (expand (suc fuel) variable s ≡ expand fuel variable s)
      × (mentions s ≡ false → expand fuel variable s ≡ some s)
expand-terminates variable s fuel few =
    let (ends, same) = expand_ends variable s fuel few in
    (ends, same, λ plain. expand_verbatim variable s fuel plain few)
