-- ===== src/Targets/Substitution.antt =====
-- crates/telepair-core/src/target.rs: substitute_env_vars, on the characters of the text. The loop
-- runs on fuel, of which it takes one for each dollar sign that it meets.
use telepair.Base.{
  ℕ, zero, suc, Option, none, some, List, [], ◌∷◌, ◌++◌, String, if◌then◌else◌, ◌==◌, length,
  map_option, unwrap_or,
}
use Prim.Native.Char.{Char, code}
use text.Mathlib.TextBridge.{to_list, of_list}

abbrev pub Text : Type 0
Text = List Char

abbrev pub dollar : Char
dollar = Char.char 36 tt

abbrev pub left_brace : Char
left_brace = Char.char 123 tt

abbrev pub right_brace : Char
right_brace = Char.char 125 tt

-- `str::find` of a character: what comes before it and after it.
unfoldable pub find_char : Char → Text → Option (Text × Text)
find_char k [] = none
find_char k (c ∷ cs) =
    if code c == code k
    then some ([], cs)
    else map_option (λ (p : Text × Text). (c ∷ p.0, p.1)) (find_char k cs)

-- `strip_prefix` of one character.
abbrev pub strip : Char → Text → Option Text
strip k [] = none
strip k (c ∷ cs) = if code c == code k then some cs else none

abbrev pub and_then {ℓ κ} : {A : Type ℓ} {B : Type κ} → Option A → (A → Option B) → Option B
and_then none f = none
and_then (some a) f = f a

-- `${` and a name and `}`
abbrev pub written : Text → Text
written name = dollar ∷ left_brace ∷ (name ++ right_brace ∷ [])

-- After a dollar sign: `{name}`, and `${name}`, with the name and what follows.
unfoldable pub placeholder : Text → Option (Text × Text)
placeholder after = and_then (strip left_brace after) (find_char right_brace)

unfoldable pub escaped : Text → Option (Text × Text)
escaped after = and_then (strip dollar after) placeholder

-- The body of the loop after a dollar sign: what is pushed, and the rest.
unfoldable pub replace : (Text → Option Text) → Text → Text × Text
replace variable after = elim (escaped after) [
  | some (name, rest) ↦ (written name, rest)
  | none ↦ elim (placeholder after) [
    | some (name, rest) ↦ (unwrap_or (variable name) (written name), rest)
    | none ↦ (dollar ∷ [], after)
  ]
]

unfoldable pub expand : ℕ → (Text → Option Text) → Text → Option Text
expand zero variable rest = none
expand (suc fuel) variable rest = elim (find_char dollar rest) [
  | none ↦ some rest
  | some (before, after) ↦
      map_option (λ out. before ++ ((replace variable after).0 ++ out))
        (expand fuel variable (replace variable after).1)
]

abbrev pub variable_of : (String → Option String) → Text → Option Text
variable_of variable name = map_option to_list (variable (of_list name))

unfoldable pub substitute_env_vars : (String → Option String) → String → String
substitute_env_vars variable input =
    let text = to_list input in
    of_list (unwrap_or (expand (suc (length text)) (variable_of variable) text) [])
