-- ===== src/Base/Dict.antt =====
-- A `HashMap` as an association list over identifiers, which are compared for equality only.
use Prim.Native.Nat.{ℕ}
use mathlib.Core.Path.{◌≡◌, refl}
use mathlib.Core.Bool.{Bool, true, false}
use mathlib.Core.Option.{Option, none, some}
use mathlib.Core.List.{List, [], ◌∷◌}
use native.Mathlib.Omega.{arith}
use telepair.Base.Tests.{if◌then◌else◌, ◌==◌, map_option}

abbrev pub Dict {ℓ} : Type ℓ → Type ℓ
Dict V = List (ℕ × V)

module _ {ℓ} {V : Type ℓ} where
  unfoldable pub get : ℕ → Dict V → Option V
  get k [] = none
  get k ((j, v) ∷ m) = if j == k then some v else get k m

  unfoldable pub insert : ℕ → V → Dict V → Dict V
  insert k v [] = (k, v) ∷ []
  insert k v ((j, w) ∷ m) = if j == k then (k, v) ∷ m else (j, w) ∷ insert k v m

  unfoldable pub remove : ℕ → Dict V → Dict V
  remove k [] = []
  remove k ((j, w) ∷ m) = let rest = remove k m in if j == k then rest else (j, w) ∷ rest

  -- `HashMap::retain` with a test on the value.
  unfoldable pub retain : (V → Bool) → Dict V → Dict V
  retain p [] = []
  retain p ((j, w) ∷ m) = let rest = retain p m in if p w then (j, w) ∷ rest else rest

  abbrev pub values : Dict V → List V
  values [] = []
  values ((j, w) ∷ m) = w ∷ values m

  pub get-insert :
      (k j : ℕ) (v : V) (m : Dict V) → get j (insert k v m) ≡ (if k == j then some v else get j m)
  unfolding get insert
  get-insert k j v [] = refl
  get-insert k j v ((i, w) ∷ m) = ground (arith, get-insert k j v m)

  pub get-remove : (k j : ℕ) (m : Dict V) → get j (remove k m) ≡ (if k == j then none else get j m)
  unfolding get remove
  get-remove k j [] = ground arith
  get-remove k j ((i, w) ∷ m) = ground (arith, get-remove k j m)

  -- An entry that passes the test stays.
  pub get-retain :
      (p : V → Bool) (k : ℕ) (v : V) (m : Dict V)
      → get k m ≡ some v
      → p v ≡ true
      → get k (retain p m) ≡ some v
  unfolding get retain
  get-retain p k v [] h t = cc
  get-retain p k v ((j, w) ∷ m) h t = ground (arith, get-retain p k v m)

  -- `HashMap::values_mut`: every value is rewritten in place.
  unfoldable pub map_values : (V → V) → Dict V → Dict V
  map_values f [] = []
  map_values f ((j, w) ∷ m) = (j, f w) ∷ map_values f m

  abbrev pub is_empty : Dict V → Bool
  is_empty [] = true
  is_empty (e ∷ m) = false

  pub get-map_values :
      (f : V → V) (k : ℕ) (m : Dict V) → get k (map_values f m) ≡ map_option f (get k m)
  unfolding get map_values
  get-map_values f k [] = refl
  get-map_values f k ((j, w) ∷ m) = ground (arith, get-map_values f k m)

  pub is_empty-insert : (k : ℕ) (v : V) (m : Dict V) → is_empty (insert k v m) ≡ false
  unfolding insert
  is_empty-insert k v [] = refl
  is_empty-insert k v ((j, w) ∷ m) = ground arith

  pub is_empty-remove : (k : ℕ) (m : Dict V) → is_empty (remove k m) ≡ false → is_empty m ≡ false
  unfolding remove
  is_empty-remove k [] h = h
  is_empty-remove k (e ∷ m) h = refl

  pub is_empty-get : (k : ℕ) (v : V) (m : Dict V) → get k m ≡ some v → is_empty m ≡ false
  unfolding get
  is_empty-get k v [] h = cc
  is_empty-get k v (e ∷ m) h = refl

  module _ {κ} (P : V → Type κ) where
    -- A predicate on every value.
    abbrev pub AllValues : Dict V → Type κ
    AllValues [] = Unit
    AllValues ((j, w) ∷ m) = P w × AllValues m

    pub AllValues-get : (k : ℕ) (v : V) (m : Dict V) → AllValues m → get k m ≡ some v → P v
    unfolding get
    AllValues-get k v [] h e = cc
    AllValues-get k v ((j, w) ∷ m) h e = ground (arith, AllValues-get k v m h.1)

    pub AllValues-insert :
        (k : ℕ) (v : V) (m : Dict V) → P v → AllValues m → AllValues (insert k v m)
    unfolding insert
    AllValues-insert k v [] p h = (p, tt)
    AllValues-insert k v ((j, w) ∷ m) p h = ground (arith, AllValues-insert k v m p h.1)

    pub AllValues-remove : (k : ℕ) (m : Dict V) → AllValues m → AllValues (remove k m)
    unfolding remove
    AllValues-remove k [] h = tt
    AllValues-remove k ((j, w) ∷ m) h = ground (arith, AllValues-remove k m h.1)

    pub AllValues-retain : (p : V → Bool) (m : Dict V) → AllValues m → AllValues (retain p m)
    unfolding retain
    AllValues-retain p [] h = tt
    AllValues-retain p ((j, w) ∷ m) h = ground (arith, AllValues-retain p m h.1)

    pub AllValues-map_values :
        (f : V → V) (m : Dict V)
        → ((v : V) → P v → P (f v))
        → AllValues m
        → AllValues (map_values f m)
    unfolding map_values
    AllValues-map_values f [] keep h = tt
    AllValues-map_values f ((j, w) ∷ m) keep h = (keep w h.0, AllValues-map_values f m keep h.1)
