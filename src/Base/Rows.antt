-- ===== src/Base/Rows.antt =====
-- A SQL table as the list of its rows: SELECT, UPDATE and DELETE with a WHERE clause.
use Prim.Native.Nat.{ℕ, suc}
use mathlib.Core.Path.{◌≡◌, refl}
use mathlib.Core.Bool.{Bool, true, false}
use mathlib.Core.Option.{Option, none, some}
use mathlib.Core.List.{List, [], ◌∷◌}
use native.Mathlib.Omega.{arith}
use telepair.Base.Tests.{if◌then◌else◌, is_some, map_option}
use telepair.Base.Lists.{All}

module _ {ℓ} {R : Type ℓ} where
  -- The first row that the clause selects.
  unfoldable pub find : (R → Bool) → List R → Option R
  find p [] = none
  find p (r ∷ rs) = if p r then some r else find p rs

  unfoldable pub select_where : (R → Bool) → List R → List R
  select_where p [] = []
  select_where p (r ∷ rs) = let rest = select_where p rs in if p r then r ∷ rest else rest

  unfoldable pub update_where : (R → Bool) → (R → R) → List R → List R
  update_where p f [] = []
  update_where p f (r ∷ rs) = (if p r then f r else r) ∷ update_where p f rs

  unfoldable pub delete_where : (R → Bool) → List R → List R
  delete_where p [] = []
  delete_where p (r ∷ rs) = let rest = delete_where p rs in if p r then rest else r ∷ rest

  abbrev pub exists_where : (R → Bool) → List R → Bool
  exists_where p rs = is_some (find p rs)

  -- ORDER BY: `before r s` says that `r` comes first. Rows that tie keep their order.
  unfoldable pub insert_by : (R → R → Bool) → R → List R → List R
  insert_by before s [] = s ∷ []
  insert_by before s (r ∷ rs) =
      let later = insert_by before s rs in if before r s then r ∷ later else s ∷ r ∷ rs

  unfoldable pub order_by : (R → R → Bool) → List R → List R
  order_by before [] = []
  order_by before (r ∷ rs) = insert_by before r (order_by before rs)

  unfoldable pub count_where : (R → Bool) → List R → ℕ
  count_where p [] = 0
  count_where p (r ∷ rs) = let n = count_where p rs in if p r then suc n else n

  module _ {κ} (P : R → Type κ) (p : R → Bool) where
    pub All-update_where :
        (f : R → R) (rs : List R)
        → ((r : R) → p r ≡ true → P r → P (f r))
        → All P rs
        → All P (update_where p f rs)
    unfolding update_where
    All-update_where f [] keep h = tt
    All-update_where f (r ∷ rs) keep h = ground (arith, keep r, All-update_where f rs keep h.1)

  module _ (p : R → Bool) where
    pub find_holds : (rs : List R) (r : R) → find p rs ≡ some r → p r ≡ true
    unfolding find
    find_holds [] r e = cc
    find_holds (x ∷ rs) r e = ground (arith, find_holds rs r)

    -- An UPDATE that keeps its own clause true changes the row that the clause finds.
    pub find-update_where :
        (f : R → R) (rs : List R)
        → ((r : R) → p r ≡ true → p (f r) ≡ true)
        → find p (update_where p f rs) ≡ map_option f (find p rs)
    unfolding find update_where
    find-update_where f [] keep = refl
    find-update_where f (r ∷ rs) keep = ground (arith, keep r, find-update_where f rs keep)

    pub find-delete_where : (rs : List R) → find p (delete_where p rs) ≡ none
    unfolding find delete_where
    find-delete_where [] = refl
    find-delete_where (r ∷ rs) = ground (arith, find-delete_where rs)

  module _ (p q : R → Bool) where
    -- Rows that the clause of a write leaves out are found as before.
    pub find-update_where_other :
        (f : R → R) (rs : List R)
        → ((r : R) → p (f r) ≡ p r)
        → ((r : R) → p r ≡ true → q r ≡ false)
        → find p (update_where q f rs) ≡ find p rs
    unfolding find update_where
    find-update_where_other f [] keep apart = refl
    find-update_where_other f (r ∷ rs) keep apart =
        ground (arith, keep r, apart r, find-update_where_other f rs keep apart)

    pub find-delete_where_other :
        (rs : List R)
        → ((r : R) → p r ≡ true → q r ≡ false)
        → find p (delete_where q rs) ≡ find p rs
    unfolding find delete_where
    find-delete_where_other [] apart = refl
    find-delete_where_other (r ∷ rs) apart =
        ground (arith, apart r, find-delete_where_other rs apart)
