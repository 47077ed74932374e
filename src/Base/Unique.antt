-- ===== src/Base/Unique.antt =====
-- A key that no two rows of a table share: PRIMARY KEY and UNIQUE columns.
use Prim.Native.Nat.{ℕ}
use mathlib.Core.Path.{◌≡◌, refl}
use mathlib.Core.Bool.{Bool, true, ◌&&◌}
use mathlib.Core.Option.{none, some}
use mathlib.Core.List.{List, [], ◌∷◌}
use native.Mathlib.Omega.{arith}
use telepair.Base.Tests.{if◌then◌else◌, ◌==◌}
use telepair.Base.Rows.{find, update_where, delete_where}

module _ {ℓ} {R : Type ℓ} (key : R → ℕ) where
  abbrev pub key_is : ℕ → R → Bool
  key_is k r = key r == k

  abbrev pub Unique : List R → Type ℓ
  Unique [] = Unit
  Unique (r ∷ rs) = (find (key_is (key r)) rs ≡ none) × Unique rs

  find-key-update_where :
      (k : ℕ) (p : R → Bool) (f : R → R) (rs : List R)
      → ((r : R) → key (f r) ≡ key r)
      → find (key_is k) rs ≡ none
      → find (key_is k) (update_where p f rs) ≡ none
  unfolding find update_where
  find-key-update_where k p f [] keep h = refl
  find-key-update_where k p f (r ∷ rs) keep h =
      ground (arith, keep r, find-key-update_where k p f rs keep)

  pub Unique-update_where :
      (p : R → Bool) (f : R → R) (rs : List R)
      → ((r : R) → key (f r) ≡ key r)
      → Unique rs
      → Unique (update_where p f rs)
  unfolding update_where
  Unique-update_where p f [] keep h = tt
  Unique-update_where p f (r ∷ rs) keep h = ground (
    arith,
    keep r,
    find-key-update_where (key r) p f rs keep h.0,
    Unique-update_where p f rs keep h.1,
  )

  find-key-delete_where :
      (k : ℕ) (p : R → Bool) (rs : List R)
      → find (key_is k) rs ≡ none
      → find (key_is k) (delete_where p rs) ≡ none
  unfolding find delete_where
  find-key-delete_where k p [] h = refl
  find-key-delete_where k p (r ∷ rs) h = ground (arith, find-key-delete_where k p rs)

  module _ (k : ℕ) (q : R → Bool) where
    pub find-absent :
        (rs : List R) → find (key_is k) rs ≡ none → find (λ r. key_is k r && q r) rs ≡ none
    unfolding find
    find-absent [] h = refl
    find-absent (r ∷ rs) h = ground (arith, find-absent rs)

    -- Where a key is unique, the row that has it decides whether any row meets a further test.
    pub find-Unique :
        (rs : List R) (r : R)
        → Unique rs
        → find (key_is k) rs ≡ some r
        → find (λ x. key_is k x && q x) rs ≡ (if q r then some r else none)
    unfolding find
    find-Unique [] r u h = cc
    find-Unique (x ∷ rs) r u h = ground (arith, find-absent rs, find-Unique rs r u.1)

    -- An UPDATE of the row with the key, under a further test.
    pub find-update_where_self :
        (f : R → R) (rs : List R) (r : R)
        → ((x : R) → key (f x) ≡ key x)
        → find (key_is k) rs ≡ some r
        → q r ≡ true
        → find (key_is k) (update_where (λ x. key_is k x && q x) f rs) ≡ some (f r)
    unfolding find update_where
    find-update_where_self f [] r keep h t = cc
    find-update_where_self f (x ∷ rs) r keep h t =
        ground (arith, keep x, find-update_where_self f rs r keep)

    update_where-absent :
        (f : R → R) (rs : List R)
        → find (key_is k) rs ≡ none
        → update_where (λ x. key_is k x && q x) f rs ≡ update_where (key_is k) f rs
    unfolding find update_where
    update_where-absent f [] h = refl
    update_where-absent f (x ∷ rs) h = ground (arith, update_where-absent f rs)

    -- If the row with the key passes the further test, the test may be left out.
    pub update_where-Unique :
        (f : R → R) (rs : List R) (r : R)
        → Unique rs
        → find (key_is k) rs ≡ some r
        → q r ≡ true
        → update_where (λ x. key_is k x && q x) f rs ≡ update_where (key_is k) f rs
    unfolding find update_where
    update_where-Unique f [] r u h t = cc
    update_where-Unique f (x ∷ rs) r u h t =
        ground (arith, update_where-absent f rs, update_where-Unique f rs r u.1)

    find-delete_where_absent :
        (rs : List R)
        → find (key_is k) rs ≡ none
        → find (key_is k) (delete_where (λ x. key_is k x && q x) rs) ≡ none
    unfolding find delete_where
    find-delete_where_absent [] h = refl
    find-delete_where_absent (x ∷ rs) h = ground (arith, find-delete_where_absent rs)

    -- A DELETE of the one row with the key.
    pub find-delete_where_self :
        (rs : List R) (r : R)
        → Unique rs
        → find (key_is k) rs ≡ some r
        → q r ≡ true
        → find (key_is k) (delete_where (λ x. key_is k x && q x) rs) ≡ none
    unfolding find delete_where
    find-delete_where_self [] r u h t = cc
    find-delete_where_self (x ∷ rs) r u h t =
        ground (arith, find-delete_where_absent rs, find-delete_where_self rs r u.1)
