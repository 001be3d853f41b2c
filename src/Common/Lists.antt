-- ===== src/Common/Lists.antt =====
-- Lists measured by native numbers, predicates over lists, and the equality of byte strings.
use Prim.Native.Nat.{ℕ, zero, suc, ◌+◌}
use mathlib.Core.Path.{◌≡◌, refl}
use mathlib.Core.Bool.{Bool, true, false, ◌&&◌}
use mathlib.Core.Logic.{◌↔◌, ◌≢◌}
use mathlib.Core.List.{List, [], ◌∷◌, ◌++◌}
use native.Mathlib.Omega.{arith}
use samconf.Common.Tests.{◌==◌}

module _ {ℓ} {A : Type ℓ} where
  abbrev pub length : List A → ℕ
  length [] = 0
  length (x ∷ xs) = suc (length xs)

  abbrev pub take : ℕ → List A → List A
  take zero xs = []
  take (suc n) [] = []
  take (suc n) (x ∷ xs) = x ∷ take n xs

  abbrev pub is_empty : List A → Bool
  is_empty [] = true
  is_empty (x ∷ xs) = false

  pub is_empty-eq-false : (xs : List A) → xs ≢ [] → is_empty xs ≡ false
  is_empty-eq-false [] h = absurd (h refl)
  is_empty-eq-false (x ∷ xs) h = refl

  pub length-append : (xs ys : List A) → length (xs ++ ys) ≡ length xs + length ys
  length-append [] ys = omega arith
  length-append (x ∷ xs) ys = omega (arith, length-append xs ys)

module _ {ℓ κ} {A : Type ℓ} (P : A → Type κ) where
  abbrev pub All : List A → Type κ
  All [] = Unit
  All (x ∷ xs) = P x × All xs

  pub All-append : (xs ys : List A) → All xs → All ys → All (xs ++ ys)
  All-append [] ys _ hy = hy
  All-append (x ∷ xs) ys (px, hx) hy = (px, All-append xs ys hx hy)

  pub All-left : (xs ys : List A) → All (xs ++ ys) → All xs
  All-left [] ys _ = tt
  All-left (x ∷ xs) ys (px, h) = (px, All-left xs ys h)

  pub All-right : (xs ys : List A) → All (xs ++ ys) → All ys
  All-right [] ys h = h
  All-right (x ∷ xs) ys (px, h) = All-right xs ys h

-- `strcmp(a, b) == 0` on byte strings, and the equality of index lists.
unfoldable pub list_eq : List ℕ → List ℕ → Bool
list_eq [] [] = true
list_eq [] (_ ∷ _) = false
list_eq (_ ∷ _) [] = false
list_eq (a ∷ xs) (b ∷ bs) = (a == b) && list_eq xs bs

pub list_eq_to : (a b : List ℕ) → list_eq a b ≡ true → a ≡ b
unfolding list_eq
list_eq_to [] [] h = refl
list_eq_to [] (b ∷ bs) h = ground arith
list_eq_to (a ∷ xs) [] h = ground arith
list_eq_to (a ∷ xs) (b ∷ bs) h = ground (arith, list_eq_to xs bs)

pub list_eq_refl : (a : List ℕ) → list_eq a a ≡ true
unfolding list_eq
list_eq_refl [] = refl
list_eq_refl (a ∷ xs) = ground (arith, list_eq_refl xs)

pub list_eq_iff : (a b : List ℕ) → (list_eq a b ≡ true) ↔ (a ≡ b)
list_eq_iff a b = (list_eq_to a b, λ e. rw e (list_eq_refl b))
