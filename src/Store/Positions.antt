-- ===== src/Store/Positions.antt =====
-- Pointers to the nodes of a tree that lies in memory, and the positions of these nodes.
use samconf.Common.{
  ℕ, zero, suc, ◌+◌, [], ◌∷◌, ◌++◌, Option, none, some, ◌≡◌, refl, sym, ap, ◌∙◌, arith,
}
use mathlib.Core.Path.{subst}
use samconf.Config.{Node, Position}
use samconf.Store.{Addr}
use samconf.Store.Laid.{
  Laid, laid, Laids, empty, more, address, IsAddress, IsAddressIn, AreDistinct, AreDistinctIn,
  laid_at, laid_in,
}
use samconf.Store.Frame.{laid_at-IsAddress, laid_in-IsAddressIn, address-IsAddress}

-- Nodes with the same address stand at the same position.
mutual
  unfolding laid_at AreDistinct IsAddress

  pub laid_at-inj :
      (t d e : Laid) (p q : Position)
      → AreDistinct t
      → laid_at t p ≡ some d
      → laid_at t q ≡ some e
      → address d ≡ address e
      → p ≡ q
  laid_at-inj (laid a n ds) d e [] [] h at at' same = refl
  laid_at-inj (laid a n ds) d e [] (j ∷ q) (lone, deep) at at' same =
      let root : laid a n ds ≡ d = cc in
      absurd (
        lone (
          subst (λ x. IsAddressIn x ds) (sym (ap address root ∙ same))
            (laid_in-IsAddressIn ds e j q (address e) at' (address-IsAddress e))))
  laid_at-inj (laid a n ds) d e (i ∷ p) [] (lone, deep) at at' same =
      let root : laid a n ds ≡ e = cc in
      absurd (
        lone (
          subst (λ x. IsAddressIn x ds) (same ∙ sym (ap address root))
            (laid_in-IsAddressIn ds d i p (address d) at (address-IsAddress d))))
  laid_at-inj (laid a n ds) d e (i ∷ p) (j ∷ q) (lone, deep) at at' same =
      laid_in-inj ds d e i j p q deep at at' same

  laid_in-inj :
      (ds : Laids) (d e : Laid) (i j : ℕ) (p q : Position)
      → AreDistinctIn ds
      → laid_in ds i p ≡ some d
      → laid_in ds j q ≡ some e
      → address d ≡ address e
      → i ∷ p ≡ j ∷ q
  laid_in-inj empty d e i j p q h at at' same = cc
  laid_in-inj (more c ds) d e zero zero p q (h, apart, hs) at at' same =
      ap (λ r. 0 ∷ r) (laid_at-inj c d e p q h at at' same)
  laid_in-inj (more c ds) d e zero (suc j) p q (h, apart, hs) at at' same = absurd (
      apart (address d) (laid_at-IsAddress c d p (address d) at (address-IsAddress d)) (
        subst (λ x. IsAddressIn x ds) (sym same)
          (laid_in-IsAddressIn ds e j q (address e) at' (address-IsAddress e))))
  laid_in-inj (more c ds) d e (suc i) zero p q (h, apart, hs) at at' same = absurd (
      apart (address e) (laid_at-IsAddress c e q (address e) at' (address-IsAddress e)) (
        subst (λ x. IsAddressIn x ds) same
          (laid_in-IsAddressIn ds d i p (address d) at (address-IsAddress d))))
  laid_in-inj (more c ds) d e (suc i) (suc j) p q (h, apart, hs) at at' same =
      let tails = laid_in-inj ds d e i j p q hs at at' same in cc

mutual
  unfolding laid_at

  pub laid_at-append :
      (t e : Laid) (p q : Position) → laid_at t p ≡ some e → laid_at t (p ++ q) ≡ laid_at e q
  laid_at-append t e [] q h = let same : t ≡ e = cc in ap (λ x. laid_at x q) same
  laid_at-append (laid a n ds) e (i ∷ p) q h = laid_in-append ds e i p q h

  laid_in-append :
      (ds : Laids) (e : Laid) (i : ℕ) (p q : Position)
      → laid_in ds i p ≡ some e
      → laid_in ds i (p ++ q) ≡ laid_at e q
  laid_in-append empty e i p q h = cc
  laid_in-append (more d ds) e zero p q h = laid_at-append d e p q h
  laid_in-append (more d ds) e (suc i) p q h = laid_in-append ds e i p q h

-- The address of the node at a position, NULL for none.
abbrev pub address_of : Option Laid → Option Addr
address_of none = none
address_of (some d) = some (address d)

abbrev pub pointer_to : Laid → Option Position → Option Addr
pointer_to t none = none
pointer_to t (some p) = address_of (laid_at t p)

-- A position that was found is one of the tree.
abbrev pub Stands : Laid → Option Position → Type 0
Stands t none = Unit
Stands t (some q) = (e : Laid) × (laid_at t q ≡ some e)

-- The children from an index on stand in a tree at some position.
abbrev pub StandAt : Laid → Position → ℕ → Laids → Type 0
StandAt t at i ds =
    (m : ℕ) (e : Laid) → laid_in ds m [] ≡ some e → laid_at t (at ++ (i + m) ∷ []) ≡ some e

pub StandAt-children :
    (t : Laid) (a : Addr) (n : Node) (ds : Laids) (at : Position)
    → laid_at t at ≡ some (laid a n ds)
    → StandAt t at 0 ds
unfolding laid_at
StandAt-children t a n ds at here m e sub =
    let same : m ≡ 0 + m = omega arith in
    subst (λ k. laid_at t (at ++ k ∷ []) ≡ some e) same
      (laid_at-append t (laid a n ds) at (m ∷ []) here ∙ sub)

pub StandAt-head :
    (t e : Laid) (at : Position) (i : ℕ) (ds : Laids)
    → StandAt t at i (more e ds)
    → laid_at t (at ++ i ∷ []) ≡ some e
unfolding laid_at
StandAt-head t e at i ds h =
    let same : i + 0 ≡ i = omega arith in
    subst (λ k. laid_at t (at ++ k ∷ []) ≡ some e) same (h 0 e refl)

pub StandAt-tail :
    (t e : Laid) (at : Position) (i : ℕ) (ds : Laids)
    → StandAt t at i (more e ds)
    → StandAt t at (i + 1) ds
unfolding laid_at
StandAt-tail t e at i ds h m c there =
    let same : i + suc m ≡ i + 1 + m = omega arith in
    subst (λ k. laid_at t (at ++ k ∷ []) ≡ some c) same (h (suc m) c there)
