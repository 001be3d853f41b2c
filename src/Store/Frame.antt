-- ===== src/Store/Frame.antt =====
-- Trees in a store that changes elsewhere, and their subtrees.
use samconf.Common.{ℕ, zero, suc, [], ◌∷◌, ◌++◌, Option, some, ◌≡◌, refl, sym, ap, ◌∙◌, inl, inr}
use mathlib.Core.Path.{subst}
use samconf.Config.{config, Children, Position, modify_at, modify_child, link, append_child}
use samconf.Store.{Addr, Cell, Store}
use samconf.Store.Laid.{
  Laid, laid, Laids, empty, more, address, roots, erase, erase_all, LiesIn, AllLieIn, IsAddress,
  IsAddressIn, laid_at, laid_in, append_laid, link_at, link_in,
}

-- A tree stays in a store that is the same at its addresses.
module _ (s s' : Store) where
  mutual
    unfolding LiesIn IsAddress

    pub LiesIn-frame :
        (up : Option Addr) (t : Laid)
        → LiesIn s up t
        → ((x : Addr) → IsAddress x t → s' x ≡ s x)
        → LiesIn s' up t
    LiesIn-frame up (laid a n ds) (here, below) same =
        (same a (inl refl) ∙ here, AllLieIn-frame (some a) ds below (λ x m. same x (inr m)))

    pub AllLieIn-frame :
        (up : Option Addr) (ds : Laids)
        → AllLieIn s up ds
        → ((x : Addr) → IsAddressIn x ds → s' x ≡ s x)
        → AllLieIn s' up ds
    AllLieIn-frame up empty h same = tt
    AllLieIn-frame up (more d ds) (h, hs) same = (
      LiesIn-frame up d h (λ x m. same x (inl m)),
      AllLieIn-frame up ds hs (λ x m. same x (inr m)),
    )

-- The addresses of a subtree are addresses of the tree.
mutual
  unfolding laid_at IsAddress

  pub laid_at-IsAddress :
      (t d : Laid) (p : Position) (x : Addr) → laid_at t p ≡ some d → IsAddress x d → IsAddress x t
  laid_at-IsAddress (laid a n ds) d [] x h m =
      let same : laid a n ds ≡ d = cc in subst (IsAddress x) (sym same) m
  laid_at-IsAddress (laid a n ds) d (i ∷ p) x h m = inr (laid_in-IsAddressIn ds d i p x h m)

  pub laid_in-IsAddressIn :
      (ds : Laids) (d : Laid) (i : ℕ) (p : Position) (x : Addr)
      → laid_in ds i p ≡ some d
      → IsAddress x d
      → IsAddressIn x ds
  laid_in-IsAddressIn empty d i p x h m = cc
  laid_in-IsAddressIn (more e ds) d zero p x h m = inl (laid_at-IsAddress e d p x h m)
  laid_in-IsAddressIn (more e ds) d (suc i) p x h m = inr (laid_in-IsAddressIn ds d i p x h m)

-- A subtree lies in the store, below the node above it.
mutual
  unfolding laid_at LiesIn

  pub laid_at-LiesIn :
      (s : Store) (up : Option Addr) (t d : Laid) (p : Position)
      → LiesIn s up t
      → laid_at t p ≡ some d
      → (up' : Option Addr) × LiesIn s up' d
  laid_at-LiesIn s up (laid a n ds) d [] h at =
      let same : laid a n ds ≡ d = cc in (up, subst (LiesIn s up) same h)
  laid_at-LiesIn s up (laid a n ds) d (i ∷ p) (here, below) at =
      laid_in-LiesIn s (some a) ds d i p below at

  pub laid_in-LiesIn :
      (s : Store) (up : Option Addr) (ds : Laids) (d : Laid) (i : ℕ) (p : Position)
      → AllLieIn s up ds
      → laid_in ds i p ≡ some d
      → (up' : Option Addr) × LiesIn s up' d
  laid_in-LiesIn s up empty d i p h at = cc
  laid_in-LiesIn s up (more e ds) d zero p (h, hs) at = laid_at-LiesIn s up e d p h at
  laid_in-LiesIn s up (more e ds) d (suc i) p (h, hs) at = laid_in-LiesIn s up ds d i p hs at

-- The cell of a tree that lies in the store.
pub LiesIn-cell :
    (s : Store) (up : Option Addr) (d : Laid)
    → LiesIn s up d
    → (cell : Cell) × (s (address d) ≡ some cell)
unfolding LiesIn
LiesIn-cell s up (laid a n ds) (here, below) =
    (record { node = n; parent = up; children = roots ds }, here)

pub address-IsAddress : (d : Laid) → IsAddress (address d) d
unfolding IsAddress
address-IsAddress (laid a n ds) = inl refl

-- Subtrees and links are those of the tree without addresses.
pub roots-append : (ds : Laids) (u : Laid) → roots (append_laid ds u) ≡ roots ds ++ address u ∷ []
roots-append empty u = refl
roots-append (more d ds) u = ap (λ l. address d ∷ l) (roots-append ds u)

erase-append :
    (ds : Laids) (u : Laid) → erase_all (append_laid ds u) ≡ append_child (erase_all ds) (erase u)
unfolding erase
erase-append empty u = refl
erase-append (more d ds) u = ap (Children.cons (erase d)) (erase-append ds u)

mutual
  unfolding erase link_at modify_at

  pub erase-link_at :
      (t : Laid) (p : Position) (u : Laid)
      → erase (link_at t p u) ≡ modify_at (erase t) p (link (erase u))
  erase-link_at (laid a n ds) [] u = ap (config n) (erase-append ds u)
  erase-link_at (laid a n ds) (i ∷ p) u = ap (config n) (erase-link_in ds i p u)

  pub erase-link_in :
      (ds : Laids) (i : ℕ) (p : Position) (u : Laid)
      → erase_all (link_in ds i p u)
        ≡ modify_child (erase_all ds) i (λ c. modify_at c p (link (erase u)))
  erase-link_in empty i p u = refl
  erase-link_in (more d ds) zero p u =
      ap (λ c. Children.cons c (erase_all ds)) (erase-link_at d p u)
  erase-link_in (more d ds) (suc i) p u = ap (Children.cons (erase d)) (erase-link_in ds i p u)
