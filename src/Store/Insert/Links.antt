-- ===== src/Store/Insert/Links.antt =====
-- Trees in memory with another one linked into them.
use samconf.Common.{
  ℕ, zero, suc, [], ◌∷◌, ◌++◌, Option, none, some, ◌≡◌, ◌≢◌, refl, ap, ◌∙◌, inl, inr,
}
use mathlib.Core.Path.{subst}
use samconf.Config.{Position, children, child_at, child_count, subtree}
use samconf.Store.{Addr, Cell, Store, write}
use samconf.Store.Laid.{
  Laid, laid, Laids, empty, more, erase, erase_all, LiesIn, AllLieIn, IsAddress, IsAddressIn,
  laid_at, laid_in, append_laid, link_at, link_in,
}
use samconf.Store.Add.{eq-ne}
use samconf.Store.Frame.{LiesIn-frame}
use samconf.Store.Lookup.{HasKey, IsNamed, AreNamed}

-- The subtree at a position is that of the tree without addresses.
mutual
  unfolding laid_at erase subtree

  pub subtree-erase :
      (t d : Laid) (p : Position) → laid_at t p ≡ some d → subtree (erase t) p ≡ some (erase d)
  subtree-erase t d [] h = let same : t ≡ d = cc in ap (λ x. some (erase x)) same
  subtree-erase (laid a n ds) d (i ∷ p) h =
      let (e, first, deeper) = child_at-erase ds d i p h in rw first deeper

  child_at-erase :
      (ds : Laids) (d : Laid) (i : ℕ) (p : Position)
      → laid_in ds i p ≡ some d
      → (e : Laid) × (child_at (erase_all ds) i ≡ some (erase e))
        × (subtree (erase e) p ≡ some (erase d))
  child_at-erase empty d i p h = cc
  child_at-erase (more e ds) d zero p h = (e, refl, subtree-erase e d p h)
  child_at-erase (more e ds) d (suc i) p h = child_at-erase ds d i p h

-- The linked tree stands behind the children that were there.
laid_in-append :
    (ds : Laids) (u : Laid) → laid_in (append_laid ds u) (child_count (erase_all ds)) [] ≡ some u
unfolding laid_at erase
laid_in-append empty u = refl
laid_in-append (more d ds) u = laid_in-append ds u

mutual
  unfolding laid_at link_at erase

  pub laid_at-link_at :
      (t d u : Laid) (p : Position)
      → laid_at t p ≡ some d
      → laid_at (link_at t p u) (p ++ child_count (children (erase d)) ∷ []) ≡ some u
  laid_at-link_at (laid a n ds) d u [] h =
      let same : laid a n ds ≡ d = cc in
      subst (λ x. laid_in (append_laid ds u) (child_count (children (erase x))) [] ≡ some u) same
        (laid_in-append ds u)
  laid_at-link_at (laid a n ds) d u (i ∷ p) h = laid_in-link_in ds d u i p h

  laid_in-link_in :
      (ds : Laids) (d u : Laid) (i : ℕ) (p : Position)
      → laid_in ds i p ≡ some d
      → laid_in (link_in ds i p u) i (p ++ child_count (children (erase d)) ∷ []) ≡ some u
  laid_in-link_in empty d u i p h = cc
  laid_in-link_in (more e ds) d u zero p h = laid_at-link_at e d u p h
  laid_in-link_in (more e ds) d u (suc i) p h = laid_in-link_in ds d u i p h

append-AreNamed :
    (ds : Laids) (u : Laid) → AreNamed ds → HasKey u → IsNamed u → AreNamed (append_laid ds u)
unfolding IsNamed
append-AreNamed empty u h key named = (key, named, tt)
append-AreNamed (more d ds) u (k, n, h) key named = (k, n, append-AreNamed ds u h key named)

HasKey-link_at : (t u : Laid) (p : Position) → HasKey t → HasKey (link_at t p u)
unfolding link_at
HasKey-link_at (laid a n ds) u [] h = h
HasKey-link_at (laid a n ds) u (i ∷ p) h = h

mutual
  unfolding IsNamed link_at

  pub link_at-IsNamed :
      (t u : Laid) (p : Position) → IsNamed t → HasKey u → IsNamed u → IsNamed (link_at t p u)
  link_at-IsNamed (laid a n ds) u [] h key named = append-AreNamed ds u h key named
  link_at-IsNamed (laid a n ds) u (i ∷ p) h key named = link_in-AreNamed ds u i p h key named

  link_in-AreNamed :
      (ds : Laids) (u : Laid) (i : ℕ) (p : Position)
      → AreNamed ds
      → HasKey u
      → IsNamed u
      → AreNamed (link_in ds i p u)
  link_in-AreNamed empty u i p h key named = tt
  link_in-AreNamed (more d ds) u zero p (k, n, h) key named =
      (HasKey-link_at d u p k, link_at-IsNamed d u p n key named, h)
  link_in-AreNamed (more d ds) u (suc i) p (k, n, h) key named =
      (k, n, link_in-AreNamed ds u i p h key named)

-- Memory at the addresses of a tree holds nodes.
mutual
  unfolding LiesIn IsAddress

  pub LiesIn-some :
      (s : Store) (up : Option Addr) (t : Laid) (x : Addr)
      → LiesIn s up t
      → IsAddress x t
      → s x ≢ none
  LiesIn-some s up (laid a n ds) x (here, below) (inl e) free = cc (ap s e)
  LiesIn-some s up (laid a n ds) x (here, below) (inr m) free =
      AllLieIn-some s (some a) ds x below m free

  AllLieIn-some :
      (s : Store) (up : Option Addr) (ds : Laids) (x : Addr)
      → AllLieIn s up ds
      → IsAddressIn x ds
      → s x ≢ none
  AllLieIn-some s up (more d ds) x (h, hs) (inl m) free = LiesIn-some s up d x h m free
  AllLieIn-some s up (more d ds) x (h, hs) (inr m) free = AllLieIn-some s up ds x hs m free
  AllLieIn-some s up empty x h m free = absurd m

-- A write to free memory leaves the trees that lie in the store.
pub write-LiesIn :
    (s : Store) (b : Addr) (cell : Cell) (up : Option Addr) (t : Laid)
    → s b ≡ none
    → LiesIn s up t
    → LiesIn (write b cell s) up t
write-LiesIn s b cell up t free h = LiesIn-frame s (write b cell s) up t h (λ x m.
    let other : x ≢ b = λ e. LiesIn-some s up t x h m (ap s e ∙ free) in rw (eq-ne x b other) refl)
