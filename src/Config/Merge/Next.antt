-- ===== src/Config/Merge/Next.antt =====
-- `samconfConfigNext` against the list of the positions of a tree in preorder.
use samconf.Common.{
  ℕ, suc, ◌+◌, ◌≤◌, Bool, true, false, List, [], ◌∷◌, ◌++◌, Option, none, some, ◌≡◌, ◌≢◌, refl, sym,
  ap, ◌∙◌, arith, All, All-append, All-right, append_assoc, append-nil, list_eq, list_eq_iff,
  list_eq_refl, length, length-append,
}
use mathlib.Core.Path.{subst}
use samconf.Config.{Node, Config, config, Children, nil, cons, Position}
use samconf.Status.{not_found}
use samconf.Config.Merge.{Search, find_next, find_next_children, config_next, size, size_children}

-- The positions of the nodes of a tree that stands at a position, each before those below it.
unfoldable mutual
  pub preorder : Config → Position → List Position
  preorder (config n cs) at = at ∷ preorder_children cs at 0

  pub preorder_children : Children → Position → ℕ → List Position
  preorder_children nil at i = []
  preorder_children (cons c cs) at i = preorder c (at ++ i ∷ []) ++ preorder_children cs at (i + 1)

pub preorder-root :
    (n : Node) (cs : Children) → preorder (config n cs) [] ≡ [] ∷ preorder_children cs [] 0
unfolding preorder
preorder-root n cs = refl

-- The search for the element behind p in a list of positions.
scan : Position → List Position → Bool × Option Position → Bool × Option Position
scan p [] s = s
scan p (q ∷ qs) (found, some r) = scan p qs (found, some r)
scan p (q ∷ qs) (true, none) = scan p qs (true, some q)
scan p (q ∷ qs) (false, none) = scan p qs (list_eq q p, none)

scan_done :
    (p : Position) (qs : List Position) (f : Bool) (r : Position)
    → scan p qs (f, some r) ≡ (f, some r)
unfolding scan
scan_done p [] f r = refl
scan_done p (q ∷ qs) f r = scan_done p qs f r

scan-append :
    (p : Position) (xs ys : List Position) (f : Bool) (o : Option Position)
    → scan p (xs ++ ys) (f, o) ≡ scan p ys (scan p xs (f, o))
unfolding scan
scan-append p [] ys f o = refl
scan-append p (x ∷ xs) ys f (some r) = scan-append p xs ys f (some r)
scan-append p (x ∷ xs) ys true none = scan-append p xs ys true (some x)
scan-append p (x ∷ xs) ys false none = scan-append p xs ys (list_eq x p) none

-- What a search leaves in `*found` and `*nextConfig`.
abbrev outcome : Search → Bool × Option Position
outcome s = (s.found, s.next)

mutual
  unfolding find_next preorder scan

  find_next-scan :
      (c : Config) (at p : Position) (f : Bool) (o : Option Position)
      → outcome (find_next c at p f o) ≡ scan p (preorder c at) (f, o)
  find_next-scan (config n cs) at p f (some q) = sym (scan_done p (preorder_children cs at 0) f q)
  find_next-scan (config n cs) at p true none =
      sym (scan_done p (preorder_children cs at 0) true at)
  find_next-scan (config n cs) at p false none =
      find_next_children-scan cs at 0 p
        (record { status = not_found; found = list_eq at p; next = none })

  find_next_children-scan :
      (cs : Children) (at : Position) (i : ℕ) (p : Position) (s : Search)
      → outcome (find_next_children cs at i p s) ≡ scan p (preorder_children cs at i) (outcome s)
  find_next_children-scan nil at i p s = refl
  find_next_children-scan (cons c cs) at i p s =
      find_next_children-scan cs at (i + 1) p (find_next c (at ++ i ∷ []) p s.found s.next)
      ∙ ap (scan p (preorder_children cs at (i + 1)))
          (find_next-scan c (at ++ i ∷ []) p s.found s.next)
      ∙ sym (
          scan-append p (preorder c (at ++ i ∷ [])) (preorder_children cs at (i + 1)) s.found
            s.next)

All-map :
    {P Q : Position → Type 0} (xs : List Position)
    → ((x : Position) → P x → Q x)
    → All P xs
    → All Q xs
All-map [] f h = tt
All-map (x ∷ xs) f (p, h) = (f x p, All-map xs f h)

-- No position occurs twice.
abbrev Distinct : List Position → Type 0
Distinct [] = Unit
Distinct (x ∷ xs) = All (λ y. x ≢ y) xs × Distinct xs

Distinct-append :
    (xs ys : List Position)
    → Distinct xs
    → Distinct ys
    → All (λ x. All (λ y. x ≢ y) ys) xs
    → Distinct (xs ++ ys)
Distinct-append [] ys hx hy h = hy
Distinct-append (x ∷ xs) ys (n, hx) hy (m, h) =
    (All-append (λ y. x ≢ y) xs ys n m, Distinct-append xs ys hx hy h)

Distinct-before :
    (before rest : List Position) (p : Position)
    → Distinct (before ++ p ∷ rest)
    → All (λ x. x ≢ p) before
Distinct-before [] rest p h = tt
Distinct-before (x ∷ before) rest p (n, h) =
    ((All-right (λ y. x ≢ y) before (p ∷ rest) n).0, Distinct-before before rest p h)

-- Positions at or below one, and positions below the children of one from an index on.
abbrev Under : Position → Position → Type 0
Under at q = (r : Position) × (q ≡ at ++ r)

abbrev Below : Position → ℕ → Position → Type 0
Below at i q = (j : ℕ) × (r : Position) × (i ≤ j) × (q ≡ at ++ j ∷ r)

mutual
  unfolding preorder

  preorder-Under : (c : Config) (at : Position) → All (Under at) (preorder c at)
  preorder-Under (config n cs) at = (
    ([], sym (append-nil at)),
    All-map (preorder_children cs at 0) (λ q b. (b.0 ∷ b.1, b.3)) (preorder_children-Below cs at 0),
  )

  preorder_children-Below :
      (cs : Children) (at : Position) (i : ℕ) → All (Below at i) (preorder_children cs at i)
  preorder_children-Below nil at i = tt
  preorder_children-Below (cons c cs) at i =
      All-append (Below at i) (preorder c (at ++ i ∷ [])) (preorder_children cs at (i + 1))
        (All-map (preorder c (at ++ i ∷ []))
          (λ q u. (i, u.0, omega arith, u.1 ∙ append_assoc at (i ∷ []) u.0))
          (preorder-Under c (at ++ i ∷ [])))
        (All-map (preorder_children cs at (i + 1)) (λ q b. (b.0, b.1, omega (arith, b.2), b.3))
          (preorder_children-Below cs at (i + 1)))

self_ne : (at : Position) (j : ℕ) (r : Position) → at ≢ at ++ j ∷ r
self_ne [] j r e = cc
self_ne (a ∷ at) j r e = self_ne at j r (cc)

head_of : (at : Position) (i j : ℕ) (r s : Position) → at ++ i ∷ r ≡ at ++ j ∷ s → i ≡ j
head_of [] i j r s e = cc
head_of (a ∷ at) i j r s e = head_of at i j r s (cc)

apart :
    (at : Position) (i : ℕ) (x y : Position) → Under (at ++ i ∷ []) x → Below at (i + 1) y → x ≢ y
apart at i x y (r, u) (j, s, le, b) e =
    let same : i ≡ j = head_of at i j r s (sym (append_assoc at (i ∷ []) r) ∙ sym u ∙ e ∙ b) in
    absurd (omega arith)

mutual
  unfolding preorder

  preorder-Distinct : (c : Config) (at : Position) → Distinct (preorder c at)
  preorder-Distinct (config n cs) at = (
    All-map (preorder_children cs at 0) (λ q b e. self_ne at b.0 b.1 (e ∙ b.3))
        (preorder_children-Below cs at 0),
    preorder_children-Distinct cs at 0,
  )

  preorder_children-Distinct :
      (cs : Children) (at : Position) (i : ℕ) → Distinct (preorder_children cs at i)
  preorder_children-Distinct nil at i = tt
  preorder_children-Distinct (cons c cs) at i =
      Distinct-append (preorder c (at ++ i ∷ [])) (preorder_children cs at (i + 1))
        (preorder-Distinct c (at ++ i ∷ [])) (preorder_children-Distinct cs at (i + 1))
        (All-map (preorder c (at ++ i ∷ []))
          (λ x u.
            All-map (preorder_children cs at (i + 1)) (λ y b. apart at i x y u b)
              (preorder_children-Below cs at (i + 1)))
          (preorder-Under c (at ++ i ∷ [])))

list_eq-eq-false : (a b : Position) → a ≢ b → list_eq a b ≡ false
list_eq-eq-false a b h = ground (arith, list_eq_iff a b)

scan_before :
    (p : Position) (before : List Position)
    → All (λ x. x ≢ p) before
    → scan p before (false, none) ≡ (false, none)
unfolding scan
scan_before p [] h = refl
scan_before p (x ∷ before) (n, h) = rw (list_eq-eq-false x p n) (scan_before p before h)

-- The first of the remaining positions.
abbrev pub first : List Position → Option Position
first [] = none
first (q ∷ qs) = some q

scan_behind :
    (p : Position) (after : List Position) → (scan p (p ∷ after) (false, none)).1 ≡ first after
unfolding scan
scan_behind p [] = refl
scan_behind p (q ∷ after) =
    ap (λ b. (scan p (q ∷ after) (b, none)).1) (list_eq_refl p)
    ∙ ap (λ s. s.1) (scan_done p after true q)

-- From the node at any position of a tree `samconfConfigNext` goes on to the next one in preorder, and
-- to none from the last.
pub config_next-preorder :
    (root : Config) (before after : List Position) (p : Position)
    → preorder root [] ≡ before ++ p ∷ after
    → (config_next (some root) (some p)).1 ≡ first after
unfolding config_next
config_next-preorder root before after p e =
    let lone = Distinct-before before after p (subst Distinct e (preorder-Distinct root [])) in
    ap (λ s. s.1) (find_next-scan root [] p false none)
    ∙ ap (λ qs. (scan p qs (false, none)).1) e
    ∙ ap (λ s. s.1) (scan-append p before (p ∷ after) false none)
    ∙ ap (λ s. (scan p (p ∷ after) s).1) (scan_before p before lone)
    ∙ scan_behind p after

-- The number of positions is the number of nodes.
mutual
  unfolding preorder size

  pub length-preorder : (c : Config) (at : Position) → length (preorder c at) ≡ size c
  length-preorder (config n cs) at = ap suc (length-preorder_children cs at 0)

  pub length-preorder_children :
      (cs : Children) (at : Position) (i : ℕ)
      → length (preorder_children cs at i) ≡ size_children cs
  length-preorder_children nil at i = refl
  length-preorder_children (cons c cs) at i = omega (
    arith,
    length-append (preorder c (at ++ i ∷ [])) (preorder_children cs at (i + 1)),
    length-preorder c (at ++ i ∷ []),
    length-preorder_children cs at (i + 1),
  )
