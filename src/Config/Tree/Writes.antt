-- ===== src/Config/Tree/Writes.antt =====
-- Writes at a position of a tree, and what paths lead to before and after.
use samconf.Common.{
  ℕ, zero, suc, ◌+◌, List, [], ◌∷◌, ◌++◌, none, some, ◌≡◌, refl, ap, arith, inl, inr, Option-cases,
  Bool-cases, if◌then◌else◌, ◌==◌,
}
use mathlib.Core.Path.{fun_ext}
use samconf.Text.{Bytes}
use samconf.Config.{
  Node, Config, config, Children, nil, cons, Position, node, children, child_count, append_child,
  link, child_at, subtree, modify_child, modify_at,
}
use samconf.Config.Get.{find_child}
use samconf.Config.Get.Resolve.{resolve, under, under-under, under-nil}
use samconf.Config.Tree.Children.{
  find_child-child_at, find_child-modify, find_child-append, node-link, node-modify_at,
}

pub resolve-hit :
    (seg : Bytes) (c d : Config) (k : ℕ) (segs : List Bytes)
    → find_child seg (children c) 0 ≡ some (k, d)
    → resolve c (seg ∷ segs) ≡ under (k ∷ []) (resolve d segs)
unfolding resolve
resolve-hit seg c d k segs h = rw (resolve, h)

pub resolve-miss :
    (seg : Bytes) (c : Config) (segs : List Bytes)
    → find_child seg (children c) 0 ≡ none
    → resolve c (seg ∷ segs) ≡ none
unfolding resolve
resolve-miss seg c segs h = rw (resolve, h)

-- What a resolved path says of its first segment.
pub resolve-step :
    (seg : Bytes) (c : Config) (segs : List Bytes) (q : Position)
    → resolve c (seg ∷ segs) ≡ some q
    → (k : ℕ) × (d : Config) × (r : Position) × (find_child seg (children c) 0 ≡ some (k, d))
      × (resolve d segs ≡ some r)
      × (q ≡ k ∷ r)
resolve-step seg c segs q h = elim (Option-cases (find_child seg (children c) 0)) [
  | inl missing ↦ cc (resolve-miss seg c segs missing)
  | inr ((k, d), hit) ↦ elim (Option-cases (resolve d segs)) [
    | inl lost ↦ cc (resolve-hit seg c d k segs hit, ap (under (k ∷ [])) lost)
    | inr (r, deep) ↦
        (k, d, r, hit, deep, cc (resolve-hit seg c d k segs hit, ap (under (k ∷ [])) deep))
  ]
]

pub child_at-append :
    (cs : Children) (d : Config) → child_at (append_child cs d) (child_count cs) ≡ some d
child_at-append nil d = refl
child_at-append (cons c cs) d = child_at-append cs d

-- Linking a node anywhere into a tree leaves the position that any path leads to.
pub resolve-link :
    (root : Config) (p : Position) (d : Config) (segs : List Bytes) (q : Position)
    → resolve root segs ≡ some q
    → resolve (modify_at root p (link d)) segs ≡ some q
unfolding modify_at
resolve-link root p d [] q h = unfold resolve in h
resolve-link (config n cs) [] d (seg ∷ segs) q h =
    let (k, c, r, hit, deep, e) = resolve-step seg (config n cs) segs q h in
    rw (
      resolve-hit seg (config n (append_child cs d)) c k segs
          (find_child-append seg cs 0 k c d hit),
      deep,
      e,
    )
resolve-link (config n cs) (i ∷ p) d (seg ∷ segs) q h =
    let (k, c, r, hit, deep, e) = resolve-step seg (config n cs) segs q h in
    let g = λ (x : Config). modify_at x p (link d) in
    let keep : (x : Config) → node (g x) ≡ node x =
      λ x. node-modify_at x p (link d) (node-link d) in
    let below : resolve (if k == 0 + i then g c else c) segs ≡ some r =
      elim (Bool-cases (k == 0 + i)) [
        | inl same ↦ rw same (resolve-link c p d segs r deep)
        | inr other ↦ rw other deep
      ] in
    rw (
      resolve-hit seg (config n (modify_child cs i g)) (if k == 0 + i then g c else c) k segs
          (find_child-modify seg cs 0 i k c g keep hit),
      below,
      e,
    )

pub find_child-modify_self :
    (seg : Bytes) (cs : Children) (k : ℕ) (c : Config) (g : Config → Config)
    → ((d : Config) → node (g d) ≡ node d)
    → find_child seg cs 0 ≡ some (k, c)
    → find_child seg (modify_child cs k g) 0 ≡ some (k, g c)
find_child-modify_self seg cs k c g keep h =
    ground (arith, find_child-modify seg cs 0 k k c g keep h)

pub subtree-cons :
    (n : Node) (cs : Children) (k : ℕ) (d : Config) (r : Position)
    → child_at cs k ≡ some d
    → subtree (config n cs) (k ∷ r) ≡ subtree d r
unfolding subtree
subtree-cons n cs k d r h = rw (subtree, h)

pub subtree-missing :
    (n : Node) (cs : Children) (k : ℕ) (r : Position)
    → child_at cs k ≡ none
    → subtree (config n cs) (k ∷ r) ≡ none
unfolding subtree
subtree-missing n cs k r h = rw (subtree, h)

pub child_at-modify :
    (cs : Children) (k : ℕ) (d : Config) (g : Config → Config)
    → child_at cs k ≡ some d
    → child_at (modify_child cs k g) k ≡ some (g d)
child_at-modify nil k d g h = cc
child_at-modify (cons c cs) zero d g h = cc
child_at-modify (cons c cs) (suc k) d g h = child_at-modify cs k d g h

-- A write at the node that the first segments lead to: the segments behind them are read below it.
pub resolve-modify_at :
    (root : Config) (segs rest : List Bytes) (p : Position) (c : Config) (f : Config → Config)
    → ((d : Config) → node (f d) ≡ node d)
    → resolve root segs ≡ some p
    → subtree root p ≡ some c
    → resolve (modify_at root p f) (segs ++ rest) ≡ under p (resolve (f c) rest)
unfolding modify_at
resolve-modify_at root [] rest p c f keep h s =
    let e : p ≡ [] = unfold resolve in cc in
    let same : root ≡ c = unfold subtree in cc (ap (subtree root) e) in rw (e, same, under-nil)
resolve-modify_at (config n cs) (seg ∷ segs) rest p c f keep h s =
    let (k, d, r, hit, deep, e) = resolve-step seg (config n cs) segs p h in
    let at_k = subtree-cons n cs k d r (find_child-child_at seg cs k d hit).0 in
    let below : subtree d r ≡ some c = cc (at_k, ap (subtree (config n cs)) e) in
    let g = λ (x : Config). modify_at x r f in
    let keep_g : (x : Config) → node (g x) ≡ node x = λ x. node-modify_at x r f keep in
    let found = find_child-modify_self seg cs k d g keep_g hit in
    rw (
      e,
      resolve-hit seg (config n (modify_child cs k g)) (g d) k (segs ++ rest) found,
      resolve-modify_at d segs rest r c f keep deep below,
      under-under,
    )

-- The node at the position of the write, and those below it.
pub subtree-modify_at :
    (root : Config) (p q : Position) (c : Config) (f : Config → Config)
    → subtree root p ≡ some c
    → subtree (modify_at root p f) (p ++ q) ≡ subtree (f c) q
unfolding modify_at
subtree-modify_at root [] q c f s = let same : root ≡ c = unfold subtree in cc in rw same
subtree-modify_at (config n cs) (k ∷ p) q c f s = elim (Option-cases (child_at cs k)) [
  | inl missing ↦ cc (subtree-missing n cs k p missing)
  | inr (d, here) ↦
      let below : subtree d p ≡ some c = cc (subtree-cons n cs k d p here) in
      rw
        (subtree-cons n (modify_child cs k (λ x. modify_at x p f)) k (modify_at d p f) (p ++ q)
          (child_at-modify cs k d (λ x. modify_at x p f) here))
        (subtree-modify_at d p q c f below)
]

modify_child_id : (cs : Children) (k : ℕ) → modify_child cs k (λ d. d) ≡ cs
modify_child_id nil k = refl
modify_child_id (cons c cs) zero = refl
modify_child_id (cons c cs) (suc k) = ap (cons c) (modify_child_id cs k)

pub modify_at_id : (p : Position) (root : Config) → modify_at root p (λ c. c) ≡ root
unfolding modify_at
modify_at_id [] root = refl
modify_at_id (k ∷ p) (config n cs) =
    rw (fun_ext (modify_at_id p)) (ap (config n) (modify_child_id cs k))

-- Reading more segments goes on from the node that the first ones lead to.
pub resolve-append :
    (root : Config) (segs rest : List Bytes) (p : Position) (c : Config)
    → resolve root segs ≡ some p
    → subtree root p ≡ some c
    → resolve root (segs ++ rest) ≡ under p (resolve c rest)
resolve-append root segs rest p c h s = cc (
  resolve-modify_at root segs rest p c (λ d. d) (λ d. refl) h s,
  ap (λ r. resolve r (segs ++ rest)) (modify_at_id p root),
)

-- What a path leads to is there.
pub resolve-subtree :
    (root : Config) (segs : List Bytes) (p : Position)
    → resolve root segs ≡ some p
    → (c : Config) × (subtree root p ≡ some c)
resolve-subtree root [] p h =
    let e : p ≡ [] = unfold resolve in cc in (root, rw e (unfold subtree in refl))
resolve-subtree (config n cs) (seg ∷ segs) p h =
    let (k, d, r, hit, deep, e) = resolve-step seg (config n cs) segs p h in
    let (c, there) = resolve-subtree d segs r deep in
    (
      c,
      cc (
        ap (subtree (config n cs)) e,
        subtree-cons n cs k d r (find_child-child_at seg cs k d hit).0,
      ),
    )

pub resolve_nil : (c : Config) → resolve c [] ≡ some []
unfolding resolve
resolve_nil c = refl

pub subtree_nil : (c : Config) → subtree c [] ≡ some c
unfolding subtree
subtree_nil c = refl
