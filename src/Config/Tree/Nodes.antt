-- ===== src/Config/Tree/Nodes.antt =====
-- The nodes of a tree before and after a node is linked into it.
use samconf.Common.{
  ℕ, zero, suc, [], ◌∷◌, ◌++◌, Option, some, ◌≡◌, refl, sym, ◌∙◌, ◌⊎◌, ap, inl, inr, Option-cases,
}
use samconf.Config.{
  Node, Config, config, Children, nil, cons, Position, node, append_child, link, child_at, subtree,
  modify_child, modify_at,
}
use samconf.Config.Tree.Children.{node-link, node-modify_at}
use samconf.Config.Tree.Writes.{
  modify_at_id, subtree-cons, subtree-missing, subtree-modify_at, subtree_nil,
}

pub subtree-append :
    (root : Config) (p q : Position) (c : Config)
    → subtree root p ≡ some c
    → subtree root (p ++ q) ≡ subtree c q
subtree-append root p q c s =
    cc (subtree-modify_at root p q c (λ d. d) s, ap (λ r. subtree r (p ++ q)) (modify_at_id p root))

-- A node with the members of another, but for the links.
abbrev pub SameNode : Option Config → Config → Type 0
SameNode o c = (c' : Config) × (o ≡ some c') × (node c' ≡ node c)

child_at-append_some :
    (cs : Children) (d : Config) (k : ℕ) (c : Config)
    → child_at cs k ≡ some c
    → child_at (append_child cs d) k ≡ some c
child_at-append_some nil d k c h = cc
child_at-append_some (cons e cs) d zero c h = h
child_at-append_some (cons e cs) d (suc k) c h = child_at-append_some cs d k c h

-- The child at an index after a write at an index: itself or, at that index, what was written.
child_at-modify_cases :
    (cs : Children) (i k : ℕ) (c : Config) (g : Config → Config)
    → child_at cs k ≡ some c
    → (child_at (modify_child cs i g) k ≡ some c) ⊎ (child_at (modify_child cs i g) k ≡ some (g c))
child_at-modify_cases nil i k c g h = cc
child_at-modify_cases (cons d cs) zero zero c g h = inr (cc)
child_at-modify_cases (cons d cs) zero (suc k) c g h = inl h
child_at-modify_cases (cons d cs) (suc i) zero c g h = inl h
child_at-modify_cases (cons d cs) (suc i) (suc k) c g h = child_at-modify_cases cs i k c g h

pub subtree-step :
    (n : Node) (cs : Children) (k : ℕ) (r : Position) (c : Config)
    → subtree (config n cs) (k ∷ r) ≡ some c
    → (d : Config) × (child_at cs k ≡ some d) × (subtree d r ≡ some c)
subtree-step n cs k r c h = elim (Option-cases (child_at cs k)) [
  | inl missing ↦ cc (subtree-missing n cs k r missing)
  | inr (d, here) ↦ (d, here, sym (subtree-cons n cs k d r here) ∙ h)
]

-- Linking a node anywhere into a tree leaves the members of every node of it.
pub subtree-link :
    (root : Config) (p : Position) (d : Config) (q : Position) (c : Config)
    → subtree root q ≡ some c
    → SameNode (subtree (modify_at root p (link d)) q) c
unfolding modify_at
subtree-link root p d [] c h =
    let same : root ≡ c = unfold subtree in cc in
    (
      modify_at root p (link d),
      subtree_nil (modify_at root p (link d)),
      node-modify_at root p (link d) (node-link d) ∙ ap node same,
    )
subtree-link (config n cs) [] d (k ∷ q) c h =
    let (e, here, below) = subtree-step n cs k q c h in
    (c, subtree-cons n (append_child cs d) k e q (child_at-append_some cs d k e here) ∙ below, refl)
subtree-link (config n cs) (i ∷ p) d (k ∷ q) c h =
    let (e, here, below) = subtree-step n cs k q c h in
    let g = λ (x : Config). modify_at x p (link d) in
    let (c', there, same) = subtree-link e p d q c below in
    elim (child_at-modify_cases cs i k e g here) [
      | inl kept ↦ (c, subtree-cons n (modify_child cs i g) k e q kept ∙ below, refl)
      | inr written ↦ (c', subtree-cons n (modify_child cs i g) k (g e) q written ∙ there, same)
    ]
