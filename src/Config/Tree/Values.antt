-- ===== src/Config/Tree/Values.antt =====
-- Writes of values into a tree.
use samconf.Common.{
  ℕ, zero, suc, ◌+◌, List, [], ◌∷◌, some, ◌≡◌, refl, sym, ap, ◌∙◌, inl, inr, Option-cases,
  Bool-cases, if◌then◌else◌, ◌==◌,
}
use samconf.Text.{Bytes}
use samconf.Config.{
  Config, config, Children, nil, cons, Position, node, children, child_at, subtree, modify_child,
  modify_at,
}
use samconf.Config.Get.{find_child}
use samconf.Config.Get.Resolve.{resolve, under}
use samconf.Config.Tree.Children.{find_child-modify_key, find_child-modify_none}
use samconf.Config.Tree.Writes.{resolve-hit, resolve-miss, subtree-cons, subtree-missing}

-- The function changes neither the key of a node nor its children.
abbrev pub KeepsShape : (Config → Config) → Type 0
KeepsShape f = (d : Config) → ((node (f d)).key ≡ (node d).key) × (children (f d) ≡ children d)

key-modify_at :
    (c : Config) (p : Position) (f : Config → Config)
    → KeepsShape f
    → (node (modify_at c p f)).key ≡ (node c).key
unfolding modify_at
key-modify_at c [] f keep = (keep c).0
key-modify_at (config n cs) (i ∷ p) f keep = refl

resolve-same_children :
    (c d : Config) (segs : List Bytes) → children c ≡ children d → resolve c segs ≡ resolve d segs
unfolding resolve
resolve-same_children c d [] h = refl
resolve-same_children c d (seg ∷ segs) h = rw (resolve, h)

-- Such a write leaves what every path leads to.
pub resolve-shape :
    (root : Config) (p : Position) (f : Config → Config) (segs : List Bytes)
    → KeepsShape f
    → resolve (modify_at root p f) segs ≡ resolve root segs
unfolding modify_at
resolve-shape root p f [] keep = unfold resolve in refl
resolve-shape root [] f (seg ∷ segs) keep =
    resolve-same_children (f root) root (seg ∷ segs) (keep root).1
resolve-shape (config n cs) (i ∷ p) f (seg ∷ segs) keep =
    let g = λ (x : Config). modify_at x p f in
    let keys : (x : Config) → (node (g x)).key ≡ (node x).key = λ x. key-modify_at x p f keep in
    let out : Config = config n (modify_child cs i g) in
    elim (Option-cases (find_child seg cs 0)) [
      | inl missing ↦
          resolve-miss seg out segs (find_child-modify_none seg cs 0 i g keys missing)
          ∙ sym (resolve-miss seg (config n cs) segs missing)
      | inr ((k, c), hit) ↦
          let below : resolve (if k == 0 + i then g c else c) segs ≡ resolve c segs =
            elim (Bool-cases (k == 0 + i)) [
              | inl same ↦ rw same (resolve-shape c p f segs keep)
              | inr other ↦ rw other
            ] in
          resolve-hit seg out (if k == 0 + i then g c else c) k segs
            (find_child-modify_key seg cs 0 i k c g keys hit)
          ∙ ap (under (k ∷ [])) below
          ∙ sym (resolve-hit seg (config n cs) c k segs hit)
    ]

modify_child-same :
    (cs : Children) (k : ℕ) (d : Config) (f g : Config → Config)
    → child_at cs k ≡ some d
    → f d ≡ g d
    → modify_child cs k f ≡ modify_child cs k g
modify_child-same nil k d f g h e = refl
modify_child-same (cons c cs) zero d f g h e =
    let same : c ≡ d = cc in ap (λ x. cons x cs) (ap f same ∙ e ∙ sym (ap g same))
modify_child-same (cons c cs) (suc k) d f g h e = ap (cons c) (modify_child-same cs k d f g h e)

-- Two functions that agree on the node at a position write the same there.
pub modify_at-same :
    (root : Config) (p : Position) (c : Config) (f g : Config → Config)
    → subtree root p ≡ some c
    → f c ≡ g c
    → modify_at root p f ≡ modify_at root p g
unfolding modify_at
modify_at-same root [] c f g h e =
    let same : root ≡ c = unfold subtree in cc in ap f same ∙ e ∙ sym (ap g same)
modify_at-same (config n cs) (k ∷ p) c f g h e = elim (Option-cases (child_at cs k)) [
  | inl missing ↦ cc (subtree-missing n cs k p missing)
  | inr (d, here) ↦
      let below : subtree d p ≡ some c = cc (subtree-cons n cs k d p here) in
      ap (config n) (
        modify_child-same cs k d (λ x. modify_at x p f) (λ x. modify_at x p g) here
          (modify_at-same d p c f g below e))
]
