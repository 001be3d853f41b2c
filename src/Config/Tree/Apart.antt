-- ===== src/Config/Tree/Apart.antt =====
-- Different paths lead to different positions, and a write at one leaves the node at another.
use samconf.Common.{
  ℕ, zero, suc, true, List, [], ◌∷◌, Option, none, some, ◌≡◌, ◌≢◌, refl, sym, ◌∙◌, ap, inl, inr,
  arith, list_eq_to, Bool-cases, ◌==◌, ==_iff,
}
use samconf.Text.{Bytes}
use samconf.Config.{
  Config, config, Children, nil, cons, Position, node, children, child_at, subtree, modify_child,
  modify_at,
}
use samconf.Config.Get.{key_is}
use samconf.Config.Get.Resolve.{resolve}
use samconf.Config.Tree.Children.{find_child-child_at}
use samconf.Config.Tree.Values.{KeepsShape}
use samconf.Config.Tree.Nodes.{SameNode, subtree-step}
use samconf.Config.Tree.Writes.{
  resolve-step, resolve_nil, child_at-modify, subtree-cons, subtree_nil,
}

key_is_to : (key : Option Bytes) (seg : Bytes) → key_is key seg ≡ true → key ≡ some seg
key_is_to none seg h = ground arith
key_is_to (some k) seg h = ap some (list_eq_to k seg h)

-- A position is that of one path only.
pub resolve-injective :
    (c : Config) (ss ts : List Bytes) (p : Position)
    → resolve c ss ≡ some p
    → resolve c ts ≡ some p
    → ss ≡ ts
resolve-injective c [] [] p h g = refl
resolve-injective c [] (t ∷ ts) p h g =
    let (k, d, r, hit, deep, e) = resolve-step t c ts p g in cc (resolve_nil c)
resolve-injective c (s ∷ ss) [] p h g =
    let (k, d, r, hit, deep, e) = resolve-step s c ss p h in cc (resolve_nil c)
resolve-injective c (s ∷ ss) (t ∷ ts) p h g =
    let (k, d, r, hit, deep, e) = resolve-step s c ss p h in
    let (k', d', r', hit', deep', e') = resolve-step t c ts p g in
    let (here, is_s) = find_child-child_at s (children c) k d hit in
    let (here', is_t) = find_child-child_at t (children c) k' d' hit' in
    let key_s = key_is_to (node d).key s is_s in
    let key_t = key_is_to (node d').key t is_t in
    let same_k : k ≡ k' = cc in
    let same_r : r ≡ r' = cc in
    let same_d : d ≡ d' = cc (ap (child_at (children c)) same_k) in
    let same_s : s ≡ t = cc (ap (λ (x : Config). (node x).key) same_d) in
    let there : resolve d ts ≡ some r =
      ap (λ x. resolve x ts) same_d ∙ deep' ∙ ap some (sym same_r) in
    cc (resolve-injective d ss ts r deep there)

child_at-modify_other :
    (cs : Children) (i k : ℕ) (g : Config → Config)
    → i ≢ k
    → child_at (modify_child cs i g) k ≡ child_at cs k
child_at-modify_other nil i k g h = refl
child_at-modify_other (cons d cs) zero zero g h = absurd (h refl)
child_at-modify_other (cons d cs) zero (suc k) g h = refl
child_at-modify_other (cons d cs) (suc i) zero g h = refl
child_at-modify_other (cons d cs) (suc i) (suc k) g h =
    child_at-modify_other cs i k g (λ e. h (ap suc e))

same_below :
    (c d : Config) (k : ℕ) (q : Position)
    → children d ≡ children c
    → subtree d (k ∷ q) ≡ subtree c (k ∷ q)
unfolding subtree
same_below c d k q h = rw (subtree, h)

-- A write at a position, of what keeps the children of a node, leaves the members of a node at another.
pub subtree-modify_other :
    (root : Config) (p q : Position) (c : Config) (f : Config → Config)
    → KeepsShape f
    → subtree root q ≡ some c
    → p ≢ q
    → SameNode (subtree (modify_at root p f) q) c
unfolding modify_at
subtree-modify_other root [] [] c f keep h apart = absurd (apart refl)
subtree-modify_other root [] (k ∷ q) c f keep h apart =
    (c, same_below root (f root) k q (keep root).1 ∙ h, refl)
subtree-modify_other (config n cs) (i ∷ p) [] c f keep h apart =
    let same : config n cs ≡ c = unfold subtree in cc in
    let out : Config = config n (modify_child cs i (λ x. modify_at x p f)) in
    (out, subtree_nil out, ap node same)
subtree-modify_other (config n cs) (i ∷ p) (k ∷ q) c f keep h apart =
    let (d, here, below) = subtree-step n cs k q c h in
    let g = λ (x : Config). modify_at x p f in
    elim (Bool-cases (i == k)) [
      | inl hit ↦
          let same = (==_iff i k).0 hit in
          let (c', there, members) = subtree-modify_other d p q c f keep below (λ e. apart (cc)) in
          let written : child_at (modify_child cs i g) k ≡ some (g d) =
            ap (λ j. child_at (modify_child cs j g) k) same ∙ child_at-modify cs k d g here in
          (c', subtree-cons n (modify_child cs i g) k (g d) q written ∙ there, members)
      | inr miss ↦
          let other : i ≢ k = λ e. cc ((==_iff i k).1 e) in
          let kept = child_at-modify_other cs i k g other ∙ here in
          (c, subtree-cons n (modify_child cs i g) k d q kept ∙ below, refl)
    ]
