-- ===== src/Config/Insert/Safe.antt =====
-- What linking a node does to the paths on which `samconfConfigGet` does not crash.
use samconf.Common.{
  ℕ, zero, suc, ◌+◌, true, List, [], ◌∷◌, ◌++◌, length-append, Option, none, some, ◌≡◌, refl, sym,
  ap, ◌∙◌, arith, inl, inr, Bool-cases, Option-cases, length, if◌then◌else◌, ◌==◌,
}
use samconf.Text.{Bytes, str_eq}
use samconf.Config.{
  Node, Config, config, Children, nil, cons, Position, node, append_child, modify_child, link,
  modify_at, child_count,
}
use samconf.Config.Insert.{object_node}
use samconf.Config.Get.{scan_children, key_is}
use samconf.Config.Get.Resolve.{resolve}
use samconf.Config.Get.Crash.{HasKey, scan_children-some}
use samconf.Config.Get.Safe.{Safe}
use samconf.Config.Tree.{
  resolve_nil, resolve-step, node-modify_at, node-link, find_child-modify, find_child-modify_none,
}

-- A scan that found a child finds it in front of one more, and one that found none finds at most
-- the new one.
scan-append_hit :
    (seg : Bytes) (cs : Children) (i j : ℕ) (c child : Config)
    → scan_children seg cs i ≡ some (some (j, c))
    → scan_children seg (append_child cs child) i ≡ some (some (j, c))
unfolding scan_children
scan-append_hit seg nil i j c child h = cc
scan-append_hit seg (cons d cs) i j c child h = elim (Option-cases (node d).key) [
  | inl keyless ↦ ground arith
  | inr (k, key) ↦ ground (arith, scan-append_hit seg cs (i + 1) j c child)
]

scan-append_miss :
    (seg : Bytes) (cs : Children) (i : ℕ) (k : Bytes) (child : Config)
    → (node child).key ≡ some k
    → scan_children seg cs i ≡ some none
    → scan_children seg (append_child cs child) i
      ≡ some (if str_eq k seg then some (i + child_count cs, child) else none)
unfolding scan_children
scan-append_miss seg nil i k child key h = ground arith
scan-append_miss seg (cons d cs) i k child key h = elim (Option-cases (node d).key) [
  | inl keyless ↦ ground arith
  | inr (l, is) ↦ ground (arith, scan-append_miss seg cs (i + 1) k child key)
]

scan-modify :
    (seg : Bytes) (cs : Children) (i j : ℕ) (g : Config → Config)
    → ((d : Config) → node (g d) ≡ node d)
    → (hit : Option (ℕ × Config)) → scan_children seg cs i ≡ some hit
    → (hit' : Option (ℕ × Config)) × (scan_children seg (modify_child cs j g) i ≡ some hit')
unfolding scan_children
scan-modify seg nil i j g keep hit h = (none, refl)
scan-modify seg (cons d cs) i zero g keep hit h = elim (Option-cases (node d).key) [
  | inl keyless ↦ absurd (ground arith)
  | inr (k, key) ↦
      let key' : (node (g d)).key ≡ some k = ap (λ (n : Node). n.key) (keep d) ∙ key in
      elim (Bool-cases (str_eq k seg)) [
        | inl hits ↦ (some (i, g d), rw (scan_children, key', hits) refl)
        | inr misses ↦ (hit, rw (scan_children, key', misses) (ground arith))
      ]
]
scan-modify seg (cons d cs) i (suc j) g keep hit h = elim (Option-cases (node d).key) [
  | inl keyless ↦ absurd (ground arith)
  | inr (k, key) ↦ elim (Bool-cases (str_eq k seg)) [
    | inl hits ↦ (some (i, d), rw (scan_children, key, hits) refl)
    | inr misses ↦
        let (hit', ran) = scan-modify seg cs (i + 1) j g keep hit (ground arith) in
        (hit', rw (scan_children, key, misses) ran)
  ]
]

-- A child is linked below the node at a position. A path without a crash stays one, if the child is
-- on no path with one that would come to it.
pub Safe-linked :
    (segs : List Bytes) (root : Config) (p : Position) (child : Config)
    → HasKey child
    → ((ss : List Bytes) → length segs ≡ suc (length p) + length ss → Safe child ss)
    → Safe root segs
    → Safe (modify_at root p (link child)) segs
unfolding Safe modify_at
Safe-linked [] root p child key below h = tt
Safe-linked (seg ∷ rest) (config n cs) [] child (k, key) below h =
    elim (Option-cases (scan_children seg cs 0)) [
      | inl crashed ↦ absurd (rw (Safe, crashed) at h)
      | inr (none, scanned) ↦
          let now = scan-append_miss seg cs 0 k child key scanned in
          elim (Bool-cases (str_eq k seg)) [
            | inl hits ↦
                let found : scan_children seg (append_child cs child) 0
                    ≡ some (some (0 + child_count cs, child)) =
                  now ∙ rw hits refl in
                rw (Safe, found) (below rest (omega arith))
            | inr misses ↦
                let lost : scan_children seg (append_child cs child) 0 ≡ some none =
                  now ∙ rw misses refl in
                rw (Safe, lost) tt
          ]
      | inr (some (j, c), scanned) ↦
          rw (Safe, scan-append_hit seg cs 0 j c child scanned) (rw (Safe, scanned) at h)
    ]
Safe-linked (seg ∷ rest) (config n cs) (i ∷ p) child key below h =
    let g = λ (d : Config). modify_at d p (link child) in
    let keep = λ (d : Config). node-modify_at d p (link child) (node-link child) in
    elim (Option-cases (scan_children seg cs 0)) [
      | inl crashed ↦ absurd (rw (Safe, crashed) at h)
      | inr (none, scanned) ↦
          let (hit', ran) = scan-modify seg cs 0 i g keep none scanned in
          let is : hit' ≡ none =
            sym (scan_children-some seg (modify_child cs i g) 0 hit' ran)
            ∙ find_child-modify_none seg cs 0 i g (λ d. ap (λ (m : Node). m.key) (keep d))
                (scan_children-some seg cs 0 none scanned) in
          rw (Safe, ran, is) tt
      | inr (some (j, c), scanned) ↦
          let (hit', ran) = scan-modify seg cs 0 i g keep (some (j, c)) scanned in
          let is : hit' ≡ some (j, if j == 0 + i then g c else c) =
            sym (scan_children-some seg (modify_child cs i g) 0 hit' ran)
            ∙ find_child-modify seg cs 0 i j c g keep
                (scan_children-some seg cs 0 (some (j, c)) scanned) in
          let inner : Safe c rest = rw (Safe, scanned) at h in
          rw (Safe, ran, is)
            (elim (Bool-cases (j == 0 + i)) [
              | inl here ↦
                  rw here (Safe-linked rest c p child key (λ ss e. below ss (omega arith)) inner)
              | inr there ↦ rw there inner
            ])
    ]

pub key_is-HasKey : (c : Config) (seg : Bytes) → key_is (node c).key seg ≡ true → HasKey c
key_is-HasKey c seg h = elim (Option-cases (node c).key) [
  | inl keyless ↦ cc
  | inr (k, key) ↦ (k, key)
]

pub Safe-object_node : (seg : Bytes) (ss : List Bytes) → Safe (object_node seg) ss
unfolding Safe scan_children
Safe-object_node seg [] = tt
Safe-object_node seg (s ∷ ss) = tt

-- A position is as long as the segments that lead to it.
length-resolve :
    (segs : List Bytes) (c : Config) (p : Position)
    → resolve c segs ≡ some p
    → length p ≡ length segs
length-resolve [] c p h = let same : [] ≡ p = cc (resolve_nil c) in rw (sym same) refl
length-resolve (seg ∷ rest) c p h =
    let (j, d, r, hit, deep, is) = resolve-step seg c rest p h in
    rw is (ap suc (length-resolve rest d r deep))

-- No path goes on below the node that the last segment links.
pub last_segment :
    (items seen : List Bytes) (seg : Bytes) (root : Config) (parent : Position) (conf : Config)
    → items ≡ seen ++ seg ∷ []
    → resolve root seen ≡ some parent
    → (ss : List Bytes) → length items ≡ suc (length parent) + length ss
    → Safe conf ss
unfolding Safe
last_segment items seen seg root parent conf e led [] n = tt
last_segment items seen seg root parent conf e led (s ∷ ss) n = absurd (
    omega
      (arith, length-resolve seen root parent led, ap length e, length-append seen (seg ∷ []), n))
