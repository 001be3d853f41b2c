-- ===== src/Config/Get/Crash.antt =====
-- `samconfConfigGet` and its answers where it does not crash.
use samconf.Common.{
  ℕ, ◌+◌, List, [], ◌∷◌, ◌++◌, Option, none, some, ◌≡◌, refl, ap, ◌∙◌, arith, inl, inr, Bool-cases,
  Option-cases, is_empty,
}
use mathlib.Core.Path.{subst}
use samconf.Status.{Status, ok, not_found, is_ok}
use samconf.Text.{Bytes, str_eq}
use samconf.Path.{create_array}
use samconf.Config.{Config, config, Children, nil, cons, Position, node}
use samconf.Config.Get.{scan_children, walk_segments, samconf_get, find_child, get_walk, config_get}

abbrev pub HasKey : Config → Type 0
HasKey c = (k : Bytes) × ((node c).key ≡ some k)

-- Each node below the root has a key.
unfoldable mutual
  pub IsKeyed : Config → Type 0
  IsKeyed (config n cs) = AreKeyed cs

  pub AreKeyed : Children → Type 0
  AreKeyed nil = Unit
  AreKeyed (cons c cs) = HasKey c × IsKeyed c × AreKeyed cs

-- The answer to a scan that does not crash.
scan_children-find_child :
    (seg : Bytes) (cs : Children) (i : ℕ)
    → AreKeyed cs
    → scan_children seg cs i ≡ some (find_child seg cs i)
unfolding scan_children find_child IsKeyed
scan_children-find_child seg nil i h = refl
scan_children-find_child seg (cons c cs) i ((k, key), inner, h) = elim (Bool-cases (str_eq k seg)) [
  | inl hits ↦ rw (scan_children, key, hits) refl
  | inr misses ↦ rw (scan_children, key, misses) (scan_children-find_child seg cs (i + 1) h)
]

pub scan_children-some :
    (seg : Bytes) (cs : Children) (i : ℕ) (hit : Option (ℕ × Config))
    → scan_children seg cs i ≡ some hit
    → find_child seg cs i ≡ hit
unfolding scan_children find_child
scan_children-some seg nil i hit h = cc
scan_children-some seg (cons c cs) i hit h = elim (Option-cases (node c).key) [
  | inl keyless ↦ ground arith
  | inr (k, key) ↦ ground (arith, scan_children-some seg cs (i + 1) hit)
]

-- A child that is found is keyed.
find_child-IsKeyed :
    (seg : Bytes) (cs : Children) (i j : ℕ) (child : Config)
    → AreKeyed cs
    → find_child seg cs i ≡ some (j, child)
    → IsKeyed child
unfolding find_child IsKeyed
find_child-IsKeyed seg nil i j child h found = cc
find_child-IsKeyed seg (cons c cs) i j child ((k, key), inner, h) found =
    elim (Bool-cases (str_eq k seg)) [
      | inl hits ↦ let same : c ≡ child = ground arith in subst IsKeyed same inner
      | inr misses ↦ find_child-IsKeyed seg cs (i + 1) j child h (ground arith)
    ]

-- The answer on a keyed tree is that of a walk that does not crash.
walk_segments-get_walk :
    (segs : List Bytes) (parent : Config) (at : Position) (st : Status)
    → IsKeyed parent
    → walk_segments parent segs at st ≡ some (get_walk parent segs at st)
unfolding walk_segments get_walk IsKeyed
walk_segments-get_walk [] parent at st h = refl
walk_segments-get_walk (seg ∷ rest) (config n nil) at st h =
    walk_segments-get_walk rest (config n nil) at not_found h
walk_segments-get_walk (seg ∷ rest) (config n (cons c cs)) at st h =
    elim (Option-cases (find_child seg (cons c cs) 0)) [
      | inl lost ↦
          let scanned : scan_children seg (cons c cs) 0 ≡ some none =
            scan_children-find_child seg (cons c cs) 0 h ∙ ap some lost in
          rw (walk_segments, scanned, lost) refl
      | inr ((i, child), hit) ↦
          let scanned : scan_children seg (cons c cs) 0 ≡ some (some (i, child)) =
            scan_children-find_child seg (cons c cs) 0 h ∙ ap some hit in
          let keyed = find_child-IsKeyed seg (cons c cs) 0 i child h hit in
          elim (Bool-cases (is_empty rest)) [
            | inl last ↦ rw (walk_segments, scanned, hit, last) refl
            | inr on ↦
                rw (walk_segments, scanned, hit, on)
                  (walk_segments-get_walk rest child (at ++ i ∷ []) st keyed)
          ]
    ]

-- On a tree in which each node below the root has a key `samconfConfigGet` does not crash, and its
-- answer is `config_get`.
pub samconf_get-config_get :
    (root : Config) (path : Option Bytes)
    → IsKeyed root
    → samconf_get (some root) path ≡ some (config_get (some root) path)
unfolding samconf_get config_get
samconf_get-config_get root none h = refl
samconf_get-config_get (config n nil) (some path) h = refl
samconf_get-config_get (config n (cons c cs)) (some path) h =
    let arr = create_array (some path) in
    elim (Bool-cases (is_ok arr.status)) [
      | inl fine ↦
          rw (samconf_get, fine) (walk_segments-get_walk arr.items (config n (cons c cs)) [] ok h)
      | inr bad ↦ rw (samconf_get, bad) refl
    ]

walk_segments-some :
    (segs : List Bytes) (parent : Config) (at : Position) (st : Status)
    (r : Status × Option Position)
    → walk_segments parent segs at st ≡ some r
    → get_walk parent segs at st ≡ r
unfolding walk_segments get_walk
walk_segments-some [] parent at st r h = cc
walk_segments-some (seg ∷ rest) (config n nil) at st r h =
    walk_segments-some rest (config n nil) at not_found r h
walk_segments-some (seg ∷ rest) (config n (cons c cs)) at st r h =
    elim (Option-cases (scan_children seg (cons c cs) 0)) [
      | inl crashed ↦ ground arith
      | inr (none, scanned) ↦
          let lost = scan_children-some seg (cons c cs) 0 none scanned in rw lost (ground arith)
      | inr (some (i, child), scanned) ↦
          let hit = scan_children-some seg (cons c cs) 0 (some (i, child)) scanned in
          elim (Bool-cases (is_empty rest)) [
            | inl last ↦ rw (hit, last) (ground arith)
            | inr on ↦
                rw (hit, on) (walk_segments-some rest child (at ++ i ∷ []) st r (ground arith))
          ]
    ]

-- Wherever it does not crash, its answer is `config_get`.
pub samconf_get-some :
    (root : Config) (path : Option Bytes) (r : Status × Option Position)
    → samconf_get (some root) path ≡ some r
    → config_get (some root) path ≡ r
unfolding samconf_get config_get
samconf_get-some root none r h = cc
samconf_get-some (config n nil) (some path) r h = cc
samconf_get-some (config n (cons c cs)) (some path) r h =
    let arr = create_array (some path) in
    elim (Bool-cases (is_ok arr.status)) [
      | inl fine ↦
          rw fine (walk_segments-some arr.items (config n (cons c cs)) [] ok r (ground arith))
      | inr bad ↦ rw bad (ground arith)
    ]
