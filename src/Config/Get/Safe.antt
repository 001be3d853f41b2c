-- ===== src/Config/Get/Safe.antt =====
-- The paths on which `samconfConfigGet` does not crash, whatever keys lie elsewhere in the tree.
use samconf.Common.{
  List, [], ◌∷◌, ◌++◌, Option, none, some, ◌≡◌, ◌≢◌, refl, sym, ap, ◌∙◌, arith, inl, inr,
  Bool-cases, Option-cases, is_empty,
}
use samconf.Status.{Status, ok, not_found}
use samconf.Text.{Bytes}
use samconf.Path.{segments, create_array}
use samconf.Config.{Config, config, nil, cons, Position, children}
use samconf.Config.Get.{scan_children, walk_segments, samconf_get, config_get}
use samconf.Config.Get.Crash.{samconf_get-some}

-- The scan at each of the segments reads no NULL key.
unfoldable pub Safe : Config → List Bytes → Type 0
Safe c [] = Unit
Safe c (seg ∷ rest) = elim (scan_children seg (children c) 0) [
  | none ↦ ⊥
  | some none ↦ Unit
  | some (some (i, child)) ↦ Safe child rest
]

pub walk_segments-childless :
    (parent : Config) (rest : List Bytes) (at : Position) (st : Status)
    → children parent ≡ nil
    → (r : Status × Option Position) × (walk_segments parent rest at st ≡ some r)
unfolding walk_segments
walk_segments-childless parent [] at st e = ((st, none), refl)
walk_segments-childless (config n nil) (seg ∷ rest) at st e =
    walk_segments-childless (config n nil) rest at not_found refl
walk_segments-childless (config n (cons c cs)) (seg ∷ rest) at st e = cc

Safe-walk_segments :
    (segs : List Bytes) (parent : Config) (at : Position) (st : Status)
    → Safe parent segs
    → (r : Status × Option Position) × (walk_segments parent segs at st ≡ some r)
unfolding walk_segments Safe
Safe-walk_segments [] parent at st h = ((st, none), refl)
Safe-walk_segments (seg ∷ rest) (config n nil) at st h =
    walk_segments-childless (config n nil) rest at not_found refl
Safe-walk_segments (seg ∷ rest) (config n (cons c cs)) at st h =
    elim (Option-cases (scan_children seg (cons c cs) 0)) [
      | inl crashed ↦ absurd (rw (Safe, crashed) at h)
      | inr (none, scanned) ↦ ((not_found, none), rw (walk_segments, scanned) refl)
      | inr (some (i, child), scanned) ↦
          let inner : Safe child rest = rw (Safe, scanned) at h in
          let (r, went) = Safe-walk_segments rest child (at ++ i ∷ []) st inner in
          elim (Bool-cases (is_empty rest)) [
            | inl last ↦ ((ok, some (at ++ i ∷ [])), rw (walk_segments, scanned, last) refl)
            | inr on ↦ (r, rw (walk_segments, scanned, on) went)
          ]
    ]

walk_segments-Safe :
    (segs : List Bytes) (parent : Config) (at : Position) (st : Status)
    (r : Status × Option Position)
    → walk_segments parent segs at st ≡ some r
    → Safe parent segs
unfolding walk_segments Safe scan_children
walk_segments-Safe [] parent at st r h = tt
walk_segments-Safe (seg ∷ rest) (config n nil) at st r h = tt
walk_segments-Safe (seg ∷ []) (config n (cons c cs)) at st r h =
    elim (Option-cases (scan_children seg (cons c cs) 0)) [
      | inl crashed ↦ absurd (ground arith)
      | inr (none, scanned) ↦ rw (Safe, scanned) tt
      | inr (some (i, child), scanned) ↦ rw (Safe, scanned) tt
    ]
walk_segments-Safe (seg ∷ t ∷ rest) (config n (cons c cs)) at st r h =
    elim (Option-cases (scan_children seg (cons c cs) 0)) [
      | inl crashed ↦ absurd (ground arith)
      | inr (none, scanned) ↦ rw (Safe, scanned) tt
      | inr (some (i, child), scanned) ↦
          rw (Safe, scanned)
            (walk_segments-Safe (t ∷ rest) child (at ++ i ∷ []) st r (ground arith))
    ]

pub samconf_get-Safe :
    (root : Config) (path : Bytes) (r : Status × Option Position)
    → segments path ≢ []
    → samconf_get (some root) (some path) ≡ some r
    → Safe root (segments path)
samconf_get-Safe root path r some_segment h = go (segments path) refl root h
  where
    go :
        (segs : List Bytes)
        → segments path ≡ segs
        → (root : Config) → samconf_get (some root) (some path) ≡ some r
        → Safe root segs
    go [] e root h = absurd (some_segment e)
    go (s ∷ ss) e (config n nil) h = unfold Safe scan_children in tt
    go (s ∷ ss) e (config n (cons c cs)) h =
        walk_segments-Safe (s ∷ ss) (config n (cons c cs)) [] ok r
          (unfold samconf_get create_array in rw e at h)

Safe-ends :
    (root : Config) (path : Bytes)
    → Safe root (segments path)
    → (r : Status × Option Position) × (samconf_get (some root) (some path) ≡ some r)
unfolding samconf_get create_array
Safe-ends (config n nil) path h = ((not_found, none), refl)
Safe-ends (config n (cons c cs)) path h =
    Safe-walk_segments (segments path) (config n (cons c cs)) [] ok h

-- A path without a crash is answered as by a search that passes over nodes without a key.
pub Safe-samconf_get :
    (root : Config) (path : Bytes)
    → Safe root (segments path)
    → samconf_get (some root) (some path) ≡ some (config_get (some root) (some path))
Safe-samconf_get root path h =
    let (r, got) = Safe-ends root path h in
    got ∙ ap some (sym (samconf_get-some root (some path) r got))
