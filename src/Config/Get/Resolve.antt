-- ===== src/Config/Get/Resolve.antt =====
-- `samconfConfigGet` against a description by recursion: from each node, the first child with the key.
use samconf.Common.{
  ℕ, true, false, List, [], ◌∷◌, ◌++◌, Option, none, some, ◌≡◌, ◌≢◌, refl, ap, ◌∙◌, append_assoc,
  append-nil, inl, inr, Option-cases, is_empty, if◌then◌else◌,
}
use samconf.Status.{Status, ok, not_found}
use samconf.Text.{Bytes}
use samconf.Path.{segments, create_array}
use samconf.Config.{Config, config, nil, cons, Position, children, has_children}
use samconf.Config.Get.Crash.{IsKeyed, samconf_get-config_get}
use samconf.Config.Get.{
  find_child, walk_segments, samconf_get, get_walk, config_get, get_typed, get_bool, get_int32,
  get_real,
}

-- A position in the tree of a node that stands at p.
abbrev pub under : Position → Option Position → Option Position
under p none = none
under p (some q) = some (p ++ q)

-- The position that the segments lead to.
unfoldable pub resolve : Config → List Bytes → Option Position
resolve c [] = some []
resolve c (seg ∷ rest) = elim (find_child seg (children c) 0) [
  | none ↦ none
  | some (i, child) ↦ under (i ∷ []) (resolve child rest)
]

-- The answer of `samconfConfigGet` for what the segments lead to.
abbrev pub answer : Option Position → Status × Option Position
answer none = (not_found, none)
answer (some p) = (ok, some p)

pub answer-none : (o : Option Position) → answer o ≡ (not_found, none) → o ≡ none
answer-none none h = refl
answer-none (some p) h = cc

pub answer-some : (o : Option Position) (p : Position) → answer o ≡ (ok, some p) → o ≡ some p
answer-some none p h = cc
answer-some (some q) p h = cc

get_walk-childless :
    (parent : Config) (rest : List Bytes) (at : Position)
    → has_children parent ≡ false
    → get_walk parent rest at not_found ≡ (not_found, none)
unfolding get_walk
get_walk-childless parent [] at h = refl
get_walk-childless parent (seg ∷ rest) at h = rw h (get_walk-childless parent rest at h)

pub under-under : (p q : Position) (o : Option Position) → under p (under q o) ≡ under (p ++ q) o
under-under p q none = refl
under-under p q (some r) = rw append_assoc

-- One more segment, at a node with children.
walk_scan :
    (parent : Config) (seg : Bytes) (rest : List Bytes) (at : Position) (st : Status)
    → has_children parent ≡ true
    → ((child : Config) (at' : Position)
        → rest ≢ []
        → get_walk child rest at' st ≡ answer (under at' (resolve child rest)))
    → get_walk parent (seg ∷ rest) at st ≡ answer (under at (resolve parent (seg ∷ rest)))
unfolding get_walk resolve
walk_scan parent seg rest at st h ih = elim (Option-cases (find_child seg (children parent) 0)) [
  | inl missing ↦ rw (h, missing, resolve)
  | inr ((i, child), hit) ↦ rw (h, hit, resolve, under-under) (go rest child i ih)
]
  where
    go :
        (rest : List Bytes) (child : Config) (i : ℕ)
        → ((d : Config) (at' : Position)
            → rest ≢ []
            → get_walk d rest at' st ≡ answer (under at' (resolve d rest)))
        → (if is_empty rest
            then (ok, some (at ++ i ∷ []))
            else get_walk child rest (at ++ i ∷ []) st)
          ≡ answer (under (at ++ i ∷ []) (resolve child rest))
    go [] child i ih = rw append-nil
    go (s ∷ ss) child i ih = ih child (at ++ i ∷ []) (λ e. cc)

get_walk-resolve :
    (parent : Config) (seg : Bytes) (rest : List Bytes) (at : Position) (st : Status)
    → get_walk parent (seg ∷ rest) at st ≡ answer (under at (resolve parent (seg ∷ rest)))
get_walk-resolve (config n nil) seg rest at st =
    unfold get_walk resolve find_child in get_walk-childless (config n nil) rest at refl
get_walk-resolve (config n (cons c cs)) seg [] at st =
    walk_scan (config n (cons c cs)) seg [] at st refl (λ d at' h. absurd (h refl))
get_walk-resolve (config n (cons c cs)) seg (s ∷ ss) at st =
    walk_scan (config n (cons c cs)) seg (s ∷ ss) at st refl
      (λ d at' h. get_walk-resolve d s ss at' st)

pub under-nil : (o : Option Position) → under [] o ≡ o
under-nil none = refl
under-nil (some p) = refl

pub resolve-childless :
    (c : Config) (segs : List Bytes) → has_children c ≡ false → segs ≢ [] → resolve c segs ≡ none
unfolding resolve find_child
resolve-childless c [] h k = absurd (k refl)
resolve-childless (config n nil) (s ∷ ss) h k = refl
resolve-childless (config n (cons c cs)) (s ∷ ss) h k = cc

pub config_get-resolve :
    (root : Config) (path : Bytes)
    → segments path ≢ []
    → config_get (some root) (some path) ≡ answer (resolve root (segments path))
config_get-resolve root path h = go (segments path) refl root
  where
    go :
        (segs : List Bytes)
        → segments path ≡ segs
        → (root : Config) → config_get (some root) (some path) ≡ answer (resolve root segs)
    go [] e root = absurd (h e)
    go (s ∷ ss) e (config n nil) =
        rw (resolve-childless (config n nil) (s ∷ ss) refl (λ q. cc)) (unfold config_get in refl)
    go (s ∷ ss) e (config n (cons c cs)) =
        unfold config_get create_array in
        rw e (
          cc (
            get_walk-resolve (config n (cons c cs)) s ss [] ok,
            under-nil (resolve (config n (cons c cs)) (s ∷ ss)),
          ))

-- On a tree in which each node below the root has a key, and on a path with a segment,
-- `samconfConfigGet` does not crash and answers as the description does: OK and the node that the
-- segments lead to, taking at each level the first child with the key, or NOT_FOUND and nothing.
pub samconf_get-resolve :
    (root : Config) (path : Bytes)
    → IsKeyed root
    → segments path ≢ []
    → samconf_get (some root) (some path) ≡ some (answer (resolve root (segments path)))
samconf_get-resolve root path keyed h =
    samconf_get-config_get root (some path) keyed ∙ ap some (config_get-resolve root path h)

-- A path without a segment, such as "" or "/", on a root with children makes `samconfConfigGet` answer
-- OK and store nothing, and the getters for truth values, int32 and real numbers dereference NULL.
pub get_typed_faults :
    (root : Config) (path : Bytes)
    → segments path ≡ []
    → has_children root ≡ true
    → (samconf_get (some root) (some path) ≡ some (ok, none))
      × (get_bool (some root) (some path) ≡ none)
      × (get_int32 (some root) (some path) ≡ none)
      × (get_real (some root) (some path) ≡ none)
unfolding samconf_get create_array get_bool get_int32 get_real get_typed walk_segments
get_typed_faults root path e h =
    let got : samconf_get (some root) (some path) ≡ some (ok, none) = rw (h, e) refl in
    (got, rw (get_typed, got) refl, rw (get_typed, got) refl, rw (get_typed, got) refl)
