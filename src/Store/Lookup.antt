-- ===== src/Store/Lookup.antt =====
-- `samconfConfigGet` on pointers, against that on positions.
use samconf.Common.{
  ℕ, ◌+◌, List, [], ◌∷◌, ◌++◌, Option, none, some, ◌≡◌, refl, inl, inr, Bool-cases, if◌then◌else◌,
  is_empty,
}
use samconf.Status.{Status, ok, not_found, is_ok}
use samconf.Text.{Bytes, str_eq}
use samconf.Path.{create_array}
use samconf.Config.{Config, Position}
use samconf.Config.Get.{find_child, get_walk, samconf_get, config_get}
use samconf.Config.Get.Crash.{IsKeyed, AreKeyed, samconf_get-config_get}
use samconf.Store.{Addr, Store, Walk, walked, store_find_child, store_get_walk, store_get}
use samconf.Store.Laid.{
  Laid, laid, Laids, empty, more, address, roots, erase, erase_all, LiesIn, AllLieIn, laid_at,
}
use samconf.Store.Positions.{
  pointer_to, Stands, StandAt, StandAt-children, StandAt-head, StandAt-tail,
}

abbrev pub HasKey : Laid → Type 0
HasKey (laid a n ds) = (k : Bytes) × (n.key ≡ some k)

-- Each node below the root has a key.
unfoldable mutual
  pub IsNamed : Laid → Type 0
  IsNamed (laid a n ds) = AreNamed ds

  pub AreNamed : Laids → Type 0
  AreNamed empty = Unit
  AreNamed (more d ds) = HasKey d × IsNamed d × AreNamed ds

-- The tree without addresses has the same keys.
mutual
  unfolding IsNamed IsKeyed erase

  erase-IsKeyed : (t : Laid) → IsNamed t → IsKeyed (erase t)
  erase-IsKeyed (laid a n ds) h = erase_all-AreKeyed ds h

  erase_all-AreKeyed : (ds : Laids) → AreNamed ds → AreKeyed (erase_all ds)
  erase_all-AreKeyed empty h = tt
  erase_all-AreKeyed (more (laid a n es) ds) (key, inner, h) =
      (key, erase-IsKeyed (laid a n es) inner, erase_all-AreKeyed ds h)

-- A hit among the children of a node of the tree `t` that stands at a position.
abbrev IsHit : Store → Laid → Position → ℕ → Laid → Type 0
IsHit s t at j e =
    (laid_at t (at ++ j ∷ []) ≡ some e) × ((up : Option Addr) × LiesIn s up e) × IsNamed e

abbrev address_hit : Option (ℕ × Laid) → Option Addr
address_hit none = none
address_hit (some (j, e)) = some (address e)

abbrev erase_hit : Option (ℕ × Laid) → Option (ℕ × Config)
erase_hit none = none
erase_hit (some (j, e)) = some (j, erase e)

abbrev AreHits : Store → Laid → Position → Option (ℕ × Laid) → Type 0
AreHits s t at none = Unit
AreHits s t at (some (j, e)) = IsHit s t at j e

store_find_child-hit :
    (s : Store) (t : Laid) (at : Position) (ds : Laids) (up : Option Addr) (i : ℕ) (seg : Bytes)
    → AllLieIn s up ds
    → AreNamed ds
    → StandAt t at i ds
    → (hit : Option (ℕ × Laid)) × (store_find_child s seg (roots ds) ≡ walked (address_hit hit))
      × (find_child seg (erase_all ds) i ≡ erase_hit hit)
      × AreHits s t at hit
unfolding store_find_child find_child LiesIn IsNamed erase
store_find_child-hit s t at empty up i seg h named stand = (none, refl, refl, tt)
store_find_child-hit s t at (more (laid a n es) ds) up i seg ((here, below), h)
      ((k, key), inner, named) stand =
    elim (Bool-cases (str_eq k seg)) [
      | inl hits ↦ (
        some (i, laid a n es),
        rw (here, key, hits) refl,
        rw (key, hits) refl,
        (StandAt-head t (laid a n es) at i ds stand, (up, (here, below)), inner),
      )
      | inr misses ↦
          let (hit, ran, found, stands) =
            store_find_child-hit s t at ds up (i + 1) seg h named
              (StandAt-tail t (laid a n es) at i ds stand) in
          (hit, rw (here, key, misses) ran, rw (key, misses) found, stands)
    ]

-- An answer with a pointer is that with a position of the tree.
abbrev Answers : Laid → Walk (Status × Option Addr) → Status × Option Position → Type 0
Answers t w r = (w ≡ walked (r.0, pointer_to t r.1)) × Stands t r.1

module _ (s : Store) (t : Laid) where
  -- What is made of a hit among the children.
  store_get_walk-hit :
      (hit : Option (ℕ × Laid)) (at : Position) (rest : List Bytes) (st : Status)
      → AreHits s t at hit
      → ((e : Laid) (j : ℕ)
          → IsHit s t at j e
          → Answers t
              (store_get_walk s (address e) rest st)
              (get_walk (erase e) rest (at ++ j ∷ []) st))
      → Answers t
          (elim (address_hit hit) [
            | none ↦ walked (not_found, none)
            | some child ↦
                if is_empty rest then walked (ok, some child) else store_get_walk s child rest st
          ])
          (elim (erase_hit hit) [
            | none ↦ (not_found, none)
            | some (i, child) ↦
                if is_empty rest
                then (ok, some (at ++ i ∷ []))
                else get_walk child rest (at ++ i ∷ []) st
          ])
  store_get_walk-hit none at rest st h deeper = (refl, tt)
  store_get_walk-hit (some (j, e)) at [] st (there, lies, inner) deeper =
      (rw there refl, (e, there))
  store_get_walk-hit (some (j, e)) at (seg ∷ rest) st h deeper = deeper e j h

  store_get_walk-Answers :
      (segs : List Bytes) (e : Laid) (at : Position) (up : Option Addr) (st : Status)
      → laid_at t at ≡ some e
      → LiesIn s up e
      → IsNamed e
      → Answers t (store_get_walk s (address e) segs st) (get_walk (erase e) segs at st)
  unfolding store_get_walk get_walk LiesIn IsNamed erase
  store_get_walk-Answers [] e at up st there h named = (refl, tt)
  store_get_walk-Answers (seg ∷ rest) (laid a n empty) at up st there (here, below) named =
      rw (store_get_walk, here)
        (store_get_walk-Answers rest (laid a n empty) at up not_found there (here, below) named)
  store_get_walk-Answers (seg ∷ rest) (laid a n (more c cs)) at up st there (here, below) named =
      let (hit, ran, found, stands) =
        store_find_child-hit s t at (more c cs) (some a) 0 seg below named
          (StandAt-children t a n (more c cs) at there) in
      let made = store_get_walk-hit hit at rest st stands (λ e j (is_there, (up', lies), inner).
        store_get_walk-Answers rest e (at ++ j ∷ []) up' st is_there lies inner) in
      rw (store_get_walk, here, ran, found) made

answered_on_pointers :
    (s : Store) (up : Option Addr) (t : Laid) (path : Option Bytes)
    → LiesIn s up t
    → IsNamed t
    → (store_get s (some (address t)) path
        ≡ walked (
          (config_get (some (erase t)) path).0,
          pointer_to t (config_get (some (erase t)) path).1,
        ))
      × Stands t (config_get (some (erase t)) path).1
unfolding store_get config_get LiesIn erase laid_at
answered_on_pointers s up t none h named = (refl, tt)
answered_on_pointers s up (laid a n empty) (some path) (here, below) named =
    (rw (store_get, here) refl, tt)
answered_on_pointers s up (laid a n (more c cs)) (some path) (here, below) named =
    let arr = create_array (some path) in
    let walk =
      store_get_walk-Answers s (laid a n (more c cs)) arr.items (laid a n (more c cs)) [] up ok refl
        (here, below) named in
    elim (Bool-cases (is_ok arr.status)) [
      | inl fine ↦ rw (store_get, here, fine) walk
      | inr bad ↦ rw (store_get, here, bad) (refl, tt)
    ]

-- From the pointer to a tree that lies in the store and in which each node below the root has a
-- key, `samconfConfigGet` never crashes, on pointers or on positions, answers what it answers on
-- positions, and stores the pointer to the node at the position that it gives, which is one of the
-- tree, or nothing where it gives none.
pub store_get-config_get :
    (s : Store) (up : Option Addr) (t : Laid) (path : Option Bytes)
    → LiesIn s up t
    → IsNamed t
    → (store_get s (some (address t)) path
        ≡ walked (
          (config_get (some (erase t)) path).0,
          pointer_to t (config_get (some (erase t)) path).1,
        ))
      × Stands t (config_get (some (erase t)) path).1
      × (samconf_get (some (erase t)) path ≡ some (config_get (some (erase t)) path))
store_get-config_get s up t path h named =
    let (got, stands) = answered_on_pointers s up t path h named in
    (got, stands, samconf_get-config_get (erase t) path (erase-IsKeyed t named))
