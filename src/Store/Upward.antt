-- ===== src/Store/Upward.antt =====
-- `samconfPathGetPath` on pointers, against the path of a position in the tree.
use samconf.Common.{
  ℕ, zero, suc, ◌+◌, ◌<◌, List, [], ◌∷◌, Option, none, some, ◌≡◌, refl, sym, ap, ◌∙◌, inl, inr,
  arith, length, Bool-cases, Option-cases,
}
use samconf.Text.{Bytes, str_eq}
use samconf.Path.{add_to_new_path, root_key, get_path_loop, get_path}
use samconf.Config.{Config, Position, node, children, child_at}
use samconf.Config.Merge.{key_chain, path_of}
use samconf.Store.{Addr, Cell, Store, Walk, walked, crash, store_path_loop, store_get_path}
use samconf.Store.Laid.{
  Laid, laid, Laids, empty, more, address, roots, erase, erase_all, LiesIn, AllLieIn, laid_at,
  laid_in,
}

-- What a walk comes to, for what the keys of the ancestors give.
abbrev pub walk_of : Option Bytes → Walk Bytes
walk_of none = crash
walk_of (some path) = walked path

-- The nodes that `parent` leads through from a pointer on, up to NULL, have these keys.
abbrev LeadsUp : Store → Option Addr → List (Option Bytes) → Type 0
LeadsUp s up [] = up ≡ none
LeadsUp s up (key ∷ keys) =
    (a : Addr) × (cell : Cell) × (up ≡ some a)
    × (s a ≡ some cell)
    × (cell.node.key ≡ key)
    × LeadsUp s cell.parent keys

store_path_loop-get_path_loop :
    (s : Store) (keys : List (Option Bytes)) (fuel : ℕ) (new_path : Bytes) (up : Option Addr)
    → LeadsUp s up keys
    → length keys < fuel
    → store_path_loop fuel s new_path up ≡ walk_of (get_path_loop new_path keys)
unfolding store_path_loop get_path_loop
store_path_loop-get_path_loop s keys zero new_path up h enough = absurd (omega arith)
store_path_loop-get_path_loop s [] (suc fuel) new_path up h enough = rw h refl
store_path_loop-get_path_loop s (none ∷ keys) (suc fuel) new_path up
      (a, cell, is_a, here, key, above) enough =
    rw (is_a, store_path_loop, here, key) refl
store_path_loop-get_path_loop s (some k ∷ keys) (suc fuel) new_path up
      (a, cell, is_a, here, key, above) enough =
    let further =
      store_path_loop-get_path_loop s keys fuel (add_to_new_path new_path k) cell.parent above
        (omega arith) in
    elim (Bool-cases (str_eq k root_key)) [
      | inl top ↦ rw (is_a, store_path_loop, here, key, top) refl
      | inr on ↦ rw (is_a, store_path_loop, here, key, on) further
    ]

-- The node at a position, and what `parent` leads through from it on.
abbrev Found : Store → Laid → Position → List (Option Bytes) → Laid → Type 0
Found s t p ups d =
    (cell : Cell) × (keys : List (Option Bytes)) × (s (address d) ≡ some cell)
    × (key_chain (erase t) p ups ≡ some (cell.node.key, keys))
    × LeadsUp s cell.parent keys
    × (length keys ≡ length p + length ups)

key_chain-step :
    (t : Laid) (i : ℕ) (p : Position) (ups : List (Option Bytes)) (c : Config)
    {found : Option Bytes × List (Option Bytes)}
    → child_at (children (erase t)) i ≡ some c
    → key_chain c p ((node (erase t)).key ∷ ups) ≡ some found
    → key_chain (erase t) (i ∷ p) ups ≡ some found
unfolding key_chain
key_chain-step t i p ups c first rest = rw (key_chain, first) rest

mutual
  unfolding laid_at LiesIn erase key_chain

  laid_at-Found :
      (s : Store) (up : Option Addr) (t d : Laid) (p : Position) (ups : List (Option Bytes))
      → LiesIn s up t
      → LeadsUp s up ups
      → laid_at t p ≡ some d
      → Found s t p ups d
  laid_at-Found s up (laid a n ds) d [] ups (here, below) above at =
      let same : laid a n ds ≡ d = cc in
      (
        record { node = n; parent = up; children = roots ds },
        ups,
        ap s (ap address (sym same)) ∙ here,
        refl,
        above,
        omega arith,
      )
  laid_at-Found s up (laid a n ds) d (i ∷ p) ups (here, below) above at =
      let (e, first, (cell, keys, there, chain, leads, count)) =
        laid_in-Found s (some a) ds d i p (n.key ∷ ups) below (a, _, refl, here, refl, above) at in
      (
        cell,
        keys,
        there,
        key_chain-step (laid a n ds) i p ups (erase e) first chain,
        leads,
        omega arith,
      )

  laid_in-Found :
      (s : Store) (up : Option Addr) (ds : Laids) (d : Laid) (i : ℕ) (p : Position)
      (ups : List (Option Bytes))
      → AllLieIn s up ds
      → LeadsUp s up ups
      → laid_in ds i p ≡ some d
      → (e : Laid) × (child_at (erase_all ds) i ≡ some (erase e)) × Found s e p ups d
  laid_in-Found s up empty d i p ups h above at = cc
  laid_in-Found s up (more e ds) d zero p ups (h, hs) above at =
      (e, refl, laid_at-Found s up e d p ups h above at)
  laid_in-Found s up (more e ds) d (suc i) p ups (h, hs) above at =
      laid_in-Found s up ds d i p ups hs above at

store_get_path-get_path :
    (s : Store) (a : Addr) (cell : Cell) (keys : List (Option Bytes)) (fuel : ℕ)
    → s a ≡ some cell
    → LeadsUp s cell.parent keys
    → length keys < fuel
    → store_get_path fuel s a ≡ walk_of (get_path cell.node.key keys)
unfolding store_get_path get_path
store_get_path-get_path s a cell keys fuel here leads enough = elim (Option-cases cell.node.key) [
  | inl no_key ↦ rw (store_get_path, here, no_key) refl
  | inr (key, named) ↦ elim (Bool-cases (str_eq key root_key)) [
    | inl top ↦ rw (store_get_path, here, named, top) refl
    | inr on ↦
        rw (store_get_path, here, named, on)
          (store_path_loop-get_path_loop s keys fuel (add_to_new_path [] key) cell.parent leads
            enough)
  ]
]

-- From the pointer to a node of a tree that lies in the store with no parent, and with more fuel than the
-- node has ancestors, `samconfPathGetPath` gives the path of the position of that node, and crashes
-- exactly where that path does not exist. In particular its loop ends.
pub store_get_path-path_of :
    (s : Store) (t d : Laid) (p : Position) (fuel : ℕ)
    → LiesIn s none t
    → laid_at t p ≡ some d
    → length p < fuel
    → store_get_path fuel s (address d) ≡ walk_of (path_of (erase t) p)
unfolding path_of
store_get_path-path_of s t d p fuel h at enough =
    let (cell, keys, here, chain, leads, count) = laid_at-Found s none t d p [] h refl at in
    rw (path_of, chain)
      (store_get_path-get_path s (address d) cell keys fuel here leads (omega arith))
