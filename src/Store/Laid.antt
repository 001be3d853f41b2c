-- ===== src/Store/Laid.antt =====
-- Trees that lie in a store: a tree with the address of each node.
use samconf.Common.{ℕ, zero, suc, List, [], ◌∷◌, Option, none, some, ◌≡◌, ◌⊎◌}
use samconf.Config.{Node, Config, config, Children, nil, cons, Position}
use samconf.Store.{Addr, Store}

mutual
  pub data Laid : Type 0 where
    laid : Addr → Node → Laids → Laid

  pub data Laids : Type 0 where
    empty : Laids
    more : Laid → Laids → Laids

abbrev pub address : Laid → Addr
address (laid a n ds) = a

-- The addresses of the children, as `children` lists them.
abbrev pub roots : Laids → List Addr
roots empty = []
roots (more d ds) = address d ∷ roots ds

-- The tree without its addresses.
unfoldable mutual
  pub erase : Laid → Config
  erase (laid a n ds) = config n (erase_all ds)

  pub erase_all : Laids → Children
  erase_all empty = nil
  erase_all (more d ds) = cons (erase d) (erase_all ds)

-- The tree lies in the store: each node with its members, with `parent` pointing to the node above it, and
-- `children` to those below it.
unfoldable mutual
  pub LiesIn : Store → Option Addr → Laid → Type 0
  LiesIn s up (laid a n ds) =
      (s a ≡ some (record { node = n; parent = up; children = roots ds })) × AllLieIn s (some a) ds

  pub AllLieIn : Store → Option Addr → Laids → Type 0
  AllLieIn s up empty = Unit
  AllLieIn s up (more d ds) = LiesIn s up d × AllLieIn s up ds

-- The address is that of a node of the tree.
unfoldable mutual
  pub IsAddress : Addr → Laid → Type 0
  IsAddress x (laid a n ds) = (x ≡ a) ⊎ IsAddressIn x ds

  pub IsAddressIn : Addr → Laids → Type 0
  IsAddressIn x empty = ⊥
  IsAddressIn x (more d ds) = IsAddress x d ⊎ IsAddressIn x ds

-- No two nodes of the tree have the same address.
unfoldable mutual
  pub AreDistinct : Laid → Type 0
  AreDistinct (laid a n ds) = (IsAddressIn a ds → ⊥) × AreDistinctIn ds

  pub AreDistinctIn : Laids → Type 0
  AreDistinctIn empty = Unit
  AreDistinctIn (more d ds) =
      AreDistinct d × ((x : Addr) → IsAddress x d → IsAddressIn x ds → ⊥) × AreDistinctIn ds

-- The subtree at a position.
unfoldable mutual
  pub laid_at : Laid → Position → Option Laid
  laid_at d [] = some d
  laid_at (laid a n ds) (i ∷ p) = laid_in ds i p

  pub laid_in : Laids → ℕ → Position → Option Laid
  laid_in empty i p = none
  laid_in (more d ds) zero p = laid_at d p
  laid_in (more d ds) (suc i) p = laid_in ds i p

abbrev pub append_laid : Laids → Laid → Laids
append_laid empty u = more u empty
append_laid (more d ds) u = more d (append_laid ds u)

-- The tree with another one linked behind the children of the node at a position.
unfoldable mutual
  pub link_at : Laid → Position → Laid → Laid
  link_at (laid a n ds) [] u = laid a n (append_laid ds u)
  link_at (laid a n ds) (i ∷ p) u = laid a n (link_in ds i p u)

  pub link_in : Laids → ℕ → Position → Laid → Laids
  link_in empty i p u = empty
  link_in (more d ds) zero p u = more (link_at d p u) ds
  link_in (more d ds) (suc i) p u = more d (link_in ds i p u)
