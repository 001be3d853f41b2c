-- ===== src/Store/Insert/Ready.antt =====
-- Trees in memory that are ready to be linked, and the searches of the loop of `samconfInsertAt`.
use samconf.Common.{
  ℕ, suc, ◌<◌, List, [], ◌∷◌, ◌++◌, Option, none, some, ◌≡◌, ◌≢◌, ◌⊎◌, refl, ap, ◌∙◌, inl, inr,
  arith, Option-cases, All, length, take,
}
use samconf.Status.{Status, ok, not_found}
use samconf.Text.{Bytes}
use samconf.Path.{segments, get_path_until, IsSegment}
use samconf.Path.Until.{segments-get_path_until}
use samconf.Config.{Config, Position, child_count, children, link, modify_at}
use samconf.Config.Get.{config_get}
use samconf.Config.Get.Resolve.{resolve, config_get-resolve}
use samconf.Config.Insert.{object_node}
use samconf.Store.{Addr, Cell, Store, Walk, walked, write, store_add, store_get}
use samconf.Store.Laid.{
  Laid, laid, empty, address, erase, LiesIn, IsAddress, AreDistinct, laid_at, link_at,
}
use samconf.Store.Add.{AreApart, eq_self, eq-ne, address-link_at, store_add-LiesIn}
use samconf.Store.Distinct.{link_at-IsAddress}
use samconf.Store.Frame.{LiesIn-frame, erase-link_at}
use samconf.Store.Lookup.{HasKey, IsNamed, store_get-config_get}
use samconf.Store.Positions.{Stands}
use samconf.Store.Insert.{object_members}
use samconf.Store.Insert.Links.{laid_at-link_at, link_at-IsNamed, LiesIn-some, write-LiesIn}

ne-take : (items : List Bytes) (i : ℕ) → i < length items → take (suc i) items ≢ []
ne-take [] i lt e = absurd (omega (arith, lt))
ne-take (x ∷ items) i lt e = cc

-- What the loop asks for is found, or not.
pub asked :
    (items : List Bytes) (i : ℕ) (c : Config)
    → All IsSegment items
    → i < length items
    → (config_get (some c) (some (get_path_until items i)) ≡ (not_found, none))
      ⊎ ((q : Position) × (config_get (some c) (some (get_path_until items i)) ≡ (ok, some q)))
asked items i c all lt =
    let path = get_path_until items i in
    let names = segments-get_path_until items i all lt in
    let nonempty : segments path ≢ [] = rw names (ne-take items i lt) in
    let answered = config_get-resolve c path nonempty in
    elim (Option-cases (resolve c (segments path))) [
      | inl lost ↦ inl (rw lost at answered)
      | inr (q, hit) ↦ inr (q, rw hit at answered)
    ]

-- Two trees that lie apart in a store, the keys of the first one being there.
abbrev pub AreReady : Store → Option Addr → Option Addr → Laid → Laid → Type 0
AreReady s up up' t u =
    LiesIn s up t × AreDistinct t × IsNamed t × LiesIn s up' u × AreDistinct u × AreApart t u

-- An address at which a node was made.
abbrev pub IsMade : (ℕ → Addr) → Addr → Type 0
IsMade alloc x = (j : ℕ) × (x ≡ alloc j)

-- The memory outside of two trees and of the nodes that were made is as it was.
abbrev IsKept : (ℕ → Addr) → Store → Store → Laid → Laid → Type 0
IsKept alloc s s' t u =
    (x : Addr) → (IsAddress x t → ⊥) → (IsAddress x u → ⊥) → (IsMade alloc x → ⊥) → s' x ≡ s x

-- The nodes of the third tree are those of the first two, or were made.
abbrev IsFrom : (ℕ → Addr) → Laid → Laid → Laid → Type 0
IsFrom alloc t u t' = (x : Addr) → IsAddress x t' → (IsAddress x t ⊎ IsAddress x u) ⊎ IsMade alloc x

-- The first tree grew to one that an insertion on trees without addresses makes.
abbrev pub Grows :
    (ℕ → Addr)
    → Store
    → Option Addr
    → Laid
    → Laid
    → Walk (Status × Store)
    → Status × Config
    → Type 0
Grows alloc s up t u w r =
    (t' : Laid) × (s' : Store) × (w ≡ walked (r.0, s'))
    × LiesIn s' up t'
    × AreDistinct t'
    × (erase t' ≡ r.1)
    × (address t' ≡ address t)
    × IsFrom alloc t u t'
    × IsKept alloc s s' t u

-- Another node in free memory.
pub made-AreReady :
    (s : Store) (b : Addr) (seg : Bytes) (up up' : Option Addr) (t u : Laid)
    → s b ≡ none
    → AreReady s up up' t u
    → (let s1 = write b (record { node = object_members seg; parent = none; children = [] }) s in
        AreReady s1 up none t (laid b (object_members seg) empty)
        × AreReady s1 up up' t u
        × AreApart (laid b (object_members seg) empty) u)
unfolding LiesIn AreDistinct IsAddress
made-AreReady s b seg up up' t u free (h, distinct, named, lies, own, apart) =
    let cell : Cell = record { node = object_members seg; parent = none; children = [] } in
    let h1 = write-LiesIn s b cell up t free h in
    let lies1 = write-LiesIn s b cell up' u free lies in
    let there : write b cell s b ≡ some cell = rw (eq_self b) refl in
    (
      (h1, distinct, named, (there, tt), ((λ x. x), tt), away t up h),
      (h1, distinct, named, lies1, own, apart),
      (λ x m n. away u up' lies x n m),
    )
  where
    away :
        (v : Laid) (up : Option Addr)
        → LiesIn s up v
        → AreApart v (laid b (object_members seg) empty)
    away v up h x m (inl e) = LiesIn-some s up v x h m (ap s e ∙ free)
    away v up h x m (inr n) = n

-- Linking a tree into the first one.
pub linked-AreReady :
    (s : Store) (up up0 up' : Option Addr) (t u v d : Laid) (p : Position)
    → AreReady s up up0 t v
    → AreReady s up up' t u
    → AreApart v u
    → HasKey v
    → IsNamed v
    → laid_at t p ≡ some d
    → (s' : Store) × (store_add (some (address d)) (some (address v)) s ≡ some (ok, s'))
      × AreReady s' up up' (link_at t p v) u
      × ((x : Addr) → (IsAddress x t → ⊥) → (IsAddress x v → ⊥) → s' x ≡ s x)
linked-AreReady s up up0 up' t u v d p (h, distinct, named, lies_v, own_v, apart_v)
      (_, _, _, lies, own, apart) between key inner at =
    let (s', added, h', distinct', erased, elsewhere) =
      store_add-LiesIn s up up0 t v d p h distinct lies_v own_v apart_v at in
    (
      s',
      added,
      (
        h',
        distinct',
        link_at-IsNamed t v p named key inner,
        LiesIn-frame s s' up' u lies (λ x m. elsewhere x (λ n. apart x n m) (λ n. between x n m)),
        own,
        (λ x m n. elim (link_at-IsAddress x t p v m) [
          | inl j ↦ apart x j n
          | inr j ↦ between x j n
        ]),
      ),
      elsewhere,
    )

-- What the search in the tree finds, as pointers.
pub got_some :
    (s : Store) (up : Option Addr) (t : Laid) (path : Bytes) (q : Position)
    → LiesIn s up t
    → IsNamed t
    → config_get (some (erase t)) (some path) ≡ (ok, some q)
    → (e : Laid) × (laid_at t q ≡ some e)
      × (store_get s (some (address t)) (some path) ≡ walked (ok, some (address e)))
got_some s up t path q h named found =
    let (got, stands, safe) = store_get-config_get s up t (some path) h named in
    let (e, there) : Stands t (some q) = rw found at stands in (e, there, rw (found, there) at got)

pub got_none :
    (s : Store) (up : Option Addr) (t : Laid) (path : Bytes)
    → LiesIn s up t
    → IsNamed t
    → config_get (some (erase t)) (some path) ≡ (not_found, none)
    → store_get s (some (address t)) (some path) ≡ walked (not_found, none)
got_none s up t path h named lost =
    let (got, stands, safe) = store_get-config_get s up t (some path) h named in rw lost at got

-- Another address than that of a node that was made.
unmade :
    (s : Store) (b : Addr) (seg : Bytes) (x : Addr)
    → x ≢ b
    → (IsAddress x (laid b (object_members seg) empty) → ⊥)
      × (write b (record { node = object_members seg; parent = none; children = [] }) s x ≡ s x)
unfolding IsAddress
unmade s b seg x other = ((λ m. elim m [ inl e ↦ other e | inr k ↦ k ]), rw (eq-ne x b other) refl)

-- A loop that goes on from a tree with a new object linked into it makes the first tree grow.
pub goes_on :
    (alloc : ℕ → Addr) (i : ℕ) (s : Store) (seg : Bytes) (up up' : Option Addr) (t u d : Laid)
    (p : Position) (w : Walk (Status × Store)) (r : Status × Config)
    → s (alloc i) ≡ none
    → AreReady s up up' t u
    → laid_at t p ≡ some d
    → ((s2 : Store) (t2 : Laid)
        → AreReady s2 up up' t2 u
        → address t2 ≡ address t
        → laid_at t2 (p ++ child_count (children (erase d)) ∷ [])
          ≡ some (laid (alloc i) (object_members seg) empty)
        → store_add
            (some (address d))
            (some (alloc i))
            (write (alloc i) (record { node = object_members seg; parent = none; children = [] }) s)
          ≡ some (ok, s2)
        → erase t2 ≡ modify_at (erase t) p (link (object_node seg))
        → ((x : Addr) → x ≢ alloc i → s x ≡ none → s2 x ≡ none)
        → Grows alloc s2 up t2 u w r)
    → Grows alloc s up t u w r
unfolding IsNamed erase IsAddress
goes_on alloc i s seg up up' t u d p w r free ready at further =
    let b = alloc i in
    let v = laid b (object_members seg) empty in
    let s1 = write b (record { node = object_members seg; parent = none; children = [] }) s in
    let (ready_v, ready_u, between) = made-AreReady s b seg up up' t u free ready in
    let (s2, added, ready2, elsewhere) =
      linked-AreReady s1 up none up' t u v d p ready_v ready_u between (seg, refl) tt at in
    let (t', s', ran, h', distinct', erased, root, from, kept) =
      further s2 (link_at t p v) ready2 (address-link_at t p v) (laid_at-link_at t d v p at) added
        (erase-link_at t p v)
        (λ x other none_there.
          let (off, same) = unmade s b seg x other in
          elsewhere x (λ m. LiesIn-some s up t x ready.0 m none_there) off ∙ same ∙ none_there) in
    (
      t',
      s',
      ran,
      h',
      distinct',
      erased,
      root ∙ address-link_at t p v,
      (λ x m. elim (from x m) [
        | inl (inl j) ↦ elim (link_at-IsAddress x t p v j) [
          | inl y ↦ inl (inl y)
          | inr (inl e) ↦ inr (i, e)
          | inr (inr k) ↦ absurd k
        ]
        | inl (inr j) ↦ inl (inr j)
        | inr made ↦ inr made
      ]),
      (λ x out off_u unmade_x.
          let other : x ≢ b = λ e. unmade_x (i, e) in
          let (off, same) = unmade s b seg x other in
          kept x (λ j. elim (link_at-IsAddress x t p v j) [ inl y ↦ out y | inr y ↦ off y ]) off_u
            unmade_x
          ∙ elsewhere x out off
          ∙ same),
    )
