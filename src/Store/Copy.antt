-- ===== src/Store/Copy.antt =====
-- `samconfCopyConfigValue` of src/samconf/private/samconf.c on pointers.
use samconf.Common.{Option, none, some, ◌≡◌, ◌≢◌, refl, ap, ◌∙◌}
use samconf.Status.{Status, error}
use samconf.Config.{
  Value, no_value, string, integer, real, boolean, array, object, Node, Config, config, nil,
  Position, node, with_node, modify_at, copy_value,
}
use samconf.Config.Merge.{config_or}
use samconf.Store.{Addr, Cell, Store, write}
use samconf.Store.Laid.{Laid, address, erase, LiesIn, IsAddress, AreDistinct, laid_at}
use samconf.Store.Add.{eq_self, eq-ne}
use samconf.Store.Frame.{laid_at-LiesIn, LiesIn-cell}
use samconf.Store.Members.{
  members_at, address-members_at, erase-members_at, members_at-IsAddress, members_at-AreDistinct,
  members_at-LiesIn,
}

-- The members of `to` behind the copy of those of `from`, of which the switch uses type and value.
abbrev pub copied_members : Node → Node → Node
copied_members from to =
    node (config_or (config to nil) (copy_value (some (config from nil)) (some (config to nil))).1)

-- `none` is an access to memory with no node.
unfoldable pub store_copy_value : Option Addr → Option Addr → Store → Option (Status × Store)
store_copy_value none to s = some (error, s)
store_copy_value (some from) none s = some (error, s)
store_copy_value (some from) (some to) s = elim (s from) [
  | none ↦ none
  | some source ↦ elim (s to) [
    | none ↦ none
    | some target ↦ some (
      (copy_value (some (config source.node nil)) (some (config target.node nil))).0,
      write to (record target { node = copied_members source.node target.node }) s,
    )
  ]
]

-- The copy of a value changes nothing but members, whatever the children are.
copy_value-members :
    (from : Node) (c : Config)
    → with_node (copied_members from) c
      ≡ config_or c (copy_value (some (config from nil)) (some c)).1
unfolding copy_value
copy_value-members from (config n cs) = go from.value refl
  where
    go :
        (v : Value)
        → from.value ≡ v
        → with_node (copied_members from) (config n cs)
          ≡ config_or (config n cs) (copy_value (some (config from nil)) (some (config n cs))).1
    go no_value e = rw e refl
    go array e = rw e refl
    go object e = rw e refl
    go (integer i) e = rw e refl
    go (boolean b) e = rw e refl
    go (real r) e = rw e refl
    go (string none) e = rw e refl
    go (string (some x)) e = rw e refl

-- Its status does not depend on what it writes to.
copy_value-status :
    (from : Node) (c c' : Config)
    → (copy_value (some (config from nil)) (some c)).0
      ≡ (copy_value (some (config from nil)) (some c')).0
unfolding copy_value
copy_value-status from c c' = go from.value refl
  where
    go :
        (v : Value)
        → from.value ≡ v
        → (copy_value (some (config from nil)) (some c)).0
          ≡ (copy_value (some (config from nil)) (some c')).0
    go no_value e = rw e refl
    go array e = rw e refl
    go object e = rw e refl
    go (integer i) e = rw e refl
    go (boolean b) e = rw e refl
    go (real r) e = rw e refl
    go (string none) e = rw e refl
    go (string (some x)) e = rw e refl

store_copy_value-written :
    (s : Store) (a b : Addr) (source target : Cell)
    → s a ≡ some source
    → s b ≡ some target
    → store_copy_value (some a) (some b) s
      ≡ some (
        (copy_value (some (config source.node nil)) (some (config target.node nil))).0,
        write b (record target { node = copied_members source.node target.node }) s,
      )
unfolding store_copy_value
store_copy_value-written s a b source target here there = rw (store_copy_value, here, there) refl

rewritten :
    (s : Store) (b : Addr) (target : Cell) (f : Node → Node)
    → s b ≡ some target
    → (cell : Cell) → s b ≡ some cell
    → write b (record target { node = f target.node }) s b
      ≡ some (record cell { node = f cell.node })
rewritten s b target f there cell e =
    let same : target ≡ cell = cc in
    rw (eq_self b) (ap (λ (c : Cell). some (record c { node = f c.node })) same)

-- Copying the value of any node in memory to a node of a tree that lies there, no two nodes of which have
-- one address, has the status that it has on trees. The tree is then the one that the copy makes on trees,
-- with the same addresses, and all memory but that of the node is as it was.
store_copy_value-LiesIn :
    (s : Store) (up : Option Addr) (t d : Laid) (p : Position) (a : Addr) (source : Cell)
    → LiesIn s up t
    → AreDistinct t
    → laid_at t p ≡ some d
    → s a ≡ some source
    → (t' : Laid) × (s' : Store) × (store_copy_value (some a) (some (address d)) s
        ≡ some ((copy_value (some (config source.node nil)) (some (erase d))).0, s'))
      × LiesIn s' up t'
      × AreDistinct t'
      × (erase t'
          ≡ modify_at
              (erase t)
              p
              (λ c. config_or c (copy_value (some (config source.node nil)) (some c)).1))
      × (address t' ≡ address t)
      × ((x : Addr) → IsAddress x t' → IsAddress x t)
      × ((x : Addr) → x ≢ address d → s' x ≡ s x)
store_copy_value-LiesIn s up t d p a source h distinct at here =
    let b = address d in
    let f = copied_members source.node in
    let (up_d, lies) = laid_at-LiesIn s up t d p h at in
    let (target, there) = LiesIn-cell s up_d d lies in
    let s' = write b (record target { node = f target.node }) s in
    let elsewhere : (x : Addr) → x ≢ b → s' x ≡ s x = λ x n. rw (eq-ne x b n) refl in
    let at_b : (cell : Cell) → s b ≡ some cell → s' b ≡ some (record cell { node = f cell.node }) =
      rewritten s b target f there in
    (
      members_at t p f,
      s',
      store_copy_value-written s a b source target here there
          ∙ ap (λ (st : Status). some (st, s'))
              (copy_value-status source.node (config target.node nil) (erase d)),
      members_at-LiesIn f s s' b at_b elsewhere up t d p h distinct at refl,
      members_at-AreDistinct f t p distinct,
      erase-members_at f t p
          ∙ (λ i. modify_at (erase t) p (λ c. copy_value-members source.node c i)),
      address-members_at f t p,
      members_at-IsAddress f t p,
      elsewhere,
    )
