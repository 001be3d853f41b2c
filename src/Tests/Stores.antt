-- ===== src/Tests/Stores.antt =====
-- Trees in memory: linking two of them, and the path of a node.
use samconf.Common.{
  ℕ, [], ◌∷◌, none, some, ◌≡◌, refl, ◌==◌, if◌then◌else◌, list_eq, arith, inl, inr, ◌⊎◌, false, ◌+◌,
  ◌≢◌,
}
use samconf.Common.Int.{pos}
use samconf.Status.{Status, ok}
use samconf.Text.{codes}
use samconf.Path.{create_array, segments, get_path_until}
use samconf.Config.Insert.{insert_at}
use samconf.Store.Copy.{store_copy_value}
use samconf.Store.Insert.{store_insert_at, store_insert_loop}
use samconf.Store.Insert.Ready.{Grows}
use samconf.Store.Insert.Grown.{store_insert_at-Grows}
use samconf.Config.Get.{samconf_get, config_get}
use samconf.Config.{copy_value, Config, Node, integer, object, modify_at, link}
use samconf.Config.Merge.{path_of, config_next, size}
use samconf.Store.{
  Addr, Store, write, walked, and_then, store_add, store_path_loop, store_get_path, store_find_next,
  store_next, store_find_child, store_get_walk, store_get, store_delete,
}
use samconf.Store.Laid.{
  Laid, laid, empty, more, erase, LiesIn, IsAddress, AreDistinct, laid_at, link_at,
}
use samconf.Store.Add.{AreApart, store_add-LiesIn}
use samconf.Store.Freed.{IsWithout, store_delete-IsWithout}
use samconf.Store.Lookup.{IsNamed, store_get-config_get}
use samconf.Store.Onward.{store_next-config_next}
use samconf.Store.Positions.{pointer_to, Stands}
use samconf.Store.Upward.{walk_of, store_get_path-path_of}

abbrev top : Node
top = record { key = some (codes "root"); is_signed = false; value = object }

abbrev server : Node
server = record { key = some (codes "server"); is_signed = false; value = object }

abbrev port : Node
port = record { key = some (codes "port"); is_signed = false; value = integer (pos 80) }

-- root/server at the addresses 1 and 2, and a node without a parent at 3.
abbrev memory : Store
memory a =
    if a == 1
    then some (record { node = top; parent = none; children = 2 ∷ [] })
    else if a == 2
    then some (record { node = server; parent = some 1; children = [] })
    else if a == 3
    then some (record { node = port; parent = none; children = [] })
    else none

abbrev tree : Laid
tree = laid 1 top (more (laid 2 server empty) empty)

abbrev fresh : Laid
fresh = laid 3 port empty

tree-LiesIn : LiesIn memory none tree
unfolding LiesIn
tree-LiesIn = (refl, ((refl, tt), tt))

tree-AreDistinct : AreDistinct tree
unfolding AreDistinct IsAddress
tree-AreDistinct = (lemma, (((λ x. x), tt), (λ x h n. n), tt))
  where
    lemma : IsAddress 1 (laid 2 server empty) ⊎ ⊥ → ⊥
    lemma (inl (inl e)) = absurd (omega arith)
    lemma (inl (inr h)) = h
    lemma (inr h) = h

fresh-LiesIn : LiesIn memory none fresh
unfolding LiesIn
fresh-LiesIn = (refl, tt)

fresh-AreDistinct : AreDistinct fresh
unfolding AreDistinct IsAddress
fresh-AreDistinct = ((λ x. x), tt)

tree_apart : AreApart tree fresh
unfolding IsAddress
tree_apart x (inl e) (inl e') = absurd (omega arith)
tree_apart x (inr (inl (inl e))) (inl e') = absurd (omega arith)
tree_apart x (inr (inl (inr h))) (inl e') = h
tree_apart x (inr (inr h)) (inl e') = h
tree_apart x h (inr n) = n

server_there : laid_at tree (0 ∷ []) ≡ some (laid 2 server empty)
unfolding laid_at
server_there = refl

store_add-LiesIn_example :
    (s' : Store) × (store_add (some 2) (some 3) memory ≡ some (ok, s'))
    × LiesIn s' none (link_at tree (0 ∷ []) fresh)
    × AreDistinct (link_at tree (0 ∷ []) fresh)
    × (erase (link_at tree (0 ∷ []) fresh) ≡ modify_at (erase tree) (0 ∷ []) (link (erase fresh)))
    × ((x : Addr) → (IsAddress x tree → ⊥) → (IsAddress x fresh → ⊥) → s' x ≡ memory x)
store_add-LiesIn_example =
    store_add-LiesIn memory none none tree fresh (laid 2 server empty) (0 ∷ []) tree-LiesIn
      tree-AreDistinct fresh-LiesIn fresh-AreDistinct tree_apart server_there

store_get_path-path_of_example : store_get_path 2 memory 2 ≡ walk_of (path_of (erase tree) (0 ∷ []))
store_get_path-path_of_example =
    store_get_path-path_of memory tree (laid 2 server empty) (0 ∷ []) 2 tree-LiesIn server_there
      (omega arith)

server_path : store_get_path 2 memory 2 ≡ walked (codes "root/server")
unfolding store_get_path store_path_loop list_eq
server_path = refl

store_next-config_next_example :
    (store_next 2 memory (some 1) (some 1)
      ≡ walked (
        (config_next (some (erase tree)) (some [])).0,
        pointer_to tree (config_next (some (erase tree)) (some [])).1,
      ))
    × Stands tree (config_next (some (erase tree)) (some [])).1
unfolding laid_at size erase
store_next-config_next_example =
    store_next-config_next memory none tree tree [] 2 tree-LiesIn tree-AreDistinct refl
      (omega arith)

server_next : store_next 2 memory (some 1) (some 1) ≡ walked (ok, some 2)
unfolding store_next store_find_next
server_next = refl

tree-IsNamed : IsNamed tree
unfolding IsNamed
tree-IsNamed = ((codes "server", refl), tt, tt)

store_get-config_get_example :
    (store_get memory (some 1) (some (codes "server"))
      ≡ walked (
        (config_get (some (erase tree)) (some (codes "server"))).0,
        pointer_to tree (config_get (some (erase tree)) (some (codes "server"))).1,
      ))
    × Stands tree (config_get (some (erase tree)) (some (codes "server"))).1
    × (samconf_get (some (erase tree)) (some (codes "server"))
        ≡ some (config_get (some (erase tree)) (some (codes "server"))))
store_get-config_get_example =
    store_get-config_get memory none tree (some (codes "server")) tree-LiesIn tree-IsNamed

server_found : store_get memory (some 1) (some (codes "server")) ≡ walked (ok, some 2)
unfolding store_get store_get_walk store_find_child create_array list_eq
server_found = refl

store_delete-IsWithout_example :
    (s' : Store) × (store_delete 2 1 memory ≡ walked (ok, s'))
    × IsWithout (λ x. IsAddress x tree) memory s'
unfolding size erase
store_delete-IsWithout_example =
    store_delete-IsWithout tree memory none 2 tree-LiesIn tree-AreDistinct (omega arith)

-- New nodes from the address 10 on.
abbrev next_block : ℕ → Addr
next_block i = i + 10

next_block-inj : (i j : ℕ) → next_block i ≡ next_block j → i ≡ j
next_block-inj i j e = omega (arith, e)

next_block-unused : (i : ℕ) → memory (next_block i) ≡ none
next_block-unused i = ground arith

net_segments : segments (codes "net/port") ≡ codes "net" ∷ codes "port" ∷ []
unfolding segments
net_segments = refl

net_nonempty : segments (codes "net/port") ≢ []
net_nonempty e = cc net_segments

store_insert_at-Grows_example :
    (st : Status) × (c : Config) × (insert_at
        (some (erase tree))
        (some (codes "net/port"))
        (some (erase fresh))
      ≡ (st, some c))
    × Grows next_block memory none tree fresh
        (store_insert_at next_block (some 1) (some (codes "net/port")) (some 3) memory)
        (st, c)
store_insert_at-Grows_example =
    store_insert_at-Grows next_block memory none none tree fresh (codes "net/port") next_block-inj
      next_block-unused net_nonempty tree-LiesIn tree-AreDistinct tree-IsNamed fresh-LiesIn
      fresh-AreDistinct tree_apart

inserted_found :
    and_then
      (store_insert_at next_block (some 1) (some (codes "net/port")) (some 3) memory)
      (λ r. store_get r.1 (some 1) (some (codes "net/port")))
    ≡ walked (ok, some 3)
unfolding store_insert_at store_insert_loop store_add store_get store_get_walk store_find_child
    create_array get_path_until list_eq
inserted_found = refl

value_copied :
    store_copy_value (some 3) (some 2) memory
    ≡ some (
      ok,
      write 2
          (record {
            node = record server { value = integer (pos 80) };
            parent = some 1;
            children = [];
          })
          memory,
    )
unfolding store_copy_value copy_value
value_copied = refl
