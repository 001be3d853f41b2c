-- ===== src/Store/Insert/Rounds.antt =====
-- The rounds of the loop of `samconfInsertAt` on pointers.
use samconf.Common.{ℕ, suc, List, [], ◌∷◌, Option, none, some, ◌≡◌, refl}
use samconf.Status.{Status, ok, not_found}
use samconf.Text.{Bytes}
use samconf.Path.{get_path_until}
use samconf.Store.{Addr, Store, walked, write, store_add, store_get}
use samconf.Store.Insert.{object_members, store_insert_loop}

module _ (alloc : ℕ → Addr) (items : List Bytes) (i : ℕ) (seg : Bytes)
    (root parent existing : Option Addr) (conf : Addr) (st : Status) (s : Store) where
  -- The last segment, where a node is there already and where none is.
  pub store_exists :
      (found : Option Addr)
      → store_get s root (some (get_path_until items i)) ≡ walked (ok, found)
      → store_insert_loop alloc items i (seg ∷ []) root parent existing conf st s ≡ walked (ok, s)
  unfolding store_insert_loop
  store_exists found h = rw (store_insert_loop, h) refl

  pub store_links :
      (s' : Store)
      → store_get s root (some (get_path_until items i)) ≡ walked (not_found, none)
      → store_add parent (some conf) s ≡ some (ok, s')
      → store_insert_loop alloc items i (seg ∷ []) root parent existing conf st s ≡ walked (ok, s')
  unfolding store_insert_loop
  store_links s' h added = rw (store_insert_loop, h, added) refl

  -- A segment on the way, in the same cases.
  pub store_descends :
      (seg' : Bytes) (rest : List Bytes) (b : Addr)
      → store_get s root (some (get_path_until items i)) ≡ walked (ok, some b)
      → store_insert_loop alloc items i (seg ∷ seg' ∷ rest) root parent existing conf st s
        ≡ store_insert_loop alloc items (suc i) (seg' ∷ rest) root (some b) (some b) conf ok s
  unfolding store_insert_loop
  store_descends seg' rest b h = rw (store_insert_loop, h) refl

  pub store_grows :
      (seg' : Bytes) (rest : List Bytes) (s' : Store)
      → store_get s root (some (get_path_until items i)) ≡ walked (not_found, none)
      → store_add parent
          (some (alloc i))
          (write (alloc i) (record { node = object_members seg; parent = none; children = [] }) s)
        ≡ some (ok, s')
      → store_insert_loop alloc items i (seg ∷ seg' ∷ rest) root parent existing conf st s
        ≡ store_insert_loop alloc items
            (suc i)
            (seg' ∷ rest)
            root
            (some (alloc i))
            existing
            conf
            ok
            s'
  unfolding store_insert_loop
  store_grows seg' rest s' h added = rw (store_insert_loop, h, added) refl
