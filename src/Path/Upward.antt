-- ===== src/Path/Upward.antt =====
-- path_helper.c: `samconfPathGetPath` on a node and its ancestors.
use mathlib.Core.List.{reverse, reverse_aux}
use samconf.Common.{
  List, [], ◌∷◌, ◌++◌, Option, none, some, ◌≡◌, ◌≢◌, refl, arith, All, map, false, list_eq_iff,
  list_eq,
}
use samconf.Text.{Bytes, slash, str_eq}
use samconf.Path.{add_to_new_path, root_key, get_path_loop, get_path, segments, IsSegment}
use samconf.Path.Segments.{join, segments-join}

-- No key of the list is "root".
abbrev pub NoRoot : List Bytes → Type 0
NoRoot = All (λ k. k ≢ root_key)

join-ne-nil : (s : Bytes) (ss : List Bytes) → s ≢ [] → join (s ∷ ss) ≢ []
join-ne-nil [] ss h = absurd (h refl)
join-ne-nil (c ∷ s) [] h = h
join-ne-nil (c ∷ s) (t ∷ ss) h = λ e. cc

add_behind : (e k : Bytes) → e ≢ [] → add_to_new_path e k ≡ k ++ slash ∷ e
unfolding add_to_new_path
add_behind [] k n = absurd (n refl)
add_behind (c ∷ e) k n = refl

add_to_new_path-join :
    (k s : Bytes) (ss : List Bytes) → s ≢ [] → add_to_new_path (join (s ∷ ss)) k ≡ join (k ∷ s ∷ ss)
add_to_new_path-join k s ss h = add_behind (join (s ∷ ss)) k (join-ne-nil s ss h)

not_root : (k : Bytes) → k ≢ root_key → str_eq k root_key ≡ false
not_root k h = ground (arith, list_eq_iff k root_key)

get_path_loop-join :
    (ks : List Bytes) (up : List (Option Bytes)) (s : Bytes) (ss : List Bytes)
    → NoRoot ks
    → All IsSegment ks
    → s ≢ []
    → get_path_loop (join (s ∷ ss)) (map some ks ++ some root_key ∷ up)
      ≡ some (join (root_key ∷ reverse_aux ks (s ∷ ss)))
unfolding get_path_loop list_eq
get_path_loop-join [] up s ss n k h = rw (add_to_new_path-join root_key s ss h)
get_path_loop-join (key ∷ ks) up s ss (n, ns) ((p, q), hs) h =
    rw (not_root key n, add_to_new_path-join key s ss h)
      (get_path_loop-join ks up key (s ∷ ss) ns hs p)

All-reverse_aux :
    (ks ss : List Bytes) → All IsSegment ks → All IsSegment ss → All IsSegment (reverse_aux ks ss)
All-reverse_aux [] ss _ h = h
All-reverse_aux (k ∷ ks) ss (p, hk) h = All-reverse_aux ks (k ∷ ss) hk (p, h)

root_key-IsSegment : IsSegment root_key
root_key-IsSegment = (cc, omega arith)

-- For a node whose ancestors reach one named "root", the keys from the node up to that ancestor being
-- segments and none of those below it named "root", the function returns a path, and the segments of
-- that path are the keys from the "root" ancestor down to the node. What lies above that ancestor
-- does not matter.
pub segments-get_path :
    (key : Bytes) (ks : List Bytes) (up : List (Option Bytes))
    → NoRoot (key ∷ ks)
    → All IsSegment (key ∷ ks)
    → (path : Bytes) × (get_path (some key) (map some ks ++ some root_key ∷ up) ≡ some path)
      × (segments path ≡ root_key ∷ reverse (key ∷ ks))
unfolding get_path add_to_new_path
segments-get_path key ks up (n, ns) ((p, q), h) = (
  join (root_key ∷ reverse_aux ks (key ∷ [])),
  rw (not_root key n) (get_path_loop-join ks up key [] ns h p),
  segments-join (root_key ∷ reverse_aux ks (key ∷ []))
      (root_key-IsSegment, All-reverse_aux ks (key ∷ []) h ((p, q), tt)),
)

get_path_loop-eq-none :
    (e : Bytes) (ks : List Bytes) → NoRoot ks → get_path_loop e (map some ks) ≡ none
unfolding get_path_loop
get_path_loop-eq-none e [] n = refl
get_path_loop-eq-none e (k ∷ ks) (n, ns) = rw (not_root k n) (get_path_loop-eq-none _ ks ns)

-- If neither the node nor any of its ancestors is named "root", the function dereferences the NULL
-- parent of the topmost one.
pub get_path-eq-none :
    (key : Bytes) (ks : List Bytes) → NoRoot (key ∷ ks) → get_path (some key) (map some ks) ≡ none
unfolding get_path
get_path-eq-none key ks (n, ns) = rw (not_root key n) (get_path_loop-eq-none _ ks ns)
