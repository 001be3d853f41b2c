-- ===== src/Path/Until.antt =====
-- path_helper.c: the buffer and the text of `samconfPathGetPathUntil`.
use samconf.Common.{
  ℕ, zero, suc, ◌+◌, ◌<◌, List, [], ◌∷◌, ◌++◌, ◌≡◌, refl, arith, All, append_assoc, length,
  length-append, take,
}
use samconf.Text.{Bytes, slash}
use samconf.Path.{until_length, until_loop, until_size, get_path_until, segments, IsSegment}
use samconf.Path.Segments.{join, segments-join}

until_loop-length :
    (items : List Bytes) (i : ℕ) (acc : Bytes)
    → i < length items
    → length (until_loop items i acc) ≡ length acc + until_length items i + i
unfolding until_loop until_length
until_loop-length [] i acc h = elim h [ ]
until_loop-length (s ∷ ss) zero acc h = omega (arith, length-append acc s)
until_loop-length (s ∷ ss) (suc i) acc h = omega (
  arith,
  until_loop-length ss i ((acc ++ s) ++ slash ∷ []),
  length-append (acc ++ s) (slash ∷ []),
  length-append acc s,
)

-- For an index within the array, the text and its terminating NUL take exactly the bytes that the
-- function allocates: `strcat` neither overruns the buffer nor leaves a byte unused.
pub get_path_until-size :
    (items : List Bytes) (index : ℕ)
    → index < length items
    → length (get_path_until items index) + 1 ≡ until_size items index
unfolding get_path_until until_size
get_path_until-size items index h = omega (arith, until_loop-length items index [])

take_nonempty :
    (i : ℕ) (s : Bytes) (ss : List Bytes)
    → i < length ss
    → join (s ∷ take (suc i) ss) ≡ s ++ slash ∷ join (take (suc i) ss)
take_nonempty i s [] h = elim h [ ]
take_nonempty i s (t ∷ ss) h = refl

until_loop-join :
    (items : List Bytes) (i : ℕ) (acc : Bytes)
    → i < length items
    → until_loop items i acc ≡ acc ++ join (take (suc i) items)
unfolding until_loop
until_loop-join [] i acc h = elim h [ ]
until_loop-join (s ∷ ss) zero acc h = refl
until_loop-join (s ∷ ss) (suc i) acc h =
    rw (until_loop-join ss i _ (omega arith), take_nonempty i s ss (omega arith))
      (simp append_assoc)

All-take : (items : List Bytes) (i : ℕ) → All IsSegment items → All IsSegment (take i items)
All-take items zero h = tt
All-take [] (suc i) h = tt
All-take (s ∷ ss) (suc i) (p, h) = (p, All-take ss i h)

-- Splitting the text that the function writes for an index gives the first segments of the array, up
-- to and including the one at the index, if the array holds segments and the index is within it.
pub segments-get_path_until :
    (items : List Bytes) (index : ℕ)
    → All IsSegment items
    → index < length items
    → segments (get_path_until items index) ≡ take (suc index) items
unfolding get_path_until
segments-get_path_until items index h lt =
    rw (until_loop-join items index [] lt)
      (segments-join (take (suc index) items) (All-take items (suc index) h))
