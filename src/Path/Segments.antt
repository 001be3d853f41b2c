-- ===== src/Path/Segments.antt =====
-- path_helper.c: the segments of a path, and their count.
use samconf.Common.{
  ℕ, ◌+◌, List, [], ◌∷◌, ◌++◌, Option, none, some, ◌≡◌, ◌≢◌, refl, arith, ◌==◌, is_empty, All,
  All-append, append-nil, append_assoc, length, ap,
}
use samconf.Text.{Bytes, slash, tokens_from, Lacks}
use samconf.Path.{count_from, segments, create_array, IsSegment}

count_from-tokens :
    (prev : ℕ) (cur s : Bytes) (n : ℕ)
    → (prev == slash) ≡ is_empty cur
    → count_from prev s n ≡ n + length (tokens_from slash cur s)
unfolding count_from tokens_from
count_from-tokens prev [] [] n h = ground arith
count_from-tokens prev (d ∷ cur) [] n h = ground arith
count_from-tokens prev [] (c ∷ s) n h =
    ground (arith, count_from-tokens c [] s n, count_from-tokens c (c ∷ []) s n)
count_from-tokens prev (d ∷ cur) (c ∷ s) n h =
    ground (arith, count_from-tokens c [] s (n + 1), count_from-tokens c (d ∷ cur ++ c ∷ []) s n)

-- The array that `samconfPathCreateArray` allocates by the segment count has exactly one slot for
-- each token that its `strtok_r` loop stores, whatever the path.
pub create_array-count :
    (path : Option Bytes) → (create_array path).count ≡ length (create_array path).items
unfolding create_array count_from
create_array-count none = refl
create_array-count (some []) = refl
create_array-count (some (c ∷ s)) =
    ground (arith, count_from-tokens c [] s 0, count_from-tokens c (c ∷ []) s 0)

-- The segments, joined by slashes.
abbrev pub join : List Bytes → Bytes
join [] = []
join (s ∷ []) = s
join (s ∷ t ∷ ss) = s ++ slash ∷ join (t ∷ ss)

tokens_run :
    (seg cur rest : Bytes)
    → Lacks slash seg
    → tokens_from slash cur (seg ++ rest) ≡ tokens_from slash (cur ++ seg) rest
unfolding tokens_from
tokens_run [] cur rest h = rw append-nil
tokens_run (c ∷ seg) cur rest (p, h) =
    ground (arith, tokens_run seg (cur ++ c ∷ []) rest h, append_assoc cur (c ∷ []) seg)

tokens_end : (cur : Bytes) → cur ≢ [] → tokens_from slash cur [] ≡ cur ∷ []
unfolding tokens_from
tokens_end [] h = absurd (h refl)
tokens_end (c ∷ cur) h = refl

tokens_slash :
    (cur rest : Bytes)
    → cur ≢ []
    → tokens_from slash cur (slash ∷ rest) ≡ cur ∷ tokens_from slash [] rest
unfolding tokens_from
tokens_slash [] rest h = absurd (h refl)
tokens_slash (c ∷ cur) rest h = refl

-- Reading joined segments gives them back.
pub segments-join : (ss : List Bytes) → All IsSegment ss → segments (join ss) ≡ ss
unfolding segments
segments-join [] h = unfold tokens_from in refl
segments-join (s ∷ []) ((p, q), h) = cc (tokens_run s [] [] q, append-nil s, tokens_end s p)
segments-join (s ∷ t ∷ ss) ((p, q), h) =
    rw (tokens_run s [] _ q, tokens_slash s _ p) (ap (λ r. s ∷ r) (segments-join (t ∷ ss) h))

tokens_from-IsSegment : (cur s : Bytes) → Lacks slash cur → All IsSegment (tokens_from slash cur s)
unfolding tokens_from
tokens_from-IsSegment [] [] h = tt
tokens_from-IsSegment (d ∷ cur) [] h = ((λ e. cc, h), tt)
tokens_from-IsSegment [] (c ∷ s) h =
    ground (arith, tokens_from-IsSegment [] s tt, tokens_from-IsSegment (c ∷ []) s)
tokens_from-IsSegment (d ∷ cur) (c ∷ s) h = ground (
  arith,
  tokens_from-IsSegment [] s tt,
  tokens_from-IsSegment (d ∷ cur ++ c ∷ []) s,
  All-append (λ x. x ≢ slash) (d ∷ cur) (c ∷ []) h,
)

-- The segments of any path are not empty and hold no slash.
pub segments-IsSegment : (path : Bytes) → All IsSegment (segments path)
unfolding segments
segments-IsSegment path = tokens_from-IsSegment [] path tt
