-- ===== src/Path.antt =====
-- src/samconf/private/path_helper.c: paths as arrays of segments. Memory is taken to be granted, so
-- the branches for a NULL from `strdup` or `safuAllocMem` are not taken.
pub mod Segments
pub mod Until
pub mod Upward
use samconf.Common.{
  ℕ, zero, suc, ◌+◌, ◌&&◌, not, List, [], ◌∷◌, ◌++◌, Option, none, some, ◌≢◌, ◌==◌, if◌then◌else◌,
  is_empty, length, list_eq,
}
use samconf.Status.{Status, ok, error}
use samconf.Text.{Bytes, codes, slash, str_eq, tokens_from, Lacks}

-- The loop of `_pathGetSegmentCount` from index i on, `prev` being path[i - 1].
count_from : ℕ → Bytes → ℕ → ℕ
count_from prev [] n = if prev == slash then n else n + 1
count_from prev (c ∷ s) n =
    count_from c s (if (c == slash) && not (prev == slash) then n + 1 else n)

-- `_pathGetSegmentCount`
unfoldable pub segment_count : Option Bytes → ℕ
unfolding count_from
segment_count none = 0
segment_count (some []) = 0
segment_count (some (c ∷ s)) = count_from c s 0

-- The tokens of a path between slashes.
unfoldable pub segments : Bytes → List Bytes
unfolding tokens_from
segments path = tokens_from slash [] path

-- What `samconfPathCreateArray` gives: its status, `*patharray` and `*count`.
pub record PathArray : Type 0 where
  pub status : Status
  pub items : List Bytes
  pub count : ℕ

-- `samconfPathCreateArray`
unfoldable pub create_array : Option Bytes → PathArray
unfolding segment_count segments
create_array none = record { status = error; items = []; count = 0 }
create_array (some path) = record {
  status = ok;
  items = segments path;
  count = segment_count (some path);
}

-- The two loops of `samconfPathGetPathUntil`: the bytes allocated for the text, and the text built by
-- `strcat`. Past the end of the array C reads out of bounds; the callers never do.
until_length : List Bytes → ℕ → ℕ
until_length [] i = 0
until_length (s ∷ ss) zero = length s
until_length (s ∷ ss) (suc i) = length s + until_length ss i

until_loop : List Bytes → ℕ → Bytes → Bytes
until_loop [] i acc = acc
until_loop (s ∷ ss) zero acc = acc ++ s
until_loop (s ∷ ss) (suc i) acc = until_loop ss i ((acc ++ s) ++ slash ∷ [])

-- The size of the buffer of `samconfPathGetPathUntil`.
pub until_size : List Bytes → ℕ → ℕ
unfolding until_length
until_size items index = until_length items index + (index + 1)

-- `samconfPathGetPathUntil`: the text that it writes.
unfoldable pub get_path_until : List Bytes → ℕ → Bytes
unfolding until_loop
get_path_until items index = until_loop items index []

-- `_add_to_new_path`
unfoldable pub add_to_new_path : Bytes → Bytes → Bytes
add_to_new_path [] segment = segment
add_to_new_path (c ∷ existing) segment = segment ++ slash ∷ c ∷ existing

abbrev pub root_key : Bytes
root_key = codes "root"

-- The `while` loop of `samconfPathGetPath` and what follows it, over the keys of the ancestors, the
-- nearest first. `none` stands for a NULL dereference: a missing parent, or one without a key.
unfoldable pub get_path_loop : Bytes → List (Option Bytes) → Option Bytes
unfolding add_to_new_path
get_path_loop new_path [] = none
get_path_loop new_path (none ∷ up) = none
get_path_loop new_path (some key ∷ up) =
    let further = get_path_loop (add_to_new_path new_path key) up in
    if str_eq key root_key then some (add_to_new_path new_path root_key) else further

-- `samconfPathGetPath`, on the key of the node and the keys of its ancestors.
unfoldable pub get_path : Option Bytes → List (Option Bytes) → Option Bytes
unfolding get_path_loop
get_path none up = none
get_path (some key) up =
    if str_eq key root_key then some root_key else get_path_loop (add_to_new_path [] key) up

-- What a path segment is: not empty, and with no slash in it.
abbrev pub IsSegment : Bytes → Type 0
IsSegment s = (s ≢ []) × Lacks slash s
