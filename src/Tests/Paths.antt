-- ===== src/Tests/Paths.antt =====
-- Paths.
use samconf.Common.{
  ◌+◌, List, [], ◌∷◌, none, some, ◌≡◌, refl, arith, length, take, list_eq, All, ◌++◌, map,
}
use samconf.Text.{Bytes, codes}
use samconf.Path.{segments, create_array, until_size, get_path_until, root_key, get_path, IsSegment}
use samconf.Path.Segments.{create_array-count}
use samconf.Path.Until.{get_path_until-size, segments-get_path_until}
use samconf.Path.Upward.{NoRoot, segments-get_path, get_path-eq-none}
use mathlib.Core.List.{reverse}

abbrev two_keys : List Bytes
two_keys = codes "a" ∷ codes "bc" ∷ []

two_keys-IsSegment : All IsSegment two_keys
two_keys-IsSegment = ((cc, (omega arith)), ((cc, (omega arith)), tt))

segments_slashes : segments (codes "//a//bc/") ≡ two_keys
unfolding segments
segments_slashes = refl

until_text : get_path_until two_keys 1 ≡ codes "a/bc"
unfolding get_path_until
until_text = refl

upward_text :
    get_path (some (codes "bc")) (some (codes "a") ∷ some root_key ∷ []) ≡ some (codes "root/a/bc")
unfolding get_path list_eq
upward_text = refl

create_array-count_example :
    (create_array (some (codes "//a//bc/"))).count
    ≡ length (create_array (some (codes "//a//bc/"))).items
create_array-count_example = create_array-count (some (codes "//a//bc/"))

until_fits : length (get_path_until two_keys 1) + 1 ≡ until_size two_keys 1
until_fits = get_path_until-size two_keys 1 (omega arith)

until_rejoined : segments (get_path_until two_keys 1) ≡ take 2 two_keys
until_rejoined = segments-get_path_until two_keys 1 two_keys-IsSegment (omega arith)

two_keys-NoRoot : NoRoot two_keys
two_keys-NoRoot = (cc, (cc, tt))

segments-get_path_example :
    (path : Bytes) × (get_path (some (codes "a")) (map some (codes "bc" ∷ []) ++ some root_key ∷ [])
      ≡ some path)
    × (segments path ≡ root_key ∷ reverse two_keys)
segments-get_path_example =
    segments-get_path (codes "a") (codes "bc" ∷ []) [] two_keys-NoRoot two_keys-IsSegment

get_path-eq-none_example : get_path (some (codes "a")) (map some (codes "bc" ∷ [])) ≡ none
get_path-eq-none_example = get_path-eq-none (codes "a") (codes "bc" ∷ []) two_keys-NoRoot
