-- ===== src/Tests/Queries.antt =====
-- The queries of URIs, and texts read as values.
use samconf.Common.{◌∷◌, [], none, some, arith, ◌≡◌, refl}
use samconf.Text.{Bytes, codes}
use samconf.Uri.{Uri, get_parameter, absent}
use samconf.Uri.Query.{IsClean, query_of, value_in, get_parameter-value_in, get_parameter-single}

abbrev with_query : Bytes → Uri
with_query query = record {
  plain = none;
  scheme = none;
  authority = none;
  path = none;
  query = some query;
  fragment = none;
}

abbrev prefix : Bytes × Bytes
prefix = (codes "envPrefix", codes "APP")

abbrev mode : Bytes × Bytes
mode = (codes "mode", codes "x")

prefix-IsClean : IsClean prefix
prefix-IsClean = omega arith

mode-IsClean : IsClean mode
mode-IsClean = omega arith

get_parameter-value_in_example :
    get_parameter (with_query (b'?' ∷ query_of (mode ∷ prefix ∷ []))) (codes "envPrefix")
    ≡ value_in (codes "envPrefix") (mode ∷ prefix ∷ [])
get_parameter-value_in_example =
    get_parameter-value_in (with_query (b'?' ∷ query_of (mode ∷ prefix ∷ []))) (codes "envPrefix")
      mode prefix [] (mode-IsClean, (prefix-IsClean, tt)) refl

get_parameter-single_example :
    get_parameter (with_query (codes "?envPrefix=APP")) (codes "envPrefix") ≡ absent
get_parameter-single_example =
    get_parameter-single (with_query (codes "?envPrefix=APP")) (codes "envPrefix") (codes "APP")
      prefix-IsClean refl
