-- ===== src/Uri/Query.antt =====
-- uri.c: `samconfUriGetParameter` on the queries that the documentation of the backends shows.
use samconf.Common.{
  ℕ, List, [], ◌∷◌, ◌++◌, some, ◌≡◌, ◌≢◌, refl, sym, map, arith, All, All-append, append-nil,
  append_assoc, if◌then◌else◌,
}
use samconf.Text.{Bytes, Lacks, str_eq, split, split_from}
use samconf.Uri.{Uri, Answer, found, absent, search_tokens, get_parameter}

split_run :
    (sep : ℕ) (seg cur rest : Bytes)
    → Lacks sep seg
    → split_from sep cur (seg ++ rest) ≡ split_from sep (cur ++ seg) rest
unfolding split_from
split_run sep [] cur rest h = rw append-nil
split_run sep (c ∷ seg) cur rest (p, h) =
    ground (arith, split_run sep seg (cur ++ c ∷ []) rest h, append_assoc cur (c ∷ []) seg)

split-segment :
    (sep : ℕ) (seg rest : Bytes)
    → Lacks sep seg
    → split sep (seg ++ sep ∷ rest) ≡ seg ∷ split sep rest
unfolding split split_from
split-segment sep seg rest h = ground (arith, split_run sep seg [] (sep ∷ rest) h)

split-whole : (sep : ℕ) (seg : Bytes) → Lacks sep seg → split sep seg ≡ seg ∷ []
unfolding split split_from
split-whole sep seg h = rw (sym (append-nil seg), split_run sep seg [] [] h, append-nil)

-- A parameter as the query writes it.
abbrev pub parameter : Bytes × Bytes → Bytes
parameter (k, v) = k ++ b'=' ∷ v

-- The query of some parameters.
abbrev pub query_of : List (Bytes × Bytes) → Bytes
query_of [] = []
query_of (p ∷ []) = parameter p
query_of (p ∷ q ∷ ps) = parameter p ++ b'&' ∷ query_of (q ∷ ps)

-- The value of the first parameter of a name.
abbrev pub value_in : Bytes → List (Bytes × Bytes) → Answer
value_in name [] = absent
value_in name ((k, v) ∷ ps) = if str_eq k name then found v else value_in name ps

-- Neither the name nor the value holds one of the separators, and the name does not begin with a mark.
abbrev pub IsClean : Bytes × Bytes → Type 0
IsClean (k, v) = Lacks b'=' k × Lacks b'&' k × Lacks b'=' v × Lacks b'&' v

parameter-Lacks : (p : Bytes × Bytes) → IsClean p → Lacks b'&' (parameter p)
parameter-Lacks (k, v) (a, b, c, d) = All-append (λ x. x ≢ b'&') k (b'=' ∷ v) b (omega arith, d)

split-query_of :
    (p : Bytes × Bytes) (ps : List (Bytes × Bytes))
    → All IsClean (p ∷ ps)
    → split b'&' (query_of (p ∷ ps)) ≡ map parameter (p ∷ ps)
split-query_of p [] (hp, hs) = split-whole b'&' (parameter p) (parameter-Lacks p hp)
split-query_of p (q ∷ ps) (hp, hs) = rw (
  split-segment b'&' (parameter p) (query_of (q ∷ ps)) (parameter-Lacks p hp),
  split-query_of q ps hs,
)

split-parameter :
    (k v : Bytes) → Lacks b'=' k → Lacks b'=' v → split b'=' (k ++ b'=' ∷ v) ≡ k ∷ v ∷ []
split-parameter k v hk hv = rw (split-segment b'=' k v hk, split-whole b'=' v hv)

search_tokens-value_in :
    (name : Bytes) (ps : List (Bytes × Bytes))
    → All IsClean ps
    → search_tokens name (map parameter ps) ≡ value_in name ps
unfolding search_tokens
search_tokens-value_in name [] h = refl
search_tokens-value_in name ((k, v) ∷ ps) ((a, b, c, d), h) =
    rw (split-parameter k v a c, search_tokens, search_tokens-value_in name ps h)

-- In a query of at least two parameters with a '?' before it, of which no name and no value holds a
-- separator, the parameter of a name is found with the value of the first parameter of that name, and
-- one that no parameter is named is reported absent.
pub get_parameter-value_in :
    (uri : Uri) (name : Bytes) (p q : Bytes × Bytes) (ps : List (Bytes × Bytes))
    → All IsClean (p ∷ q ∷ ps)
    → uri.query ≡ some (b'?' ∷ query_of (p ∷ q ∷ ps))
    → get_parameter uri name ≡ value_in name (p ∷ q ∷ ps)
unfolding get_parameter
get_parameter-value_in uri name p q ps h e =
    rw (e, split-query_of p (q ∷ ps) h, get_parameter, search_tokens-value_in name (p ∷ q ∷ ps) h)

-- A query with a single parameter, that is one with no '&', is never searched: the parameter that it
-- gives is reported absent.
pub get_parameter-single :
    (uri : Uri) (name value : Bytes)
    → IsClean (name, value)
    → uri.query ≡ some (b'?' ∷ name ++ b'=' ∷ value)
    → get_parameter uri name ≡ absent
unfolding get_parameter
get_parameter-single uri name value h e =
    let whole : split b'&' (name ++ b'=' ∷ value) ≡ (name ++ b'=' ∷ value) ∷ [] =
      split-whole b'&' (parameter (name, value)) (parameter-Lacks (name, value) h) in
    rw (e, whole, get_parameter)
