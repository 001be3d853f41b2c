-- ===== src/Uri.antt =====
-- src/samconf/private/uri.c: the parts of a URI and the parameters of its query.
pub mod Query
use samconf.Common.{
  ℕ, zero, suc, ◌-◌, Bool, true, false, List, [], ◌∷◌, ◌++◌, Option, none, some, ◌==◌,
  if◌then◌else◌, take,
}
use samconf.Status.{Status, ok, error, is_ok}
use samconf.Text.{Bytes, codes, str_eq, split}

-- samconfUri_t, `none` for a NULL member.
pub record Uri : Type 0 where
  pub plain : Option Bytes
  pub scheme : Option Bytes
  pub authority : Option Bytes
  pub path : Option Bytes
  pub query : Option Bytes
  pub fragment : Option Bytes

abbrev pub drop : ℕ → Bytes → Bytes
drop zero s = s
drop (suc n) [] = []
drop (suc n) (c ∷ s) = drop n s

-- A `regmatch_t`: its two offsets, `none` for a group with no part in the match, of which the code
-- copies no byte.
abbrev pub matched : Bytes → Option (ℕ × ℕ) → Bytes
matched s none = []
matched s (some (from, to)) = take (to - from) (drop from s)

-- The group of a number in the list of the nine groups.
abbrev pub group : List (Option (ℕ × ℕ)) → ℕ → Option (ℕ × ℕ)
group [] i = none
group (g ∷ gs) zero = g
group (g ∷ gs) (suc i) = group gs i

-- `samconfUriInit`, with `regexec` for the pattern SAMCONF_URI_PATTERN as an argument, `none` being no
-- match. The pattern is taken to compile.
unfoldable pub uri_init : (Bytes → Option (List (Option (ℕ × ℕ)))) → Bytes → Status × Uri
uri_init regexec text = elim (regexec text) [
  | none ↦ (
    error,
    record {
      plain = none;
      scheme = none;
      authority = none;
      path = none;
      query = none;
      fragment = none;
    },
  )
  | some groups ↦ (
    ok,
    record {
      plain = some (matched text (group groups 0));
      scheme = some (matched text (group groups 2));
      authority = some (matched text (group groups 4));
      path = some (matched text (group groups 5));
      query = some (matched text (group groups 6));
      fragment = some (matched text (group groups 8));
    },
  )
]

-- `samconfUriNew`: the status and `*uri`.
unfoldable pub uri_new : (Bytes → Option (List (Option (ℕ × ℕ)))) → Bytes → Status × Option Uri
uri_new regexec text =
    let (status, uri) = uri_init regexec text in
    if is_ok status then (status, some uri) else (status, none)

-- The blocks of memory that a URI owns: its members, and the URI itself.
pub data Part : Type 0 where
  plain_part : Part
  scheme_part : Part
  authority_part : Part
  path_part : Part
  query_part : Part
  fragment_part : Part
  uri_part : Part

-- `free` of a member, of which NULL frees nothing.
abbrev pub free_part : Part → Option Bytes → List Part
free_part part none = []
free_part part (some text) = part ∷ []

-- `samconfUriDeleteMembers`: the status and what is freed, in order. The outer `none` is the access to the
-- members of a NULL pointer.
abbrev pub uri_delete_members : Option Uri → Option (Status × List Part)
uri_delete_members none = none
uri_delete_members (some uri) = some (
  ok,
  free_part plain_part uri.plain
      ++ free_part scheme_part uri.scheme
      ++ free_part authority_part uri.authority
      ++ free_part path_part uri.path
      ++ free_part query_part uri.query
      ++ free_part fragment_part uri.fragment,
)

-- `samconfUriDelete`
abbrev pub uri_delete : Option Uri → Option (Status × List Part)
uri_delete uri = elim (uri_delete_members uri) [
  | none ↦ none
  | some (status, freed) ↦ some (status, freed ++ uri_part ∷ [])
]

-- The text behind one '?' at the start.
abbrev pub without_mark : Bytes → Bytes
without_mark [] = []
without_mark (c ∷ s) = if c == b'?' then s else c ∷ s

-- What the loop of `samconfUriGetParameter` does with a token, split at '='. `crash` is the `strdup` of
-- the NULL that stands for the value of a parameter with no '='.
pub data Answer : Type 0 where
  found : Bytes → Answer
  absent : Answer
  crash : Answer

unfoldable pub search_tokens : Bytes → List Bytes → Answer
search_tokens name [] = absent
search_tokens name (token ∷ tokens) =
    let rest = search_tokens name tokens in
    elim (split b'=' token) [
      | [] ↦ rest
      | key ∷ parts ↦
          let value : Answer = elim parts [ [] ↦ crash | v ∷ more ↦ found v ] in
          if str_eq key name then value else rest
    ]

-- `samconfUriGetParameter`. The loop is entered only if a '&' follows the first token.
unfoldable pub get_parameter : Uri → Bytes → Answer
get_parameter uri name = elim uri.query [
  | none ↦ absent
  | some query ↦ elim (split b'&' (without_mark query)) [
    | [] ↦ absent
    | first ∷ tokens ↦ elim tokens [
      | [] ↦ absent
      | second ∷ more ↦ search_tokens name (first ∷ second ∷ more)
    ]
  ]
]
