-- ===== src/Env.antt =====
-- src/samconf/private/env_backend.c: configurations from the environment.
pub mod Load
use samconf.Common.{
  ℕ, zero, suc, Bool, true, false, List, [], ◌∷◌, Option, none, some, ltb, length, ◌==◌,
  if◌then◌else◌, take,
}
use samconf.Status.{Status, ok, error, is_ok}
use samconf.Text.{Bytes, codes, str_case_eq, contains}
use samconf.Config.{Config, object, nil, config}
use samconf.Config.FromString.{create_from_string_at}
use samconf.Config.Merge.{config_or}
use samconf.Backend.{BackendOps}
use samconf.Uri.{uri_delete, Uri, uri_new, Answer, found, absent, crash, get_parameter}

-- `samconfEnvBackendSupports`
unfoldable pub env_supports : Bytes → Bool → Status × Bool
env_supports location supported =
    if str_case_eq (take 3 location) (codes "env") then (ok, true) else (error, supported)

-- `strcasecmp(uri->scheme, "env") == 0`. A URI that `samconfUriNew` makes has a scheme.
abbrev pub scheme_is_env : Uri → Bool
scheme_is_env uri = elim uri.scheme [
  | none ↦ false
  | some scheme ↦ str_case_eq scheme (codes "env")
]

-- `samconfEnvBackendOpen`: the status and `backendHandle`.
unfoldable pub env_open :
    (Bytes → Option (List (Option (ℕ × ℕ)))) → Bytes → Option Uri → Status × Option Uri
env_open regexec location handle =
    let (status, made) = uri_new regexec location in
    elim made [
      | none ↦ (status, handle)
      | some uri ↦ if scheme_is_env uri then (status, some uri) else (error, handle)
    ]

-- `_replaceCharsInString`, from the character on after which len - i more may be replaced.
unfoldable pub replace_chars : Bytes → ℕ → ℕ → ℕ → Bytes
replace_chars [] left old new = []
replace_chars (c ∷ s) zero old new = c ∷ s
replace_chars (c ∷ s) (suc left) old new =
    let rest = replace_chars s left old new in (if c == old then new else c) ∷ rest

-- An entry of `environ` cut at the first '='. Behind an entry with no '=' there is no value: `val`
-- points past the end of the copy.
unfoldable pub cut_entry : Bytes → Bytes × Option Bytes
cut_entry [] = ([], none)
cut_entry (c ∷ s) =
    let (key, val) = cut_entry s in if c == b'=' then ([], some s) else (c ∷ key, val)

-- The path that the name of a variable is turned into.
unfoldable pub path_of_name : Bytes → Bytes
path_of_name key =
    let replaced = replace_chars key (length key) b'_' b'/' in
    if ltb 1 (length key) then replaced else key

-- The status and the tree, or `crash` for a read outside of the memory.
pub data Loaded : Type 0 where
  loaded : Status → Config → Loaded
  crashed : Loaded

module _ (strtod : Bytes → ℕ × Bytes) where
  -- The loop over `environ`. A `char *` makes `samconfCreateAt` `samconfCreateFromStringAt`.
  unfoldable pub env_loop : Bytes → List Bytes → Status → Config → Loaded
  env_loop filter [] result root = loaded result root
  env_loop filter (entry ∷ entries) result root =
      let (key, val) = cut_entry entry in
      let skipped = env_loop filter entries result root in
      let made : Loaded = elim val [
        | none ↦ crashed
        | some v ↦
            let (status, root') =
              create_from_string_at strtod (some root) (some (path_of_name key)) (some v) in
            let further = env_loop filter entries status (config_or root root') in
            if is_ok status then further else loaded status (config_or root root')
      ] in
      if contains filter key then made else skipped

  -- `_transform_env_to_config` on the tree that `samconfEnvBackendLoad` starts from.
  unfoldable pub transform_env : List Bytes → Uri → Config → Loaded
  transform_env environ uri root = elim (get_parameter uri (codes "envPrefix")) [
    | found filter ↦ env_loop filter environ ok root
    | absent ↦ loaded error root
    | crash ↦ crashed
  ]

  -- `samconfEnvBackendLoad` with a `backendHandle` that is not NULL.
  unfoldable pub env_load : List Bytes → Uri → Bool → Loaded
  env_load environ uri signed =
      transform_env environ uri
        (config (record { key = some (codes "root"); is_signed = signed; value = object }) nil)

  -- The same on any handle. The message about a NULL handle reads `uri->plain`.
  unfoldable pub env_load_handle : List Bytes → Option Uri → Bool → Option (Status × Option Config)
  env_load_handle environ none signed = none
  env_load_handle environ (some uri) signed = elim (env_load environ uri signed) [
    | loaded status c ↦ some (status, some c)
    | crashed ↦ none
  ]

-- `samconfEnvBackendClose`; `samconfUriDelete` of a NULL handle reads through it.
unfoldable pub env_close : Option Uri → Option Status
env_close handle = elim (uri_delete handle) [ none ↦ none | some (status, freed) ↦ some status ]

-- `samconfEnvOps`
unfoldable pub env_ops :
    (Bytes → Option (List (Option (ℕ × ℕ)))) → (Bytes → ℕ × Bytes) → List Bytes → BackendOps Uri
env_ops regexec strtod environ = record {
  supports = env_supports;
  open_location = env_open regexec;
  load = env_load_handle strtod environ;
  close = env_close;
}
