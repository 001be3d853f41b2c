-- ===== src/System.antt =====
-- The library as it is put together in src/samconf/private/samconf.c: `samconfBackendOps` with the two
-- backends, `samconfVerifySignature` on `samconfCryptoUtilsVerify`, and the loading on both.
pub mod Enforced
pub mod Environment
pub mod Verified
pub mod Complete
use samconf.Common.{ℕ, Bool, true, false, List, [], ◌∷◌, Option, none, some}
use samconf.Status.{Status, error}
use samconf.Text.{Bytes}
use samconf.Config.{Config}
use samconf.Config.Merge.{Outcome}
use samconf.Signature.{Files}
use samconf.Backend.{BackendOps, dummy_ops}
use samconf.Loader.{Entry, Location, verify_signature, load, load_and_merge}
use samconf.Json.{Json, JsonC, JsonFiles, json_ops}
use samconf.Env.{env_ops}
use samconf.Uri.{Uri}
use samconf.Crypto.{Ssl, crypto_verify}

-- What `backendHandle` can point to.
pub data Handle : Type 0 where
  json_handle : Json → Handle
  uri_handle : Uri → Handle

-- The handles of one backend among all: how it is stored, and how it is read back.
pub record Kind (H : Type 0) : Type 0 where
  pub store : H → Handle
  pub read : Handle → Option H

abbrev json_kind : Kind Json
json_kind = record {
  store = json_handle;
  read = λ h. elim h [ json_handle j ↦ some j | uri_handle u ↦ none ];
}

abbrev pub uri_kind : Kind Uri
uri_kind = record {
  store = uri_handle;
  read = λ h. elim h [ json_handle j ↦ none | uri_handle u ↦ some u ];
}

-- The pointer as the backend takes it. The outer `none` is the handle of another backend, which no
-- backend is given: each gets what its own `open` stored.
abbrev handle_of : {H : Type 0} → Kind H → Option Handle → Option (Option H)
handle_of kind none = some none
handle_of kind (some h) = elim (kind.read h) [ none ↦ none | some own ↦ some (some own) ]

abbrev stored : {H : Type 0} → Kind H → Option H → Option Handle
stored kind none = none
stored kind (some own) = some (kind.store own)

-- The operations of a backend in the table.
abbrev of_kind : {H : Type 0} → Kind H → BackendOps H → BackendOps Handle
of_kind kind ops = record {
  supports = ops.supports;
  open_location = λ location handle. elim (handle_of kind handle) [
    | none ↦ (error, handle)
    | some own ↦ let (status, own') = ops.open_location location own in (status, stored kind own')
  ];
  load = λ handle signed. elim (handle_of kind handle) [
    | none ↦ none
    | some own ↦ ops.load own signed
  ];
  close = λ handle. elim (handle_of kind handle) [ none ↦ none | some own ↦ ops.close own ];
}

-- What is outside of the library: the files, the listing of directories, json-c, the matching of URIs by
-- `regexec`, `strtod`, the environment, and OpenSSL.
pub record World (K D : Type 0) : Type 0 where
  pub files : Files
  pub list_dir : Bytes → Option (List Entry)
  pub json_c : JsonC
  pub json_files : JsonFiles
  pub regexec : Bytes → Option (List (Option (ℕ × ℕ)))
  pub strtod : Bytes → ℕ × Bytes
  pub environ : List Bytes
  pub ssl : Ssl K D

module _ {K D : Type 0} (world : World K D) where
  -- `samconfBackendOps` in a build with both backends.
  abbrev pub backend_table : List (Option (BackendOps Handle))
  backend_table =
      some (of_kind json_kind (json_ops world.json_c world.json_files))
      ∷ some (of_kind uri_kind (env_ops world.regexec world.strtod world.environ))
      ∷ some dummy_ops
      ∷ []

  -- `samconfVerifySignature`
  abbrev pub verify_location : Bytes → Option Status
  verify_location = verify_signature world.files (crypto_verify world.ssl world.regexec)

  -- `samconfLoad`
  unfoldable pub samconf_load : Bytes → Bool → Option (Status × Option Config)
  samconf_load location enforce = load verify_location backend_table location enforce

  -- `samconfLoadAndMerge`
  unfoldable pub samconf_load_and_merge : List Location → Option Config → Outcome
  samconf_load_and_merge locations conf = load_and_merge samconf_load world.list_dir locations conf
