-- ===== src/Loader.antt =====
-- samconf.c: `samconfVerifySignature`, `samconfLoad` and `samconfLoadAndMerge`.
pub mod Policy
pub mod Statuses
pub mod Reached
pub mod Provenance
use samconf.Common.{
  Bool, true, false, not, ◌&&◌, ◌||◌, List, [], ◌∷◌, ◌++◌, Option, none, some, if◌then◌else◌, ltb,
  ◌==◌, take, ◌⊎◌, inl, inr,
}
use samconf.Status.{
  Status, ok, error, not_found, invalid_signature, signature_not_found, overwrite_not_allowed,
  is_ok, is_error, is_not_found, is_signature_not_found, is_invalid_signature,
  is_overwrite_not_allowed,
}
use samconf.Text.{Bytes, slash}
use samconf.Signature.{Files, get_signature_for}
use samconf.Backend.{BackendOps, Backend, backend_delete, lookup_backend}
use samconf.Config.{Config, config, nil, object, config_new, with_value}
use samconf.Config.Merge.{Outcome, done, fault, out_of_fuel, merge_config}

-- `samconfVerifySignature`, with `samconfCryptoUtilsVerify` on data and signature as an argument,
-- whose `none` is a read outside of the memory. When the file cannot be read the status stays what
-- the search for the signature set.
unfoldable pub verify_signature : Files → (Bytes → Bytes → Option Status) → Bytes → Option Status
verify_signature files verify location =
    let (status, signature) = get_signature_for files location in
    elim signature [
      | none ↦ some status
      | some sig ↦ elim (files.read_file location) [
        | none ↦ some status
        | some text ↦ if is_ok status then verify text sig else some status
      ]
    ]

-- The status of `samconfLoad` after the backend was deleted, and what is stored in `*config`. The tree
-- that a failed load leaves is deleted.
unfoldable pub loaded_by :
    {H : Type 0} → Backend H → Status → Option Config → Status × Option Config
loaded_by backend status tree =
    let deleted = backend_delete backend in
    let status' : Status = if is_ok deleted then status else deleted in
    if is_ok status' then (status', tree) else (status', none)

module _ {H : Type 0} where
  -- What `samconfLoad` does with the backend that it found: open, load, close, delete.
  unfoldable pub load_with : Backend H → Bytes → Bool → Option (Status × Option Config)
  unfolding loaded_by
  load_with backend location signed =
      let (opened, handle) = backend.ops.open_location location backend.backend_handle in
      let loading : Option (Status × Option Config) = elim (backend.ops.load handle signed) [
        | none ↦ none
        | some (loaded, tree) ↦ elim (backend.ops.close handle) [
          | none ↦ none
          | some closed ↦ some (loaded_by backend (if is_ok closed then loaded else closed) tree)
        ]
      ] in
      if is_ok opened then loading else some (loaded_by backend opened none)

  -- `samconfLoad`, with `samconfVerifySignature` and the table of backends as arguments: the status
  -- and what is stored in `*config`, `none` as above.
  unfoldable pub load :
      (Bytes → Option Status)
      → List (Option (BackendOps H))
      → Bytes
      → Bool
      → Option (Status × Option Config)
  load verify table location enforce_signature = elim (verify location) [
    | none ↦ none
    | some status ↦
        let signed = is_ok status in
        if signed || (is_signature_not_found status && not enforce_signature)
        then (let (looked_up, backend) = lookup_backend table location in
            elim backend [
              | none ↦ some (not_found, none)
              | some b ↦
                  if is_ok looked_up then load_with b location signed else some (not_found, none)
            ])
        else some (status, none)
  ]

-- `strncmp(a, b, 256) <= 0` on names of at most 255 bytes.
unfoldable pub str_le : Bytes → Bytes → Bool
str_le [] b = true
str_le (x ∷ a) [] = false
str_le (x ∷ a) (y ∷ b) = ltb x y || ((x == y) && str_le a b)

-- `qsort` with `_cmp`, which orders the names upwards. The names of a directory differ, so that any
-- sorting gives the same list.
unfoldable pub insert_name : Bytes → List Bytes → List Bytes
insert_name a [] = a ∷ []
insert_name a (b ∷ names) = if str_le a b then a ∷ b ∷ names else b ∷ insert_name a names

unfoldable pub sort_names : List Bytes → List Bytes
sort_names [] = []
sort_names (a ∷ names) = insert_name a (sort_names names)

-- An entry that `readdir` returns: its name, and whether `d_type` is DT_REG.
pub record Entry : Type 0 where
  pub name : Bytes
  pub regular : Bool

-- The loop over `readdir`.
unfoldable pub regular_names : List Entry → List Bytes
regular_names [] = []
regular_names (e ∷ entries) =
    let names = regular_names entries in if e.regular then take 255 e.name ∷ names else names

-- What `_extendWithDirectory` makes of its result and the status of one more file.
unfoldable pub combine_file : Status → Status → Status
combine_file result res =
    if is_invalid_signature res
    then invalid_signature
    else if is_ok res && not (is_invalid_signature result)
    then ok
    else if is_overwrite_not_allowed res && not (is_ok result) && not (is_invalid_signature result)
    then overwrite_not_allowed
    else if is_signature_not_found res
        && not (is_overwrite_not_allowed result)
        && not (is_ok result)
        && not (is_invalid_signature result)
    then signature_not_found
    else result

-- samconfConfigLocation_t. `unknown` is any other value of `type`.
pub data Location : Type 0 where
  path : Option Bytes → Bool → Location
  tree : Option Config → Location
  unknown : Location

-- What `samconfLoadAndMerge` makes of its status and the result for one more location.
unfoldable pub combine_location : Status → Status → Status
combine_location status res =
    if is_invalid_signature res || (is_error res && not (is_invalid_signature status))
    then res
    else if is_not_found status && is_ok res
    then ok
    else status

-- Over `samconfLoad` on a path with or without enforcement.
module _ (load_path : Bytes → Bool → Option (Status × Option Config)) where
  -- `_extendWithSinglePath`. `samconfConfigDelete` of the added tree does not change the result.
  unfoldable pub extend_with_single_path : Bytes → Bool → Config → Outcome
  extend_with_single_path location enforce conf = elim (load_path location enforce) [
    | none ↦ fault
    | some (res, added) ↦ if is_ok res then merge_config conf added else done res conf
  ]

  -- The loop of `_extendWithDirectory` over the sorted names.
  unfoldable pub extend_with_files : Bytes → Bool → List Bytes → Status → Config → Outcome
  extend_with_files dir enforce [] result conf = done result conf
  extend_with_files dir enforce (name ∷ names) result conf =
      elim (extend_with_single_path (dir ++ slash ∷ name) enforce conf) [
        | done res conf' ↦ extend_with_files dir enforce names (combine_file result res) conf'
        | fault ↦ fault
        | out_of_fuel ↦ out_of_fuel
      ]

  -- `_extendWithDirectory`
  unfoldable pub extend_with_directory : List Entry → Bool → Bytes → Config → Outcome
  extend_with_directory entries enforce dir conf =
      extend_with_files dir enforce (sort_names (regular_names entries)) not_found conf

-- And over `opendir` with the entries that `readdir` yields, `none` if there is no such directory.
module _ (load_path : Bytes → Bool → Option (Status × Option Config))
    (list_dir : Bytes → Option (List Entry)) where
  -- `_extendWithLocation`
  unfoldable pub extend_with_location : Option Bytes → Bool → Config → Outcome
  extend_with_location none enforce conf = done not_found conf
  extend_with_location (some p) enforce conf = elim (list_dir p) [
    | some entries ↦ extend_with_directory load_path entries enforce p conf
    | none ↦ extend_with_single_path load_path p enforce conf
  ]

  -- One round of the loop of `samconfLoadAndMerge`; `none` is the `continue` of an unknown type.
  unfoldable pub extend_round : Location → Config → Option Outcome
  extend_round (path p enforce) conf = some (extend_with_location p enforce conf)
  extend_round (tree t) conf = some (merge_config conf t)
  extend_round unknown conf = none

  unfoldable pub extend_with_all : List Location → Status → Config → Outcome
  extend_with_all [] status conf = done status conf
  extend_with_all (l ∷ ls) status conf = elim (extend_round l conf) [
    | none ↦ extend_with_all ls status conf
    | some (done res conf') ↦ extend_with_all ls (combine_location status res) conf'
    | some fault ↦ fault
    | some out_of_fuel ↦ out_of_fuel
  ]

  -- `samconfLoadAndMerge` behind its checks for NULL, `none` standing for a NULL `*config`; it then
  -- starts from an object.
  unfoldable pub load_and_merge : List Location → Option Config → Outcome
  load_and_merge locations none = extend_with_all locations not_found (with_value object config_new)
  load_and_merge locations (some conf) = extend_with_all locations not_found conf

  -- `samconfLoadAndMerge` with the checks for a NULL `locations` and a NULL `config`. `inl` is a
  -- status without a tree.
  unfoldable pub load_and_merge_checked :
      Option (List Location) → Option (Option Config) → Status ⊎ Outcome
  load_and_merge_checked none config_slot = inl error
  load_and_merge_checked (some locations) none = inl error
  load_and_merge_checked (some locations) (some conf) = inr (load_and_merge locations conf)
