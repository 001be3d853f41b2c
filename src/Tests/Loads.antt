-- ===== src/Tests/Loads.antt =====
-- Verifying, loading and merging.
use samconf.Common.{
  ℕ, zero, suc, ◌<◌, List, ◌∷◌, [], ◌++◌, none, some, Option, Bool, true, false, list_eq,
  if◌then◌else◌, ◌≡◌, ◌↔◌, arith, refl, inl, inr,
}
use samconf.Status.{Status, ok, error, invalid_signature, signature_not_found}
use samconf.Text.{Bytes, codes, str_eq}
use samconf.Signature.{Files, get_signature_for}
use samconf.Backend.{
  BackendOps, backend_init, get_backend_ops, backend_new, lookup_loop, lookup_backend,
}
use samconf.Backend.Choice.{Declines, Accepts, lookup_backend-first}
use samconf.Config.{Config, nil, object}
use samconf.Config.Merge.{
  done, merge_config, merge_loop, config_next, find_next, size, finish, follows_merge_rule,
}
use samconf.Loader.{
  verify_signature, load, load_with, loaded_by, Entry, Location, path, unknown,
  extend_with_directory, load_and_merge, load_and_merge_checked, sort_names, insert_name, str_le,
  regular_names, extend_with_files, extend_with_single_path, extend_with_location, extend_round,
  extend_with_all, combine_file, combine_location,
}
use samconf.Loader.Policy.{Went, load_iff, verify_signature-unread, verify_signature_sound}
use samconf.Loader.Statuses.{directory_status, file_statuses, extend_with_directory-status}
use samconf.Tests.{named_node, settings}

-- Operations that decline any location, and some that accept any and load the settings.
abbrev declining : BackendOps Unit
declining = record {
  supports = λ location supported. (error, supported);
  open_location = λ location handle. (error, handle);
  load = λ handle signed. some (error, none);
  close = λ handle. some error;
}

abbrev accepting : BackendOps Unit
accepting = record {
  supports = λ location supported. (ok, true);
  open_location = λ location handle. (ok, some tt);
  load = λ handle signed. some (ok, some settings);
  close = λ handle. some ok;
}

abbrev table : List (Option (BackendOps Unit))
table = some declining ∷ some accepting ∷ []

abbrev a_json : Bytes
a_json = codes "a.json"

load_iff_example :
    (load (λ location. some signature_not_found) table a_json false ≡ some (ok, some settings)) ↔ (
      (st : Status) × (◌≡◌ {A = Option Status} (some signature_not_found) (some st))
      × Went table a_json false (some settings) st)
load_iff_example =
    load_iff (λ location. some signature_not_found) table a_json false (some settings)

loads_settings :
    load (λ location. some signature_not_found) table a_json false ≡ some (ok, some settings)
unfolding load load_with loaded_by lookup_backend lookup_loop get_backend_ops backend_new
loads_settings = refl

Declines-before : (i : ℕ) → i < 1 → Declines a_json (get_backend_ops table i)
unfolding get_backend_ops
Declines-before zero h = (error, refl, λ s. refl)
Declines-before (suc i) h = absurd (omega arith)

Accepts-one : Accepts a_json (get_backend_ops table 1)
unfolding get_backend_ops
Accepts-one = λ s. refl

first_chosen : lookup_backend table a_json ≡ (ok, some (backend_init (get_backend_ops table 1)))
first_chosen = lookup_backend-first table a_json 1 (omega arith) Declines-before Accepts-one

-- A file "a.json" and its signature.
abbrev files : Files
files = record {
  readable = λ file. str_eq file (codes "a.json.sig");
  read_file = λ file.
      if str_eq file a_json
      then some (codes "{}")
      else if str_eq file (codes "a.json.sig")
      then some (codes "sig")
      else none;
}

-- Only the signature of a file "b.json".
abbrev orphan : Files
orphan = record {
  readable = λ file. str_eq file (codes "b.json.sig");
  read_file = λ file. if str_eq file (codes "b.json.sig") then some (codes "sig") else none;
}

-- A verifying function for the tests.
abbrev verify : Bytes → Bytes → Option Status
verify text signature = some (if str_eq signature (codes "sig") then ok else invalid_signature)

a_json-readable : files.read_file a_json ≡ some (codes "{}")
unfolding list_eq
a_json-readable = refl

a_json-verified : verify_signature files verify a_json ≡ some ok
unfolding verify_signature get_signature_for list_eq
a_json-verified = refl

verify_signature_sound_example :
    (signature : Bytes) × (files.readable (a_json ++ codes ".sig") ≡ true)
    × (files.read_file (a_json ++ codes ".sig") ≡ some signature)
    × (verify (codes "{}") signature ≡ some ok)
verify_signature_sound_example =
    verify_signature_sound files verify a_json (codes "{}") a_json-readable a_json-verified

orphan-readable : orphan.readable (codes "b.json" ++ codes ".sig") ≡ true
unfolding list_eq
orphan-readable = refl

orphan-signature : orphan.read_file (codes "b.json" ++ codes ".sig") ≡ some (codes "sig")
unfolding list_eq
orphan-signature = refl

orphan-unread : orphan.read_file (codes "b.json") ≡ none
unfolding list_eq
orphan-unread = refl

verify_signature-unread_example :
    verify_signature orphan (λ text signature. some invalid_signature) (codes "b.json") ≡ some ok
verify_signature-unread_example =
    verify_signature-unread orphan (λ text signature. some invalid_signature) (codes "b.json")
      (codes "sig") orphan-readable orphan-signature orphan-unread

-- Loading a path: one file has a broken signature, the others hold an empty tree.
abbrev load_path : Bytes → Bool → Option (Status × Option Config)
load_path location enforce =
    if str_eq location (codes "d/bad")
    then some (invalid_signature, none)
    else some (ok, some (named_node (codes "config") false object nil))

abbrev entries : List Entry
entries =
    record { name = codes "good"; regular = true }
    ∷ record { name = codes "sub"; regular = false }
    ∷ record { name = codes "bad"; regular = true }
    ∷ []

extended :
    extend_with_directory load_path entries true (codes "d") settings
    ≡ done invalid_signature settings
unfolding extend_with_directory extend_with_files extend_with_single_path sort_names insert_name
    str_le regular_names combine_file merge_config merge_loop config_next find_next size
    follows_merge_rule finish list_eq
extended = refl

extend_with_directory-status_example :
    invalid_signature
    ≡ directory_status
        (file_statuses load_path (codes "d") true (sort_names (regular_names entries)) settings)
extend_with_directory-status_example =
    extend_with_directory-status load_path entries true (codes "d") settings settings
      invalid_signature extended

abbrev list_dir : Bytes → Option (List Entry)
list_dir location = if str_eq location (codes "d") then some entries else none

abbrev locations : List Location
locations = path (some (codes "e")) false ∷ unknown ∷ path (some (codes "d")) true ∷ []

merged :
    load_and_merge load_path list_dir locations (some settings) ≡ done invalid_signature settings
unfolding load_and_merge extend_with_all extend_round extend_with_location combine_location
    extend_with_directory extend_with_files extend_with_single_path sort_names insert_name str_le
    regular_names combine_file merge_config merge_loop config_next find_next size follows_merge_rule
    finish list_eq
merged = refl

-- A call without locations or without a place for the tree.
called_without : load_and_merge_checked load_path list_dir none (some none) ≡ inl error
unfolding load_and_merge_checked
called_without = refl

called_with :
    load_and_merge_checked load_path list_dir (some locations) (some (some settings))
    ≡ inr (done invalid_signature settings)
unfolding load_and_merge_checked
called_with = rw merged
