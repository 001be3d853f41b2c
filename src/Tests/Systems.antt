-- ===== src/Tests/Systems.antt =====
-- Loading by the whole library: a signed file, and the environment.
use samconf.Common.{
  ℕ, List, ◌∷◌, All, take, true, false, [], ◌++◌, Option, none, some, ◌≡◌, refl, list_eq,
  if◌then◌else◌,
}
use samconf.Common.Int.{pos, to_int32}
use samconf.Status.{ok, error, signature_not_found}
use samconf.Text.{str_case_eq, split, split_from, Bytes, codes, str_eq, to_lower}
use samconf.Config.{
  Config, Value, integer, config, nil, cons, subtree, modify_at, copy_value, copy_config,
  config_add, set_int,
}
use samconf.Config
use samconf.Signature.{Files, get_signature_for}
use samconf.Backend.{lookup_backend, lookup_loop, get_backend_ops, backend_new}
use samconf.Path.{create_array, get_path, get_path_until}
use samconf.Config.Insert.{insert_at}
use samconf.Config.Get.{samconf_get, walk_segments, scan_children, config_get, get_walk, find_child}
use samconf.Config.Merge.{
  done, config_next, find_next, follows_merge_rule, key_chain, path_of, overwrite, place,
  merge_node, finish, merge_loop, size, merge_config,
}
use samconf.Loader.{
  Location, path, verify_signature, load, load_with, loaded_by, combine_location,
  extend_with_single_path, extend_with_location, extend_round, extend_with_all, load_and_merge,
}
use samconf.Loader.Provenance.{start_of}
use samconf.Loader.Reached.{Reached}
use samconf.System.Verified.{IsTrusted, samconf_load_and_merge-IsTrusted}
use samconf.Json.{
  Json, object, field, no_fields, int, json_ops, json_supports, json_open, json_load, json_close,
  transform, after_last, dump,
}
use samconf.Json.Marks.{AllMarked}
use samconf.Uri.{Uri, found, get_parameter, search_tokens, uri_new, uri_init}
use samconf.Crypto.{
  crypto_verify, load_public_key, check_path, check_digest, base64_decode, padding_loop,
}
use samconf.System.{World, samconf_load, samconf_load_and_merge}
use samconf.System.Enforced.{samconf_load-enforced}
use samconf.Env.{scheme_is_env}
use samconf.Env.Load.{IsPlaced}
use samconf.System.Environment.{samconf_load-environment}
use samconf.Tests.Variables.{environ, environ-IsVariable}
use samconf.Tests.{named_node}
use samconf.Tests.Documents.{json_c, json_c-Documented, document, document-IsPlain}
use samconf.System.Complete.{samconf_load-dump}
use samconf.Tests.Signatures.{verified, ssl, regexec, signature}

abbrev a_json : Bytes
a_json = codes "a.json"

-- {"a": 7}
abbrev a_document : Json
a_document = object (field (codes "a") (int (pos 7)) no_fields)

abbrev files : Files
files = record {
  readable = λ file. true;
  read_file = λ file. if str_eq file a_json then some (codes "{}") else some signature;
}

abbrev world : World Unit Unit
world = record {
  files = files;
  list_dir = λ dir. none;
  json_c = json_c;
  json_files = record {
    exists = λ file. true;
    from_file = λ file. some a_document;
    put = λ root. true;
  };
  regexec = regexec;
  strtod = λ text. (0, text);
  environ = [];
  ssl = ssl;
}

abbrev a_tree : Config
a_tree =
    named_node (codes "config") true Config.object
      (cons (named_node (codes "a") true (integer (pos 7)) nil) nil)

a_json-supported : json_supports a_json false ≡ (ok, true)
unfolding json_supports list_eq after_last to_lower
a_json-supported = refl

loads_signed : samconf_load world a_json true ≡ some (ok, some a_tree)
unfolding samconf_load load load_with loaded_by lookup_backend lookup_loop get_backend_ops
    backend_new json_ops json_supports json_open json_load json_close transform config_add set_int
    to_int32 list_eq after_last to_lower verify_signature get_signature_for crypto_verify uri_new
    uri_init load_public_key check_path base64_decode padding_loop check_digest
loads_signed = refl

samconf_load-enforced_example :
    (signature : Bytes) × (root : Json) × (c : Config) × (world.files.readable
        (a_json ++ codes ".sig")
      ≡ true)
    × (world.files.read_file (a_json ++ codes ".sig") ≡ some signature)
    × (crypto_verify world.ssl world.regexec (codes "{}") signature ≡ some ok)
    × (world.json_files.from_file a_json ≡ some root)
    × (json_load world.json_c world.json_files (some root) true ≡ (ok, some c))
    × (◌≡◌ {A = Option Config} (some a_tree) (some c))
    × AllMarked true c
unfolding list_eq
samconf_load-enforced_example =
    samconf_load-enforced world a_json (codes "{}") (some a_tree) a_json-supported refl loads_signed

abbrev env_location : Bytes
env_location = codes "env://?envPrefix=APP&x=1"

-- The groups of that location in the pattern of URIs.
abbrev env_groups : Bytes → Option (List (Option (ℕ × ℕ)))
env_groups text = some (
    some (0, 24)
    ∷ some (0, 4)
    ∷ some (0, 3)
    ∷ some (4, 6)
    ∷ some (6, 6)
    ∷ some (6, 6)
    ∷ some (6, 24)
    ∷ none
    ∷ none
    ∷ [])

abbrev env_world : World Unit Unit
env_world = record world {
  files = record { readable = λ file. false; read_file = λ file. none };
  regexec = env_groups;
  environ = environ;
}

abbrev env_uri : Uri
env_uri = record {
  plain = some env_location;
  scheme = some (codes "env");
  authority = some [];
  path = some [];
  query = some (codes "?envPrefix=APP&x=1");
  fragment = some [];
}

env_declined : json_supports env_location false ≡ (error, false)
unfolding json_supports after_last list_eq
env_declined = refl

env_named : str_case_eq (take 3 env_location) (codes "env") ≡ true
unfolding list_eq to_lower
env_named = refl

env_parsed : uri_new env_groups env_location ≡ (ok, some env_uri)
unfolding uri_new uri_init
env_parsed = refl

env_scheme : scheme_is_env env_uri ≡ true
unfolding list_eq to_lower
env_scheme = refl

env_filter : get_parameter env_uri (codes "envPrefix") ≡ found (codes "APP")
unfolding get_parameter search_tokens split split_from list_eq
env_filter = refl

samconf_load-environment_example :
    (samconf_load env_world env_location true ≡ some (signature_not_found, none))
    × ((root : Config) × (samconf_load env_world env_location false ≡ some (ok, some root))
        × All (IsPlaced (codes "APP") root) environ)
samconf_load-environment_example =
    samconf_load-environment env_world env_location env_uri (codes "APP") refl env_declined
      env_named env_parsed env_scheme env_filter environ-IsVariable

-- The same files with the document {"root": {"a": 7}}.
abbrev rooted_world : World Unit Unit
rooted_world = record world {
  json_files = record {
    exists = λ file. true;
    from_file = λ file. some (object (field (codes "root") a_document no_fields));
    put = λ root. true;
  };
}

-- What the merge of the signed file into a new object makes.
abbrev a_merged : Config
a_merged =
    config (record { key = none; is_signed = true; value = Config.object })
      (cons
        (named_node (codes "root") true Config.object
          (cons (named_node (codes "a") true (integer (pos 7)) nil) nil))
        nil)

abbrev a_locations : List Location
a_locations = path (some a_json) true ∷ []

merges_signed : samconf_load_and_merge rooted_world a_locations none ≡ done ok a_merged
unfolding samconf_load_and_merge load_and_merge extend_with_all extend_round extend_with_location
    extend_with_single_path combine_location merge_config merge_loop size config_next find_next
    merge_node copy_config copy_value path_of key_chain get_path place samconf_get create_array
    walk_segments scan_children config_get get_walk find_child overwrite subtree modify_at finish
    follows_merge_rule insert_at get_path_until samconf_load load load_with loaded_by lookup_backend
    lookup_loop get_backend_ops backend_new json_ops json_supports json_open json_load json_close
    transform config_add set_int to_int32 list_eq after_last to_lower verify_signature
    get_signature_for crypto_verify uri_new uri_init load_public_key check_path base64_decode
    padding_loop check_digest
merges_signed = refl

samconf_load_and_merge-IsTrusted_example :
    Reached (IsTrusted rooted_world a_locations) (start_of none) a_merged
samconf_load_and_merge-IsTrusted_example =
    samconf_load_and_merge-IsTrusted rooted_world a_locations none ok a_merged (refl, tt)
      merges_signed

-- The same files with another document.
abbrev document_world : World Unit Unit
document_world = record world {
  json_files = record {
    exists = λ file. true;
    from_file = λ file. some document;
    put = λ root. true;
  };
}

a_json-readable : world.files.read_file a_json ≡ some (codes "{}")
unfolding list_eq
a_json-readable = refl

a_json-signature : world.files.read_file (a_json ++ codes ".sig") ≡ some signature
unfolding list_eq
a_json-signature = refl

samconf_load-dump_example :
    (c : Config) × (samconf_load document_world a_json true ≡ some (ok, some c))
    × (dump json_c c ≡ document)
    × AllMarked true c
samconf_load-dump_example =
    samconf_load-dump document_world a_json (codes "{}") signature true document a_json-supported
      refl a_json-signature a_json-readable verified refl refl refl json_c-Documented
      document-IsPlain
