-- ===== src/Tests/Example.antt =====
-- The program env_example on the whole library.
use samconf.Common.{List, [], ◌∷◌, ◌++◌, none, some, true, false, ◌≡◌, refl, list_eq, if◌then◌else◌}
use samconf.Status.{ok}
use samconf.Text.{
  scan_digits, skip_space, strtoll, tokens_from, basename, Bytes, codes, str_eq, split, split_from,
  contains, starts_with, to_lower,
}
use samconf.Dump.{Printf}
use samconf.System.{World, samconf_load}
use samconf.Demo.EnvExample.{set_env_variables, show_paths, exits, columns, env_example_main}
use samconf.Loader.{load, verify_signature, load_with, loaded_by}
use samconf.Signature.{get_signature_for}
use samconf.Backend.{lookup_backend, lookup_loop, get_backend_ops, backend_new}
use samconf.Json.{json_ops, json_supports, after_last, decimal, digits_from}
use samconf.Env.{
  env_ops, env_supports, env_open, cut_entry, env_close, env_load, env_load_handle, env_loop,
  path_of_name, replace_chars, transform_env,
}
use samconf.Config.Delete.{config_delete, delete}
use samconf.Config.FromString.{create_from_string_at, set_value_from_string, value_of}
use samconf.Config.Get.{samconf_get, walk_segments, scan_children, config_get, find_child, get_walk}
use samconf.Config.Insert.{create_at, insert_at, insert_loop}
use samconf.Config.{modify_at, config_add, set_bool, set_int, set_real, set_string, subtree}
use samconf.Path.{get_path_until, create_array, segment_count, segments}
use samconf.Uri.{get_parameter, search_tokens, uri_init, uri_new}
use samconf.Tests.Documents.{json_c}
use samconf.Tests.Signatures.{ssl}

abbrev printf : Printf
printf = record { real_text = λ bits. codes "1.986500"; null_text = codes "(null)" }

-- The world of the program in an environment, where the only real number is 1.9865, given by some
-- bits.
abbrev world : List Bytes → World Unit Unit
world environ = record {
  files = record { readable = λ file. false; read_file = λ file. none };
  list_dir = λ dir. none;
  json_c = json_c;
  json_files = record { exists = λ file. false; from_file = λ file. none; put = λ root. true };
  regexec = λ text. some (
      some (0, 38)
      ∷ some (0, 4)
      ∷ some (0, 3)
      ∷ some (4, 6)
      ∷ some (6, 6)
      ∷ some (6, 6)
      ∷ some (6, 38)
      ∷ none
      ∷ none
      ∷ []);
  strtod = λ text. if str_eq text (codes "1.9865") then (7, []) else (0, text);
  environ = environ;
  ssl = ssl;
}

abbrev setenv : List Bytes → Bytes → Bytes → List Bytes
setenv environ name value = environ ++ (name ++ b'=' ∷ value) ∷ []

prints_rows :
    env_example_main printf setenv (λ environ. samconf_load (world environ)) (codes "HOME=/" ∷ [])
    ≡ exits ok (
        columns (codes "PATH") (codes "KEY") (codes "VALUE") (codes "TYPE")
        ++ columns
            (codes "SAMCONF/VARIABLE/STRING")
            (codes "STRING")
            (codes "utest string")
            (codes "1")
        ++ columns (codes "SAMCONF/VARIABLE/INT") (codes "INT") (codes "42") (codes "2")
        ++ columns (codes "SAMCONF/VARIABLE/REAL") (codes "REAL") (codes "1.986500") (codes "3")
        ++ columns (codes "SAMCONF/VARIABLE/BOOL") (codes "BOOL") (codes "1") (codes "4")
        ++ columns (codes "SAMCONF/SAMCONF/VARIABLE/INT") (codes "INT") (codes "42") (codes "2"))
unfolding env_example_main samconf_load load verify_signature get_signature_for lookup_backend
    lookup_loop get_backend_ops json_ops json_supports after_last env_ops env_supports list_eq
    to_lower backend_new load_with env_open config_delete delete create_from_string_at
    set_value_from_string value_of samconf_get walk_segments scan_children config_get create_at
    insert_at insert_loop modify_at get_path_until find_child get_walk config_add set_bool set_int
    set_real set_string subtree set_env_variables show_paths cut_entry env_close env_load
    env_load_handle env_loop path_of_name replace_chars transform_env decimal digits_from loaded_by
    create_array segment_count segments contains scan_digits skip_space split split_from starts_with
    strtoll tokens_from basename get_parameter search_tokens uri_init uri_new
prints_rows = refl
