-- ===== src/Tests/Gets.antt =====
-- Reading, inserting and creating.
use samconf.Common.{◌∷◌, [], none, some, true, false, list_eq, ◌≡◌, ◌≢◌, refl}
use samconf.Common.Int.{pos, to_int32}
use samconf.Status.{Status, ok, not_found}
use samconf.Text.{Bytes, codes, last_or}
use samconf.Path.{segments, create_array}
use samconf.Config.{Config, config_new, object, cons, nil, Position, node, subtree}
use samconf.Config.Get.{
  scan_children, walk_segments, samconf_get, key_is, find_child, get_walk, config_get, get_bool,
  get_int32, get_real, get_string,
}
use samconf.Config.Get.Resolve.{resolve, answer, samconf_get-resolve, get_typed_faults}
use samconf.Config.Get.Crash.{IsKeyed}
use samconf.Config.Tree.{SameNode}
use samconf.Config.Insert.{
  insert_at, create_int_at, create_bool_at, create_real_at, create_string_at,
}
use samconf.Config.Insert.Laws.{insert_at-get, insert_at-existing, insert_at-frame}
use samconf.Config.Insert.Create.{Creates, create_at-get_typed}
use samconf.Common.{ℕ, arith}
use samconf.Common.Int.{negsuc}
use samconf.Text.{strtoll, skip_space, scan_digits, to_lower}
use samconf.Json.{decimal}
use samconf.Config.Get.{
  to_bool, to_integer, to_real, to_string, get_bool_or, get_int32_or, get_real_or, get_string_or,
}
use samconf.Config.Get.Defaults.{read_or, get_or-read_or}
use samconf.Config.{integer}
use samconf.Config.FromString.{value_of, create_from_string_at}
use samconf.Config.FromString.Decimals.{create_from_string_at-decimal}
use samconf.Tests.{named_node, settings, port}

-- Each node of the settings has a key.
settings-IsKeyed : IsKeyed settings
unfolding IsKeyed
settings-IsKeyed = (((_, refl), ((_, refl), tt, tt), ((_, refl), tt, tt)))

abbrev port_path : Bytes
port_path = codes "server/port"

abbrev host_path : Bytes
host_path = codes "/server/net/host"

abbrev host : Config
host = named_node (codes "host") false object nil

port_path-ne-nil : segments port_path ≢ []
unfolding segments
port_path-ne-nil = cc

host_path-ne-nil : segments host_path ≢ []
unfolding segments
host_path-ne-nil = cc

get_port : config_get (some settings) (some port_path) ≡ (ok, some (0 ∷ 0 ∷ []))
unfolding config_get list_eq create_array get_walk find_child
get_port = refl

get_host : config_get (some settings) (some host_path) ≡ (not_found, none)
unfolding config_get list_eq create_array get_walk find_child
get_host = refl

-- The node that the read finds, and the path that leads nowhere, as `samconfConfigGet` gives them.
got_port : samconf_get (some settings) (some port_path) ≡ some (ok, some (0 ∷ 0 ∷ []))
unfolding samconf_get list_eq create_array walk_segments scan_children
got_port = refl

got_no_host : samconf_get (some settings) (some host_path) ≡ some (not_found, none)
unfolding samconf_get list_eq create_array walk_segments scan_children
got_no_host = refl

-- A root with a child that has no key, as `samconfConfigNew` and `samconfConfigAdd` make it.
abbrev keyless : Config
keyless = named_node (codes "root") false object (cons config_new nil)

keyless_crashes : samconf_get (some keyless) (some port_path) ≡ none
unfolding samconf_get create_array walk_segments scan_children
keyless_crashes = refl

samconf_get-resolve_example :
    samconf_get (some settings) (some port_path)
    ≡ some (answer (resolve settings (segments port_path)))
samconf_get-resolve_example =
    samconf_get-resolve settings port_path settings-IsKeyed port_path-ne-nil

slash-segments : segments (codes "/") ≡ []
unfolding segments
slash-segments = refl

get_typed_faults_example :
    (samconf_get (some settings) (some (codes "/")) ≡ some (ok, none))
    × (get_bool (some settings) (some (codes "/")) ≡ none)
    × (get_int32 (some settings) (some (codes "/")) ≡ none)
    × (get_real (some settings) (some (codes "/")) ≡ none)
get_typed_faults_example = get_typed_faults settings (codes "/") slash-segments refl

host-key : key_is (node host).key (last_or [] (segments host_path)) ≡ true
unfolding segments list_eq
host-key = refl

insert_at-get_example :
    (root' : Config) × (q : Position) × (insert_at (some settings) (some host_path) (some host)
      ≡ (ok, some root'))
    × (samconf_get (some root') (some host_path) ≡ some (ok, some q))
    × (subtree root' q ≡ some host)
insert_at-get_example = insert_at-get settings host_path host host_path-ne-nil got_no_host host-key

insert_at-existing_example :
    insert_at (some settings) (some port_path) (some host) ≡ (ok, some settings)
insert_at-existing_example =
    insert_at-existing settings port_path host (0 ∷ 0 ∷ []) port_path-ne-nil got_port

port-subtree : subtree settings (0 ∷ 0 ∷ []) ≡ some port
unfolding subtree
port-subtree = refl

insert_at-frame_example :
    (st : Status) × (root' : Config) × (insert_at (some settings) (some host_path) (some host)
      ≡ (st, some root'))
    × (config_get (some root') (some port_path) ≡ (ok, some (0 ∷ 0 ∷ [])))
    × SameNode (subtree root' (0 ∷ 0 ∷ [])) port
insert_at-frame_example =
    insert_at-frame settings host_path port_path host (0 ∷ 0 ∷ []) port host_path-ne-nil
      port_path-ne-nil get_port port-subtree

create_at-get_typed_example :
    Creates
      (create_int_at (some settings) (some host_path) (pos 5))
      (λ t. get_int32 (some t) (some host_path) ≡ some (ok, some (to_int32 (pos 5))))
    × Creates
        (create_bool_at (some settings) (some host_path) true)
        (λ t. get_bool (some t) (some host_path) ≡ some (ok, some true))
    × Creates
        (create_real_at (some settings) (some host_path) 9)
        (λ t. get_real (some t) (some host_path) ≡ some (ok, some 9))
    × Creates
        (create_string_at (some settings) (some host_path) (some (codes "x")))
        (λ t. get_string (some t) (some host_path) ≡ some (ok, some (codes "x")))
create_at-get_typed_example =
    create_at-get_typed settings host_path (pos 5) true 9 (codes "x") host_path-ne-nil got_no_host

-- No text is a real number.
abbrev strtod : Bytes → ℕ × Bytes
strtod text = (0, text)

create_from_string_at-decimal_example :
    Creates
      (create_from_string_at strtod (some settings) (some host_path) (some (decimal 80)))
      (λ t. get_int32 (some t) (some host_path) ≡ some (ok, some (to_int32 (pos 80))))
create_from_string_at-decimal_example =
    create_from_string_at-decimal strtod settings host_path 80 (omega arith) host_path-ne-nil
      got_no_host

minus_text : value_of strtod (codes "-12") ≡ integer (negsuc 11)
unfolding value_of strtoll skip_space scan_digits list_eq to_lower
minus_text = refl

get_or-read_or_example :
    (get_bool_or (some settings) (some port_path) true
      ≡ some (read_or to_bool settings (segments port_path) true))
    × (get_int32_or (some settings) (some port_path) (pos 1)
        ≡ some (read_or to_integer settings (segments port_path) (pos 1)))
    × (get_real_or (some settings) (some port_path) 2
        ≡ some (read_or to_real settings (segments port_path) 2))
    × (get_string_or (some settings) (some port_path) none
        ≡ some (read_or to_string settings (segments port_path) none))
get_or-read_or_example =
    get_or-read_or settings port_path true (pos 1) 2 none settings-IsKeyed port_path-ne-nil
