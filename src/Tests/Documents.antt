-- ===== src/Tests/Documents.antt =====
-- Loading and dumping JSON.
use samconf.Common.{[], some, true, arith, list_eq_to, if◌then◌else◌, ◌≡◌, refl}
use samconf.Common.Int.{pos, negsuc, to_int32, to_int32_of_FitsInt32}
use samconf.Status.{ok, parse_error}
use samconf.Text.{Bytes, codes, str_eq}
use samconf.Config.{
  Config, nil, cons, config_new, integer, boolean, config_add, set_int, set_bool, set_real,
  set_string,
}
use samconf.Config
use samconf.Json.{
  Json, Fields, JsonC, JsonFiles, null, object, array, string, int, no_fields, field, no_items,
  item, decimal, transform, dump, json_load,
}
use samconf.Json.Marks.{AllMarked, json_load-AllMarked}
use samconf.Json.RoundTrip.{IsPlain, LacksKey, snoc, Documented, dump-json_load}
use samconf.Tests.{named_node}

-- An entry replaced where its key is, or added at the end.
abbrev set_entry : Fields → Bytes → Json → Fields
set_entry no_fields k v = field k v no_fields
set_entry (field j w fs) k v = if str_eq k j then field j v fs else field j w (set_entry fs k v)

abbrev pub json_c : JsonC
json_c = record { null_text = []; get_int = to_int32; object_add = set_entry }

set_entry-snoc :
    (fs : Fields) (k : Bytes) (v : Json) → LacksKey k fs → set_entry fs k v ≡ snoc fs k v
set_entry-snoc no_fields k v h = refl
set_entry-snoc (field j w fs) k v (n, h) = ground (arith, list_eq_to k j, set_entry-snoc fs k v h)

pub json_c-Documented : Documented json_c
json_c-Documented = record { get_int_fits = to_int32_of_FitsInt32; object_add_new = set_entry-snoc }

abbrev files : JsonFiles
files = record { exists = λ file. true; from_file = λ file. some null; put = λ root. true }

-- {"a": [7, "x"], "bc": {"c": -1}}
abbrev pub document : Json
document = object (
    field (codes "a") (array (item (int (pos 7)) (item (string (codes "x")) no_items)))
      (field (codes "bc") (object (field (codes "c") (int (negsuc 0)) no_fields)) no_fields))

pub document-IsPlain : IsPlain document
unfolding IsPlain
document-IsPlain =
    ((tt, ((cc, tt), tt)), ((omega arith, (tt, tt)), (((tt, tt), (omega arith, tt)), tt)))

dump-json_load_example :
    (c : Config) × (json_load json_c files (some document) true ≡ (ok, some c))
    × (dump json_c c ≡ document)
dump-json_load_example =
    dump-json_load json_c files document true json_c-Documented document-IsPlain

-- {"a": 7, "bc": null}: the entries before the null are loaded.
abbrev broken : Json
broken = object (field (codes "a") (int (pos 7)) (field (codes "bc") null no_fields))

abbrev loaded : Config
loaded =
    named_node (codes "config") true Config.object
      (cons (named_node (codes "a") true (integer (pos 7)) nil) nil)

broken-load : json_load json_c files (some broken) true ≡ (parse_error, some loaded)
unfolding json_load transform config_add set_int to_int32
broken-load = refl

all_marked : AllMarked true loaded
all_marked = json_load-AllMarked json_c files (some broken) true parse_error loaded broken-load

ten : decimal 10 ≡ codes "10"
unfolding decimal
ten = refl
