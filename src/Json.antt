-- ===== src/Json.antt =====
-- src/samconf/private/json_backend.c: configurations from JSON documents, and back.
pub mod RoundTrip
pub mod Marks
use samconf.Common.{
  ℕ, zero, suc, ◌+◌, ◌/◌, ◌%◌, Bool, true, false, List, [], ◌∷◌, Option, none, some, ◌==◌,
  if◌then◌else◌,
}
use samconf.Common.Int.{ℤ, to_int32}
use samconf.Status.{Status, ok, error, not_found, parse_error, is_ok}
use samconf.Text.{Bytes, codes, str_case_eq}
use samconf.Backend.{BackendOps}
use samconf.Config.{
  Value, no_value, Node, Config, config, Children, nil, cons, node, with_node, with_value,
  config_new, config_add, set_int, set_bool, set_real, set_string,
}
use samconf.Config

-- A `json_object *`, as the accessors of json-c show it; `null` is the NULL pointer.
mutual
  pub data Json : Type 0 where
    null : Json
    object : Fields → Json
    array : Items → Json
    string : Bytes → Json
    int : ℤ → Json
    boolean : Bool → Json
    double : ℕ → Json

  pub data Fields : Type 0 where
    no_fields : Fields
    field : Bytes → Json → Fields → Fields

  pub data Items : Type 0 where
    no_items : Items
    item : Json → Items → Items

-- What json-c does: `json_object_get_int`, which gives an int32_t, `json_object_object_add`, and what it
-- makes of the NULL that it is handed for a key or a string that a node lacks.
pub record JsonC : Type 0 where
  pub null_text : Bytes
  pub get_int : ℤ → ℤ
  pub object_add : Fields → Bytes → Json → Fields

abbrev pub is_null : Json → Bool
is_null null = true
is_null _ = false

-- `snprintf(key, …, "%i", idx)`. A number has no more digits than its successor as fuel.
unfoldable pub digits_from : ℕ → ℕ → Bytes → Bytes
digits_from zero n acc = acc
digits_from (suc fuel) n acc =
    let acc' = (b'0' + n % 10) ∷ acc in
    let more = digits_from fuel (n / 10) acc' in if n / 10 == 0 then acc' else more

unfoldable pub decimal : ℕ → Bytes
unfolding digits_from
decimal n = digits_from (suc n) n []

abbrev pub keyed : Bytes → Config → Config
keyed key = with_node (λ n. record n { key = some key })

abbrev pub marked : Bool → Config → Config
marked signed = with_node (λ n. record n { is_signed = signed })

-- The status of a setter and the node that it was given, as it is afterwards.
abbrev pub settled : Config → Status × Option Config → Status × Config
settled c (status, none) = (status, c)
settled c (status, some c') = (status, c')

module _ (json_c : JsonC) where
  -- `_transform_json_to_config`, with the loops over the entries and the elements.
  unfoldable mutual
    pub transform : Json → Bool → Config → Status × Config
    transform null signed c = (ok, marked signed c)
    transform (object fs) signed c =
        transform_fields fs signed (with_value Config.object (marked signed c))
    transform (array xs) signed c =
        transform_items xs 0 signed (with_value Config.array (marked signed c))
    transform (string s) signed c =
        settled (marked signed c) (set_string (some (marked signed c)) (some s))
    transform (int i) signed c =
        settled (marked signed c) (set_int (some (marked signed c)) (json_c.get_int i))
    transform (boolean b) signed c = settled (marked signed c) (set_bool (some (marked signed c)) b)
    transform (double r) signed c = settled (marked signed c) (set_real (some (marked signed c)) r)

    pub transform_fields : Fields → Bool → Config → Status × Config
    transform_fields no_fields signed c = (ok, c)
    transform_fields (field key v fs) signed c =
        let (status, sub) = transform v signed (keyed key config_new) in
        let (added, c') = settled c (config_add (some c) (some sub)) in
        let rest = transform_fields fs signed c' in
        if is_null v
        then (parse_error, c)
        else if is_ok status
        then (if is_ok added then rest else (added, c))
        else (status, c)

    pub transform_items : Items → ℕ → Bool → Config → Status × Config
    transform_items no_items idx signed c = (ok, c)
    transform_items (item v xs) idx signed c =
        let (status, sub) = transform v signed config_new in
        let (added, c') = settled c (config_add (some c) (some (keyed (decimal idx) sub))) in
        let rest = transform_items xs (idx + 1) signed c' in
        if is_null v
        then (parse_error, c)
        else if is_ok status
        then (if is_ok added then rest else (added, c))
        else (status, c)

  -- A text that is handed to json-c.
  abbrev pub text : Option Bytes → Bytes
  text none = json_c.null_text
  text (some s) = s

  -- `samconfDumpJsonConfig`
  unfoldable mutual
    pub dump : Config → Json
    dump (config n cs) = elim n.value [
      | Config.object ↦ object (dump_fields cs no_fields)
      | Config.array ↦ array (dump_items cs)
      | Config.boolean b ↦ boolean b
      | Config.integer i ↦ int (to_int32 i)
      | Config.real r ↦ double r
      | Config.string s ↦ string (text s)
      | no_value ↦ null
    ]

    pub dump_fields : Children → Fields → Fields
    dump_fields nil fs = fs
    dump_fields (cons c cs) fs = dump_fields cs (json_c.object_add fs (text (node c).key) (dump c))

    pub dump_items : Children → Items
    dump_items nil = no_items
    dump_items (cons c cs) = item (dump c) (dump_items cs)

-- `strrchr(text, c) + 1`, `none` for NULL.
unfoldable pub after_last : ℕ → Bytes → Option Bytes
after_last c [] = none
after_last c (x ∷ s) = elim (after_last c s) [
  | some rest ↦ some rest
  | none ↦ if x == c then some s else none
]

-- `samconfJsonBackendSupports`
unfoldable pub json_supports : Bytes → Bool → Status × Bool
json_supports location supported = elim (after_last b'.' location) [
  | none ↦ (error, supported)
  | some ext ↦ if str_case_eq ext (codes "json") then (ok, true) else (error, supported)
]

-- The files of the JSON backend: whether `stat` finds one, what `json_object_from_file` reads from it,
-- and whether `json_object_put` frees the object.
pub record JsonFiles : Type 0 where
  pub exists : Bytes → Bool
  pub from_file : Bytes → Option Json
  pub put : Option Json → Bool

module _ (json_c : JsonC) (files : JsonFiles) where
  -- `samconfJsonBackendOpen`
  unfoldable pub json_open : Bytes → Option Json → Status × Option Json
  json_open location handle =
      if files.exists location
      then elim (files.from_file location) [ none ↦ (error, handle) | some root ↦ (ok, some root) ]
      else (not_found, handle)

  -- `samconfJsonBackendLoad`
  unfoldable pub json_load : Option Json → Bool → Status × Option Config
  json_load handle signed =
      let c = with_value Config.object (keyed (codes "config") config_new) in
      elim handle [
        | none ↦ (ok, some (marked signed c))
        | some root ↦ let (status, c') = transform json_c root signed c in (status, some c')
      ]

  -- `samconfJsonBackendClose`
  unfoldable pub json_close : Option Json → Status
  json_close handle = if files.put handle then ok else error

  -- `samconfJsonOps`
  unfoldable pub json_ops : BackendOps Json
  json_ops = record {
    supports = json_supports;
    open_location = json_open;
    load = λ handle signed. some (json_load handle signed);
    close = λ handle. some (json_close handle);
  }
