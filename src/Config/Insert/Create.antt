-- ===== src/Config/Insert/Create.antt =====
-- The functions that create a node at a path, and the getters for what they create.
use samconf.Common.{ℕ, Bool, true, List, [], ◌∷◌, Option, none, some, ◌≡◌, ◌≢◌, refl, list_eq_refl}
use samconf.Common.Int.{ℤ, to_int32}
use samconf.Status.{Status, ok, not_found}
use samconf.Text.{Bytes, slash, basename, last_or, str_eq}
use samconf.Path.{segments}
use samconf.Config.{
  Config, Value, integer, boolean, real, string, Position, node, config_new, with_node, with_value,
  subtree, set_int, set_bool, set_real, set_string,
}
use samconf.Config.Get.{
  samconf_get, get_typed, get_int32, get_bool, get_real, get_string, to_bool, to_real, to_integer,
  to_string,
}
use samconf.Config.Insert.{
  insert_at, create_at, create_int_at, create_bool_at, create_real_at, create_string_at,
}
use samconf.Config.Insert.Laws.{insert_at-get}

last_or-change : (d e : Bytes) (xs : List Bytes) → xs ≢ [] → last_or d xs ≡ last_or e xs
last_or-change d e [] h = absurd (h refl)
last_or-change d e (x ∷ xs) h = refl

basename-segments : (path : Bytes) → segments path ≢ [] → basename path ≡ last_or [] (segments path)
unfolding basename segments
basename-segments [] h = absurd (h refl)
basename-segments (c ∷ s) h = last_or-change (slash ∷ []) [] (segments (c ∷ s)) h

-- The node that is named by the base name of a path and holds a value.
abbrev pub named : Bytes → Value → Config
named path v = with_value v (with_node (λ n. record n { key = some (basename path) }) config_new)

-- Where the setter succeeds, creating is inserting what it made.
pub create_at-insert_at :
    (set_value : Option Config → Status × Option Config) (v : Value) (root : Config) (path : Bytes)
    → set_value (some (with_node (λ n. record n { key = some (basename path) }) config_new))
      ≡ (ok, some (named path v))
    → create_at set_value (some root) (some path)
      ≡ insert_at (some root) (some path) (some (named path v))
unfolding create_at
create_at-insert_at set_value v root path sets = rw sets

module _ (set_value : Option Config → Status × Option Config) (v : Value) (root : Config)
    (path : Bytes)
    (sets : set_value (some (with_node (λ n. record n { key = some (basename path) }) config_new))
      ≡ (ok, some (named path v)))
    (h : segments path ≢ [])
    (lost : samconf_get (some root) (some path) ≡ some (not_found, none)) where
  pub create_at-get :
      (root' : Config) × (q : Position) × (create_at set_value (some root) (some path)
        ≡ (ok, some root'))
      × (samconf_get (some root') (some path) ≡ some (ok, some q))
      × (subtree root' q ≡ some (named path v))
  unfolding create_at
  create_at-get =
      let key : str_eq (basename path) (last_or [] (segments path)) ≡ true =
        rw (basename-segments path h) (list_eq_refl (last_or [] (segments path))) in
      let (root', q, run, found, is_q) = insert_at-get root path (named path v) h lost key in
      (root', q, rw sets run, found, is_q)

pub get_typed_found :
    {A : Type 0} (read : Value → Option A) (root : Config) (path : Bytes) (q : Position)
    (c : Config) (a : A)
    → samconf_get (some root) (some path) ≡ some (ok, some q)
    → subtree root q ≡ some c
    → read (node c).value ≡ some a
    → get_typed read (some root) (some path) ≡ some (ok, some a)
unfolding get_typed
get_typed_found read root path q c a found there is = rw (get_typed, found, there, is) refl

get_string_found :
    (root : Config) (path : Bytes) (q : Position) (c : Config) (s : Bytes)
    → samconf_get (some root) (some path) ≡ some (ok, some q)
    → subtree root q ≡ some c
    → to_string (node c).value ≡ some (some s)
    → get_string (some root) (some path) ≡ some (ok, some s)
unfolding get_string
get_string_found root path q c s found there is = rw (get_string, found, there, is) refl

-- The creation succeeds, and the new tree has a property.
abbrev pub Creates : Status × Option Config → (Config → Type 0) → Type 0
Creates out P = (root' : Config) × (out ≡ (ok, some root')) × P root'

module _ (root : Config) (path : Bytes) (h : segments path ≢ [])
    (lost : samconf_get (some root) (some path) ≡ some (not_found, none)) where
  create_int_at-get :
      (v : ℤ)
      → Creates
          (create_int_at (some root) (some path) v)
          (λ r. get_int32 (some r) (some path) ≡ some (ok, some (to_int32 v)))
  unfolding create_int_at get_int32
  create_int_at-get v =
      let (r, q, run, found, is_q) =
        create_at-get (λ c. set_int c v) (integer v) root path (unfold set_int in refl) h lost in
      (r, run, get_typed_found to_integer r path q (named path (integer v)) _ found is_q refl)

  create_bool_at-get :
      (v : Bool)
      → Creates
          (create_bool_at (some root) (some path) v)
          (λ r. get_bool (some r) (some path) ≡ some (ok, some v))
  unfolding create_bool_at get_bool
  create_bool_at-get v =
      let (r, q, run, found, is_q) =
        create_at-get (λ c. set_bool c v) (boolean v) root path (unfold set_bool in refl) h lost in
      (r, run, get_typed_found to_bool r path q (named path (boolean v)) _ found is_q refl)

  create_real_at-get :
      (v : ℕ)
      → Creates
          (create_real_at (some root) (some path) v)
          (λ r. get_real (some r) (some path) ≡ some (ok, some v))
  unfolding create_real_at get_real
  create_real_at-get v =
      let (r, q, run, found, is_q) =
        create_at-get (λ c. set_real c v) (real v) root path (unfold set_real in refl) h lost in
      (r, run, get_typed_found to_real r path q (named path (real v)) _ found is_q refl)

  create_string_at-get :
      (v : Bytes)
      → Creates
          (create_string_at (some root) (some path) (some v))
          (λ r. get_string (some r) (some path) ≡ some (ok, some v))
  unfolding create_string_at
  create_string_at-get v =
      let (r, q, run, found, is_q) =
        create_at-get (λ c. set_string c (some v)) (string (some v)) root path
          (unfold set_string in refl) h lost in
      (r, run, get_string_found r path q (named path (string (some v))) v found is_q refl)

-- A value created at a path that has a segment and leads nowhere yet, as `samconfConfigGet` answers
-- without a crash, is created with status OK, and the getter of its type then reads it at that path: a
-- truth value, a real number and a string as they are, an integer as the int32 with its low 32 bits.
pub create_at-get_typed :
    (root : Config) (path : Bytes) (i : ℤ) (b : Bool) (r : ℕ) (s : Bytes)
    → segments path ≢ []
    → samconf_get (some root) (some path) ≡ some (not_found, none)
    → Creates
        (create_int_at (some root) (some path) i)
        (λ t. get_int32 (some t) (some path) ≡ some (ok, some (to_int32 i)))
      × Creates
          (create_bool_at (some root) (some path) b)
          (λ t. get_bool (some t) (some path) ≡ some (ok, some b))
      × Creates
          (create_real_at (some root) (some path) r)
          (λ t. get_real (some t) (some path) ≡ some (ok, some r))
      × Creates
          (create_string_at (some root) (some path) (some s))
          (λ t. get_string (some t) (some path) ≡ some (ok, some s))
create_at-get_typed root path i b r s h lost = (
  create_int_at-get root path h lost i,
  create_bool_at-get root path h lost b,
  create_real_at-get root path h lost r,
  create_string_at-get root path h lost s,
)
