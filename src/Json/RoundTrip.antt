-- ===== src/Json/RoundTrip.antt =====
-- json_backend.c: `samconfJsonBackendLoad` and `samconfDumpJsonConfig` on a document.
use samconf.Common.{ℕ, ◌+◌, Bool, false, some, ◌≡◌, ◌≢◌, refl, sym, ap, ◌∙◌}
use samconf.Common.Int.{ℤ, FitsInt32, to_int32, to_int32_of_FitsInt32}
use mathlib.Core.Path.{subst}
use samconf.Status.{Status, ok}
use samconf.Text.{Bytes, codes}
use samconf.Config
use samconf.Config.{
  Node, Config, config, Children, nil, cons, node, append_child, config_new, config_add, with_value,
  set_int, set_bool, set_real, set_string,
}
use samconf.Json.{
  Json, null, object, array, string, int, boolean, double, Fields, no_fields, field, Items,
  no_items, item, JsonC, JsonFiles, json_load, is_null, text, keyed, decimal, transform,
  transform_fields, transform_items, dump, dump_fields, dump_items,
}

abbrev pub LacksKey : Bytes → Fields → Type 0
LacksKey k no_fields = Unit
LacksKey k (field j v fs) = (k ≢ j) × LacksKey k fs

abbrev pub snoc : Fields → Bytes → Json → Fields
snoc no_fields k v = field k v no_fields
snoc (field j w fs) k v = field j w (snoc fs k v)

-- The keys of the fields differ from one another and from those before them.
abbrev pub FreshAfter : Fields → Fields → Type 0
FreshAfter before no_fields = Unit
FreshAfter before (field k v fs) = LacksKey k before × FreshAfter (snoc before k v) fs

-- A document with no null in it, no key twice in an object, and integers in the range of int32.
unfoldable mutual
  pub IsPlain : Json → Type 0
  IsPlain null = ⊥
  IsPlain (object fs) = FreshAfter no_fields fs × PlainFields fs
  IsPlain (array xs) = PlainItems xs
  IsPlain (int i) = FitsInt32 i
  IsPlain (string s) = Unit
  IsPlain (boolean b) = Unit
  IsPlain (double r) = Unit

  pub PlainFields : Fields → Type 0
  PlainFields no_fields = Unit
  PlainFields (field k v fs) = IsPlain v × PlainFields fs

  pub PlainItems : Items → Type 0
  PlainItems no_items = Unit
  PlainItems (item v xs) = IsPlain v × PlainItems xs

-- What json-c documents: an integer in range is returned as it is, and a new key is added at the end.
pub record Documented (json_c : JsonC) : Type 0 where
  pub get_int_fits : (i : ℤ) → FitsInt32 i → json_c.get_int i ≡ i
  pub object_add_new :
      (fs : Fields) (k : Bytes) (v : Json) → LacksKey k fs → json_c.object_add fs k v ≡ snoc fs k v

abbrev join_fields : Fields → Fields → Fields
join_fields fs no_fields = fs
join_fields fs (field k v gs) = join_fields (snoc fs k v) gs

abbrev before_fields : Fields → Fields → Fields
before_fields no_fields gs = gs
before_fields (field k v fs) gs = field k v (before_fields fs gs)

before_fields-snoc :
    (fs gs : Fields) (k : Bytes) (v : Json)
    → before_fields (snoc fs k v) gs ≡ before_fields fs (field k v gs)
before_fields-snoc no_fields gs k v = refl
before_fields-snoc (field j w fs) gs k v = ap (field j w) (before_fields-snoc fs gs k v)

before_fields-nil : (fs : Fields) → before_fields fs no_fields ≡ fs
before_fields-nil no_fields = refl
before_fields-nil (field k v fs) = ap (field k v) (before_fields-nil fs)

join_fields-before : (fs gs : Fields) → join_fields fs gs ≡ before_fields fs gs
join_fields-before fs no_fields = sym (before_fields-nil fs)
join_fields-before fs (field k v gs) =
    join_fields-before (snoc fs k v) gs ∙ before_fields-snoc fs gs k v

abbrev join_items : Items → Items → Items
join_items no_items ys = ys
join_items (item v xs) ys = item v (join_items xs ys)

abbrev item_last : Items → Json → Items
item_last no_items w = item w no_items
item_last (item v xs) w = item v (item_last xs w)

item_last-join :
    (xs ys : Items) (w : Json) → join_items (item_last xs w) ys ≡ join_items xs (item w ys)
item_last-join no_items ys w = refl
item_last-join (item v xs) ys w = ap (item v) (item_last-join xs ys w)

join_items-nil : (xs : Items) → join_items xs no_items ≡ xs
join_items-nil no_items = refl
join_items-nil (item v xs) = ap (item v) (join_items-nil xs)

module _ (json_c : JsonC) where
  dump_fields-append :
      (cs : Children) (d : Config) (fs : Fields)
      → dump_fields json_c (append_child cs d) fs
        ≡ json_c.object_add (dump_fields json_c cs fs) (text json_c (node d).key) (dump json_c d)
  unfolding dump
  dump_fields-append nil d fs = refl
  dump_fields-append (cons c cs) d fs =
      dump_fields-append cs d (json_c.object_add fs (text json_c (node c).key) (dump json_c c))

  dump_items-append :
      (cs : Children) (d : Config)
      → dump_items json_c (append_child cs d) ≡ item_last (dump_items json_c cs) (dump json_c d)
  unfolding dump
  dump_items-append nil d = refl
  dump_items-append (cons c cs) d = ap (item (dump json_c c)) (dump_items-append cs d)

  dump-keyed : (k : Bytes) (c : Config) → dump json_c (keyed k c) ≡ dump json_c c
  unfolding dump
  dump-keyed k (config n cs) = refl

  not_null : (v : Json) → IsPlain v → is_null v ≡ false
  unfolding IsPlain
  not_null null h = absurd h
  not_null _ h = refl

  module _ (b : Bool) where
    fields_step :
        (k : Bytes) (v : Json) (fs : Fields) (n : Node) (cs : Children) (sub : Config)
        → is_null v ≡ false
        → transform json_c v b (keyed k config_new) ≡ (ok, sub)
        → transform_fields json_c (field k v fs) b (config n cs)
          ≡ transform_fields json_c fs b (config n (append_child cs sub))
    unfolding transform config_add
    fields_step k v fs n cs sub h run = rw (h, run)

    items_step :
        (idx : ℕ) (v : Json) (xs : Items) (n : Node) (cs : Children) (sub : Config)
        → is_null v ≡ false
        → transform json_c v b config_new ≡ (ok, sub)
        → transform_items json_c (item v xs) idx b (config n cs)
          ≡ transform_items json_c xs
              (idx + 1)
              b
              (config n (append_child cs (keyed (decimal idx) sub)))
    unfolding transform config_add
    items_step idx v xs n cs sub h run = rw (h, run)

    -- What a document, the entries of an object and the elements of an array come to.
    abbrev Loads : Json → Node → Type 0
    Loads j n =
        (c : Config) × (transform json_c j b (config n nil) ≡ (ok, c))
        × (dump json_c c ≡ j)
        × ((node c).key ≡ n.key)

    abbrev LoadsFields : Fields → Node → Children → Type 0
    LoadsFields fs n cs =
        (cs' : Children) × (transform_fields json_c fs b (config n cs) ≡ (ok, config n cs'))
        × (dump_fields json_c cs' no_fields ≡ join_fields (dump_fields json_c cs no_fields) fs)

    abbrev LoadsItems : Items → ℕ → Node → Children → Type 0
    LoadsItems xs idx n cs =
        (cs' : Children) × (transform_items json_c xs idx b (config n cs) ≡ (ok, config n cs'))
        × (dump_items json_c cs' ≡ join_items (dump_items json_c cs) xs)

    module _ (laws : Documented json_c) where
      mutual
        unfolding transform dump IsPlain set_int set_bool set_real set_string to_int32

        loads : (j : Json) (n : Node) → IsPlain j → Loads j n
        loads null n h = absurd h
        loads (object fs) n (fresh, plain) =
            let n' : Node = record n { is_signed = b; value = Config.object } in
            let (cs, run, back) = loads_fields fs n' nil fresh plain in
            (config n' cs, run, ap object (back ∙ join_fields-before no_fields fs), refl)
        loads (array xs) n plain =
            let n' : Node = record n { is_signed = b; value = Config.array } in
            let (cs, run, back) = loads_items xs 0 n' nil plain in
            (config n' cs, run, ap array back, refl)
        loads (string s) n h = (_, refl, refl, refl)
        loads (int i) n h = (
          _,
          refl,
          ap int (ap to_int32 (laws.get_int_fits i h) ∙ to_int32_of_FitsInt32 i h),
          refl,
        )
        loads (boolean v) n h = (_, refl, refl, refl)
        loads (double r) n h = (_, refl, refl, refl)

        loads_fields :
            (fs : Fields) (n : Node) (cs : Children)
            → FreshAfter (dump_fields json_c cs no_fields) fs
            → PlainFields fs
            → LoadsFields fs n cs
        loads_fields no_fields n cs fresh plain = (cs, refl, refl)
        loads_fields (field k v fs) n cs (lacks, fresh) (pv, plain) =
            let (sub, run, back, key) = loads v (node (keyed k config_new)) pv in
            let before = dump_fields json_c cs no_fields in
            let after : dump_fields json_c (append_child cs sub) no_fields ≡ snoc before k v =
              dump_fields-append cs sub no_fields
              ∙ ap (λ x. json_c.object_add before (text json_c x) (dump json_c sub)) key
              ∙ ap (λ w. json_c.object_add before k w) back
              ∙ laws.object_add_new before k v lacks in
            let (cs', more, all) =
              loads_fields fs n (append_child cs sub)
                (subst (λ x. FreshAfter x fs) (sym after) fresh) plain in
            (
              cs',
              fields_step k v fs n cs sub (not_null v pv) run ∙ more,
              all ∙ ap (λ x. join_fields x fs) after,
            )

        loads_items :
            (xs : Items) (idx : ℕ) (n : Node) (cs : Children)
            → PlainItems xs
            → LoadsItems xs idx n cs
        loads_items no_items idx n cs plain =
            (cs, refl, sym (join_items-nil (dump_items json_c cs)))
        loads_items (item v xs) idx n cs (pv, plain) =
            let (sub, run, back, key) = loads v (node config_new) pv in
            let last : Config = keyed (decimal idx) sub in
            let (cs', more, all) = loads_items xs (idx + 1) n (append_child cs last) plain in
            (
              cs',
              items_step idx v xs n cs sub (not_null v pv) run ∙ more,
              all
                  ∙ ap (λ ys. join_items ys xs)
                      (dump_items-append cs last
                        ∙ ap (item_last (dump_items json_c cs))
                            (dump-keyed (decimal idx) sub ∙ back))
                  ∙ item_last-join (dump_items json_c cs) xs v,
            )

-- A document with no null in it, no key twice in an object and integers in the range of int32 is loaded
-- with status OK, with either mark, and dumping the loaded tree gives the document back; json-c is
-- taken to return such an integer as it is and to add a new key at the end of an object.
pub dump-json_load :
    (json_c : JsonC) (files : JsonFiles) (j : Json) (signed : Bool)
    → Documented json_c
    → IsPlain j
    → (c : Config) × (json_load json_c files (some j) signed ≡ (ok, some c)) × (dump json_c c ≡ j)
unfolding json_load
dump-json_load json_c files j signed laws plain =
    let n = node (with_value Config.object (keyed (codes "config") config_new)) in
    let (c, run, back, _) = loads json_c signed laws j n plain in
    (c, ap (λ (r : Status × Config). (r.0, some r.1)) run, back)
