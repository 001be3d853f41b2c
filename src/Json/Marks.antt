-- ===== src/Json/Marks.antt =====
-- json_backend.c: the signature marks of a loaded tree.
use samconf.Common.{ℕ, ◌+◌, Bool, true, false, Option, none, some, ◌≡◌, refl, if◌then◌else◌}
use mathlib.Core.Path.{subst}
use samconf.Status.{Status, ok, parse_error, is_ok}
use samconf.Text.{Bytes, codes}
use samconf.Config
use samconf.Config.{
  Node, Config, config, Children, nil, cons, node, children, append_child, with_value, with_node,
  config_new, config_add, link, set_int, set_bool, set_real, set_string,
}
use samconf.Json.{
  Json, null, object, array, string, int, boolean, double, Fields, no_fields, field, Items,
  no_items, item, JsonC, is_null, keyed, marked, decimal, transform, transform_fields,
  transform_items, json_load, JsonFiles,
}

-- Every node of a tree has the mark.
mutual
  pub AllMarked : Bool → Config → Type 0
  AllMarked b (config n cs) = (n.is_signed ≡ b) × ChildrenMarked b cs

  pub ChildrenMarked : Bool → Children → Type 0
  ChildrenMarked b nil = Unit
  ChildrenMarked b (cons c cs) = AllMarked b c × ChildrenMarked b cs

ChildrenMarked-append :
    (b : Bool) (cs : Children) (d : Config)
    → ChildrenMarked b cs
    → AllMarked b d
    → ChildrenMarked b (append_child cs d)
unfolding AllMarked
ChildrenMarked-append b nil d h k = (k, tt)
ChildrenMarked-append b (cons c cs) d (p, h) k = (p, ChildrenMarked-append b cs d h k)

AllMarked-link : (b : Bool) (c d : Config) → AllMarked b c → AllMarked b d → AllMarked b (link d c)
unfolding AllMarked
AllMarked-link b (config n cs) d (p, h) k = (p, ChildrenMarked-append b cs d h k)

AllMarked-keyed : (b : Bool) (k : Bytes) (c : Config) → AllMarked b c → AllMarked b (keyed k c)
unfolding AllMarked
AllMarked-keyed b k (config n cs) h = h

-- What holds on each branch of a round of the loops.
branches :
    (P : Config → Type 0) (a b : Bool) (x y z : Status × Config)
    → P x.1
    → P y.1
    → P z.1
    → P (if a then x else if b then y else z).1
branches P true b x y z px py pz = px
branches P false true x y z px py pz = py
branches P false false x y z px py pz = pz

module _ (json_c : JsonC) (b : Bool) where
  mutual
    unfolding transform AllMarked set_int set_bool set_real set_string config_add

    transform-AllMarked :
        (j : Json) (n : Node) → AllMarked b (transform json_c j b (config n nil)).1
    transform-AllMarked null n = (refl, tt)
    transform-AllMarked (object fs) n =
        transform_fields-AllMarked fs (with_value Config.object (marked b (config n nil)))
          (refl, tt)
    transform-AllMarked (array xs) n =
        transform_items-AllMarked xs 0 (with_value Config.array (marked b (config n nil)))
          (refl, tt)
    transform-AllMarked (string s) n = (refl, tt)
    transform-AllMarked (int i) n = (refl, tt)
    transform-AllMarked (boolean v) n = (refl, tt)
    transform-AllMarked (double r) n = (refl, tt)

    transform_fields-AllMarked :
        (fs : Fields) (c : Config) → AllMarked b c → AllMarked b (transform_fields json_c fs b c).1
    transform_fields-AllMarked no_fields c h = h
    transform_fields-AllMarked (field key v fs) c h =
        let n : Node = node (keyed key config_new) in
        let out = transform json_c v b (config n nil) in
        branches (AllMarked b) (is_null v) (is_ok out.0) (parse_error, c)
          (transform_fields json_c fs b (link out.1 c)) (out.0, c) h
          (transform_fields-AllMarked fs (link out.1 c)
            (AllMarked-link b c out.1 h (transform-AllMarked v n)))
          h

    transform_items-AllMarked :
        (xs : Items) (idx : ℕ) (c : Config)
        → AllMarked b c
        → AllMarked b (transform_items json_c xs idx b c).1
    transform_items-AllMarked no_items idx c h = h
    transform_items-AllMarked (item v xs) idx c h =
        let out = transform json_c v b config_new in
        let sub = keyed (decimal idx) out.1 in
        branches (AllMarked b) (is_null v) (is_ok out.0) (parse_error, c)
          (transform_items json_c xs (idx + 1) b (link sub c)) (out.0, c) h
          (transform_items-AllMarked xs (idx + 1) (link sub c) (
            AllMarked-link b c sub h
              (AllMarked-keyed b (decimal idx) out.1 (transform-AllMarked v (node config_new)))))
          h

stored :
    (s t : Status) (a c : Config) → ◌≡◌ {A = Status × Option Config} (s, some a) (t, some c) → a ≡ c
stored s t a c e = cc

-- Every node of the tree that the JSON backend loads carries the mark it was given, whatever the
-- document holds.
pub json_load-AllMarked :
    (json_c : JsonC) (files : JsonFiles) (handle : Option Json) (signed : Bool) (st : Status)
    (c : Config)
    → json_load json_c files handle signed ≡ (st, some c)
    → AllMarked signed c
unfolding json_load
json_load-AllMarked json_c files none signed st c e =
    let start = marked signed (with_value Config.object (keyed (codes "config") config_new)) in
    subst (AllMarked signed) (stored ok st start c e) (unfold AllMarked in (refl, tt))
json_load-AllMarked json_c files (some j) signed st c e =
    let n = node (with_value Config.object (keyed (codes "config") config_new)) in
    let out = transform json_c j signed (config n nil) in
    subst (AllMarked signed) (stored out.0 st out.1 c e) (transform-AllMarked json_c signed j n)
