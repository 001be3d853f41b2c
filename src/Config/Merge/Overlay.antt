-- ===== src/Config/Merge/Overlay.antt =====
-- samconf.c: what `samconfCopyConfigValue` writes over a node, and what stays.
use samconf.Common.{none, some, ◌≡◌, refl, ap, inl, inr, ◌⊎◌}
use samconf.Status.{ok, error}
use samconf.Config.{
  Value, no_value, string, integer, real, boolean, array, object, Config, config, Position, node,
  with_value, subtree, modify_at, copy_by_type, copy_value, set_int, set_bool, set_real, set_string,
}
use samconf.Config.Tree.{KeepsShape, modify_at-same}
use samconf.Config.Merge.{next_round, leave, delete_status, config_or, overwrite}

-- The value of a node that another value is copied to: a type without a value of its own leaves it.
abbrev pub overlay : Value → Value → Value
overlay no_value old = old
overlay array old = old
overlay object old = old
overlay v old = v

-- A string that is not NULL, or another value.
abbrev pub HasText : Value → Type 0
HasText (string none) = ⊥
HasText _ = Unit

copy_by_type-overlay :
    (v : Value) (to : Config)
    → HasText v
    → copy_by_type v to ≡ (ok, some (with_value (overlay v (node to).value) to))
unfolding copy_by_type set_int set_bool set_real set_string
copy_by_type-overlay (string none) to h = absurd h
copy_by_type-overlay (string (some s)) (config n cs) h = refl
copy_by_type-overlay no_value (config n cs) h = refl
copy_by_type-overlay (integer i) (config n cs) h = refl
copy_by_type-overlay (real r) (config n cs) h = refl
copy_by_type-overlay (boolean b) (config n cs) h = refl
copy_by_type-overlay array (config n cs) h = refl
copy_by_type-overlay object (config n cs) h = refl

copy_by_type-null : (to : Config) → copy_by_type (string none) to ≡ (error, some to)
unfolding copy_by_type set_string
copy_by_type-null to = refl

pub HasText-cases : (v : Value) → HasText v ⊎ (v ≡ string none)
HasText-cases (string none) = inr refl
HasText-cases (string (some s)) = inl tt
HasText-cases no_value = inl tt
HasText-cases (integer i) = inl tt
HasText-cases (real r) = inl tt
HasText-cases (boolean b) = inl tt
HasText-cases array = inl tt
HasText-cases object = inl tt

pub copy_value-overlay :
    (from to : Config)
    → HasText (node from).value
    → copy_value (some from) (some to)
      ≡ (ok, some (with_value (overlay (node from).value (node to).value) to))
unfolding copy_value
copy_value-overlay from to h = copy_by_type-overlay (node from).value to h

pub with_value-KeepsShape : (v : Value) → KeepsShape (with_value v)
with_value-KeepsShape v (config n cs) = (refl, refl)

-- Overwriting the node at a position with a value that is no NULL string.
pub overwrite-overlay :
    (new_node merged in_merge : Config) (p : Position)
    → HasText (node new_node).value
    → subtree merged p ≡ some in_merge
    → overwrite new_node merged (some p)
      ≡ next_round
          (modify_at merged p (with_value (overlay (node new_node).value (node in_merge).value)))
unfolding overwrite
overwrite-overlay new_node merged in_merge p h here =
    let v = overlay (node new_node).value (node in_merge).value in
    rw (here, overwrite, copy_value-overlay new_node in_merge h)
      (ap next_round (
        modify_at-same merged p in_merge (λ c. config_or c (some (with_value v in_merge)))
          (with_value v) here refl))

pub overwrite-null :
    (new_node merged in_merge : Config) (p : Position)
    → (node new_node).value ≡ string none
    → subtree merged p ≡ some in_merge
    → overwrite new_node merged (some p) ≡ leave delete_status merged
unfolding overwrite copy_value
overwrite-null new_node merged in_merge p h here =
    let copied : copy_value (some new_node) (some in_merge) ≡ (error, some in_merge) =
      rw h (copy_by_type-null in_merge) in
    rw (here, overwrite, copied)
