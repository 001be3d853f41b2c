-- ===== src/Config/Insert/Keyed.antt =====
-- samconf.c: the keys in a tree that `samconfInsertAt` and the writes to a node leave.
use samconf.Common.{
  ℕ, zero, suc, Bool, true, false, List, [], ◌∷◌, ◌++◌, Option, some, ◌≡◌, ◌≢◌, refl, sym, ◌∙◌,
  is_empty, if◌then◌else◌,
}
use mathlib.Core.Path.{subst}
use samconf.Status.{Status, ok, error, is_ok, is_error}
use samconf.Text.{Bytes}
use samconf.Path.{segments, get_path_until}
use samconf.Config.{
  Value, Config, config, with_value, Children, nil, cons, Position, append_child, modify_child,
  link, subtree, modify_at,
}
use samconf.Config.Get.{config_get}
use samconf.Config.Get.Crash.{HasKey, IsKeyed, AreKeyed}
use samconf.Config.Insert.{object_node, position_or, count_at, insert_loop, insert_at}
use samconf.Config.Insert.Laws.{insert_at-loop}

append_child-AreKeyed :
    (cs : Children) (c : Config) → AreKeyed cs → HasKey c → IsKeyed c → AreKeyed (append_child cs c)
unfolding IsKeyed
append_child-AreKeyed nil c h key keyed = (key, keyed, tt)
append_child-AreKeyed (cons d cs) c (k, inner, h) key keyed =
    (k, inner, append_child-AreKeyed cs c h key keyed)

pub link-IsKeyed :
    (child c : Config) → HasKey child → IsKeyed child → IsKeyed c → IsKeyed (link child c)
unfolding IsKeyed
link-IsKeyed child (config n cs) key keyed h = append_child-AreKeyed cs child h key keyed

-- A write that leaves keys leaves the tree keyed.
module _ (f : Config → Config) (same : (c : Config) → HasKey c → HasKey (f c))
    (inside : (c : Config) → IsKeyed c → IsKeyed (f c)) where
  HasKey-modify_at : (c : Config) (p : Position) → HasKey c → HasKey (modify_at c p f)
  unfolding modify_at
  HasKey-modify_at c [] h = same c h
  HasKey-modify_at (config n cs) (i ∷ p) h = h

  mutual
    unfolding modify_at IsKeyed

    modified-IsKeyed : (c : Config) (p : Position) → IsKeyed c → IsKeyed (modify_at c p f)
    modified-IsKeyed c [] h = inside c h
    modified-IsKeyed (config n cs) (i ∷ p) h = modify_child-AreKeyed cs i p h

    modify_child-AreKeyed :
        (cs : Children) (i : ℕ) (p : Position)
        → AreKeyed cs
        → AreKeyed (modify_child cs i (λ d. modify_at d p f))
    modify_child-AreKeyed nil i p h = h
    modify_child-AreKeyed (cons d cs) zero p (k, inner, h) =
        (HasKey-modify_at d p k, modified-IsKeyed d p inner, h)
    modify_child-AreKeyed (cons d cs) (suc i) p (k, inner, h) =
        (k, inner, modify_child-AreKeyed cs i p h)

  pub modify_at-IsKeyed : (c : Config) (p : Position) → IsKeyed c → IsKeyed (modify_at c p f)
  modify_at-IsKeyed c p h = modified-IsKeyed c p h

HasKey-link : (child c : Config) → HasKey c → HasKey (link child c)
HasKey-link child (config n cs) h = h

pub linked-IsKeyed :
    (root : Config) (p : Position) (child : Config)
    → IsKeyed root
    → HasKey child
    → IsKeyed child
    → IsKeyed (modify_at root p (link child))
linked-IsKeyed root p child h key keyed =
    modify_at-IsKeyed (link child) (HasKey-link child) (λ c. link-IsKeyed child c key keyed) root p
      h

-- One round links a keyed node, if it links one.
child-HasKey :
    (rest : List Bytes) (seg : Bytes) (conf : Config)
    → HasKey conf
    → IsKeyed conf
    → HasKey (if is_empty rest then conf else object_node seg)
      × IsKeyed (if is_empty rest then conf else object_node seg)
unfolding IsKeyed
child-HasKey [] seg conf key keyed = (key, keyed)
child-HasKey (t ∷ rest) seg conf key keyed = ((seg, refl), tt)

branches :
    (a b c : Bool) (w x y z : Status × Config)
    → IsKeyed w.1
    → IsKeyed x.1
    → IsKeyed y.1
    → IsKeyed z.1
    → IsKeyed (if a then (if b then w else x) else if c then y else z).1
branches true true c w x y z pw px py pz = pw
branches true false c w x y z pw px py pz = px
branches false b true w x y z pw px py pz = py
branches false b false w x y z pw px py pz = pz

-- Inserting a keyed tree into a keyed tree leaves a keyed tree.
pub insert_loop-IsKeyed :
    (items : List Bytes) (i : ℕ) (rest : List Bytes) (root : Config) (parent : Position)
    (conf : Config) (st : Status)
    → IsKeyed root
    → HasKey conf
    → IsKeyed conf
    → IsKeyed (insert_loop items i rest root parent conf st).1
unfolding insert_loop
insert_loop-IsKeyed items i [] root parent conf st h key keyed = h
insert_loop-IsKeyed items i (seg ∷ rest) root parent conf st h key keyed =
    let asked = config_get (some root) (some (get_path_until items i)) in
    let child : Config = if is_empty rest then conf else object_node seg in
    let (child_key, child_keyed) = child-HasKey rest seg conf key keyed in
    branches (is_ok asked.0) (is_empty rest) (is_error asked.0) (ok, root) _ (error, root) _ h
      (insert_loop-IsKeyed items (suc i) rest root (position_or parent asked.1) conf ok h key keyed)
      h
      (insert_loop-IsKeyed items (suc i) rest (modify_at root parent (link child))
        (parent ++ count_at (subtree root parent) ∷ []) conf ok
        (linked-IsKeyed root parent child h child_key child_keyed) key keyed)

pub insert_at-IsKeyed :
    (root root' conf : Config) (path : Bytes) (st : Status)
    → segments path ≢ []
    → IsKeyed root
    → HasKey conf
    → IsKeyed conf
    → insert_at (some root) (some path) (some conf) ≡ (st, some root')
    → IsKeyed root'
insert_at-IsKeyed root root' conf path st some_segment h key keyed ran =
    let out = insert_loop (segments path) 0 (segments path) root [] conf ok in
    let made : ◌≡◌ {A = Status × Option Config} (out.0, some out.1) (st, some root') =
      sym (insert_at-loop root path conf some_segment) ∙ ran in
    let same : out.1 ≡ root' = cc in
    subst IsKeyed same
      (insert_loop-IsKeyed (segments path) 0 (segments path) root [] conf ok h key keyed)

HasKey-with_value : (v : Value) (c : Config) → HasKey c → HasKey (with_value v c)
HasKey-with_value v (config n cs) h = h

inside-with_value : (v : Value) (c : Config) → IsKeyed c → IsKeyed (with_value v c)
unfolding IsKeyed
inside-with_value v (config n cs) h = h

pub with_value-IsKeyed :
    (root : Config) (p : Position) (v : Value)
    → IsKeyed root
    → IsKeyed (modify_at root p (with_value v))
with_value-IsKeyed root p v h =
    modify_at-IsKeyed (with_value v) (HasKey-with_value v) (inside-with_value v) root p h
