-- ===== src/Demo/Samprobe/Faults.antt =====
-- src/demo/samprobe.c: the text of a real number that is used behind its `free`.
use samconf.Common.{ℕ, Bool, none, some, ◌≡◌, refl, ◌∙◌, ◌++◌}
use samconf.Common.Int.{ℤ}
use samconf.Text.{Bytes}
use samconf.Config.{Node, real, integer, config, Children, nil, cons}
use samconf.Demo.Samprobe.{
  Locals, null, freed, row, type_text, read_config, read_children, read_child, path_of_child,
  show_child, switch, print_value, exit_success,
}
use samconf.Demo.Samprobe.Rows.{path_of_child-some, round_childless, round_faults}

module _ (real_text : ℕ → Bytes) where
  -- A real number leaves the freed text behind.
  real_frees :
      (path : Bytes) (bits : ℕ)
      → show_child real_text path (real bits) (record { value = none; dyn_value = null })
        ≡ some (
          row path (real_text bits) (type_text (real bits)),
          record { value = none; dyn_value = freed },
        )
  unfolding show_child switch print_value
  real_frees path bits = refl

  -- And an integer then uses it.
  integer_uses :
      (path : Bytes) (i : ℤ)
      → show_child real_text path (integer i) (record { value = none; dyn_value = freed }) ≡ none
  unfolding show_child switch print_value
  integer_uses path i = refl

  at_path :
      (key path : Bytes) (n : Node) (l : Locals)
      → path_of_child (some key) n.key ≡ some path
      → read_child real_text (some key) n l ≡ show_child real_text path n.value l
  unfolding read_child
  at_path key path n l e = rw (e, read_child) refl

  -- The round at the integer.
  second_faults :
      (key k : Bytes) (i : ℤ) (signed : Bool) (below rest : Children) (out : Bytes)
      → let m : Node = record { key = some k; is_signed = signed; value = integer i } in
        read_children real_text
          (some key)
          (cons (config m below) rest)
          (record { value = none; dyn_value = freed })
          exit_success
          out
        ≡ none
  second_faults key k i signed below rest out =
      let (path, e) = path_of_child-some key k in
      let m : Node = record { key = some k; is_signed = signed; value = integer i } in
      round_faults real_text (some key) (config m below) rest _ out
        (at_path key path m _ e ∙ integer_uses path i)

  -- `_readConfig` uses freed memory at a node whose first child is a real number without children and
  -- whose second is an integer, where the three have keys.
  pub read_config-faults :
      (n : Node) (key k k' : Bytes) (bits : ℕ) (i : ℤ) (signed signed' : Bool)
      (below rest : Children) (out : Bytes)
      → n.key ≡ some key
      → let r : Node = record { key = some k; is_signed = signed; value = real bits } in
        let m : Node = record { key = some k'; is_signed = signed'; value = integer i } in
        read_config real_text (config n (cons (config r nil) (cons (config m below) rest))) out
        ≡ none
  unfolding read_config
  read_config-faults n key k k' bits i signed signed' below rest out e =
      let (path, at) = path_of_child-some key k in
      let r : Node = record { key = some k; is_signed = signed; value = real bits } in
      let m : Node = record { key = some k'; is_signed = signed'; value = integer i } in
      rw e (
        round_childless real_text (some key) (config r nil) (cons (config m below) rest) _ out
          (at_path key path r _ at ∙ real_frees path bits) refl
        ∙ second_faults key k' i signed' below rest
            (out ++ row path (real_text bits) (type_text (real bits))))
