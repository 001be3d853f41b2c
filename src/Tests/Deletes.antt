-- ===== src/Tests/Deletes.antt =====
-- Deleting and dumping a tree.
use samconf.Common.{◌∷◌, [], ◌++◌, some, ◌≡◌, false}
use samconf.Status.{ok}
use samconf.Text.{codes}
use samconf.Config.{node, children, subtree}
use samconf.Config.Delete.{string_block, config_delete}
use samconf.Config.Delete.Exact.{occurs, owns_at, config_delete-exact}
use samconf.Dump.{Printf, dump_tree, signed_mark}
use samconf.Dump.Lines.{concat, lines_of, dump_tree-lines}
use samconf.Tests.{settings}

config_delete-exact_example :
    ((config_delete (some settings)).0 ≡ ok)
    × (occurs (string_block, 0 ∷ []) (config_delete (some settings)).1
        ≡ owns_at string_block (subtree settings (0 ∷ [])))
config_delete-exact_example = config_delete-exact settings string_block (0 ∷ [])

abbrev printf : Printf
printf = record { real_text = λ bits. codes "0.500000"; null_text = codes "(null)" }

dump_tree-lines_example :
    dump_tree printf (some settings)
    ≡ signed_mark false
      ++ codes " / ("
      ++ codes "root"
      ++ codes ")"
      ++ b'\n' ∷ []
      ++ concat (lines_of printf (children settings) [])
dump_tree-lines_example = dump_tree-lines printf (node settings) (children settings)
