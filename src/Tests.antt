-- ===== src/Tests.antt =====
-- Runs of the model at concrete inputs, and the theorems applied there. Configurations that these share.
pub mod Paths
pub mod Gets
pub mod Merges
pub mod Loads
pub mod Documents
pub mod Queries
pub mod Variables
pub mod Signatures
pub mod Systems
pub mod Deletes
pub mod Demos
pub mod Stores
pub mod Example
use samconf.Common.{ℕ, Bool, true, false, none, some, List, [], ◌∷◌}
use samconf.Common.Int.{pos}
use samconf.Text.{Bytes, codes}
use samconf.Config.{Value, integer, boolean, object, Config, config, Children, nil, cons}

-- A node with a key.
abbrev pub named_node : Bytes → Bool → Value → Children → Config
named_node key signed value cs =
    config (record { key = some key; is_signed = signed; value = value }) cs

abbrev pub port : Config
port = named_node (codes "port") false (integer (pos 80)) nil

abbrev pub debug : Config
debug = named_node (codes "debug") false (boolean true) nil

-- A tree root/server/port and root/debug.
abbrev pub settings : Config
settings =
    named_node (codes "root") false object
      (cons (named_node (codes "server") false object (cons port nil)) (cons debug nil))
