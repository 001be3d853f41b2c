-- ===== src/Config/FromString.antt =====
-- samconf.c: `samconfConfigSetValueFromString` and `samconfCreateFromStringAt`.
pub mod Decimals
use samconf.Common.{ℕ, true, false, Option, none, some, if◌then◌else◌, is_empty}
use samconf.Status.{Status, ok, error}
use samconf.Text.{Bytes, codes, str_case_eq, strtoll}
use samconf.Config.{Value, string, integer, real, boolean, Config, with_value}
use samconf.Config.Insert.{create_at}

-- `strtod` gives the bits of the number and the text from its end on.
module _ (strtod : Bytes → ℕ × Bytes) where
  -- The type and the value that a text is given.
  unfoldable pub value_of : Bytes → Value
  value_of text =
      let (i, after_integer) = strtoll text in
      let (r, after_real) = strtod text in
      if str_case_eq text (codes "true")
      then boolean true
      else if str_case_eq text (codes "false")
      then boolean false
      else if is_empty after_integer
      then integer i
      else if is_empty after_real
      then real r
      else string (some text)

  -- `samconfConfigSetValueFromString`
  unfoldable pub set_value_from_string : Config → Option Bytes → Status × Config
  set_value_from_string c none = (error, c)
  set_value_from_string c (some text) = (ok, with_value (value_of text) c)

  abbrev pub set_from : Bytes → Option Config → Status × Option Config
  set_from text none = (error, none)
  set_from text (some c) =
      let (status, c') = set_value_from_string c (some text) in (status, some c')

  -- `samconfCreateFromStringAt`
  unfoldable pub create_from_string_at :
      Option Config → Option Bytes → Option Bytes → Status × Option Config
  create_from_string_at root path none = (error, root)
  create_from_string_at root path (some text) = create_at (set_from text) root path
