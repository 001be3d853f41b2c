-- ===== src/Status.antt =====
-- The status codes of src/samconf/interface/samconf/samconf_types.h.
use samconf.Common.{Bool, true, false}

-- samconfConfigStatusE_t
pub data Status : Type 0 where
  error ok eof not_found invalid_type not_implemented parse_error : Status
  invalid_signature signature_not_found overwrite_not_allowed : Status

abbrev pub is_ok : Status → Bool
is_ok ok = true
is_ok _ = false

abbrev pub is_not_found : Status → Bool
is_not_found not_found = true
is_not_found _ = false

abbrev pub is_signature_not_found : Status → Bool
is_signature_not_found signature_not_found = true
is_signature_not_found _ = false

abbrev pub is_invalid_signature : Status → Bool
is_invalid_signature invalid_signature = true
is_invalid_signature _ = false

abbrev pub is_overwrite_not_allowed : Status → Bool
is_overwrite_not_allowed overwrite_not_allowed = true
is_overwrite_not_allowed _ = false

abbrev pub is_error : Status → Bool
is_error error = true
is_error _ = false
