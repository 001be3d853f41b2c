-- ===== src/Signature.antt =====
-- src/samconf/private/signature.c: the signature that belongs to a file.
use samconf.Common.{Bool, Option, none, some, ◌++◌, if◌then◌else◌}
use samconf.Status.{Status, ok, error, signature_not_found}
use samconf.Text.{Bytes, codes}

-- The files, as the program reads them: `access(file, R_OK | F_OK) == 0`, and `safuReadFileToString`,
-- `none` for a negative result.
pub record Files : Type 0 where
  pub readable : Bytes → Bool
  pub read_file : Bytes → Option Bytes

-- `samconfSignatureLoaderGetSignatureFor`: the status and `*signature`.
unfoldable pub get_signature_for : Files → Bytes → Status × Option Bytes
get_signature_for files file =
    let signature_file = file ++ codes ".sig" in
    if files.readable signature_file
    then elim (files.read_file signature_file) [
      | none ↦ (error, none)
      | some signature ↦ (ok, some signature)
    ]
    else (signature_not_found, none)
