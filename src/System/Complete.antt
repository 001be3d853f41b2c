-- ===== src/System/Complete.antt =====
-- samconf.c: that `samconfLoad` loads a JSON file, and all that is in it.
use samconf.Common.{Bool, true, false, ◌++◌, Option, some, ◌≡◌, refl, inl, ap, arith}
use samconf.Status.{Status, ok}
use samconf.Text.{Bytes, codes}
use samconf.Config.{Config}
use samconf.Signature.{Files, get_signature_for}
use samconf.Backend.{backend_init}
use samconf.Json.{
  Json, JsonC, JsonFiles, json_ops, json_supports, json_open, json_load, json_close, dump,
}
use samconf.Json.Marks.{AllMarked, json_load-AllMarked}
use samconf.Json.RoundTrip.{IsPlain, Documented, dump-json_load}
use samconf.Crypto.{crypto_verify}
use samconf.Loader.{verify_signature}
use samconf.Loader.Policy.{Served, load_iff}
use samconf.System.{
  json_handle, json_kind, of_kind, World, backend_table, verify_location, samconf_load,
}
use samconf.System.Enforced.{json-first}

-- The JSON backend serves a document that is there.
json-Served :
    (json_c : JsonC) (files : JsonFiles) (location : Bytes) (signed : Bool) (root : Json)
    (tree : Option Config)
    → files.exists location ≡ true
    → files.from_file location ≡ some root
    → files.put (some root) ≡ true
    → json_load json_c files (some root) signed ≡ (ok, tree)
    → Served (backend_init (of_kind json_kind (json_ops json_c files))) location signed tree
unfolding json_ops json_open json_close
json-Served json_c files location signed root tree there from put loaded =
    (some (json_handle root), rw (there, from) refl, ap some loaded, rw put refl)

-- The verification answers OK for a text and a signature that are there and that are accepted.
verify_signature-ok :
    (files : Files) (verify : Bytes → Bytes → Option Status) (location text signature : Bytes)
    → files.readable (location ++ codes ".sig") ≡ true
    → files.read_file (location ++ codes ".sig") ≡ some signature
    → files.read_file location ≡ some text
    → verify text signature ≡ some ok
    → verify_signature files verify location ≡ some ok
unfolding verify_signature get_signature_for
verify_signature-ok files verify location text signature readable sig read verified = ground arith

-- A location that the JSON backend supports, with a signature file for which
-- `samconfCryptoUtilsVerify` answers OK, and with a document that json-c reads and releases, that has no
-- null in it, no key twice in an object and integers in the range of int32, is loaded with status OK,
-- whether signatures are enforced or not. The tree stored is marked as signed at every node, and dumping
-- it gives the document back. json-c is taken to return such an integer as it is and to add a new key at
-- the end of an object.
pub samconf_load-dump :
    {K D : Type 0} (world : World K D) (location text signature : Bytes) (enforce : Bool)
    (root : Json)
    → json_supports location false ≡ (ok, true)
    → world.files.readable (location ++ codes ".sig") ≡ true
    → world.files.read_file (location ++ codes ".sig") ≡ some signature
    → world.files.read_file location ≡ some text
    → crypto_verify world.ssl world.regexec text signature ≡ some ok
    → world.json_files.exists location ≡ true
    → world.json_files.from_file location ≡ some root
    → world.json_files.put (some root) ≡ true
    → Documented world.json_c
    → IsPlain root
    → (c : Config) × (samconf_load world location enforce ≡ some (ok, some c))
      × (dump world.json_c c ≡ root)
      × AllMarked true c
unfolding samconf_load
samconf_load-dump world location text signature enforce root json readable sig read verified there
      from put laws plain =
    let (c, loaded, back) = dump-json_load world.json_c world.json_files root true laws plain in
    let accepted : verify_location world location ≡ some ok =
      verify_signature-ok world.files (crypto_verify world.ssl world.regexec) location text
        signature readable sig read verified in
    let served =
      json-Served world.json_c world.json_files location true root (some c) there from put loaded in
    let run =
      (load_iff (verify_location world) (backend_table world) location enforce (some c)).1
        (ok, accepted, (inl refl, (_, json-first world location json, served))) in
    (c, run, back, json_load-AllMarked world.json_c world.json_files (some root) true ok c loaded)
