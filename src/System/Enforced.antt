-- ===== src/System/Enforced.antt =====
-- samconf.c: what `samconfLoad` has done when it answers OK for a JSON file.
use samconf.Common.{
  Bool, true, false, ◌++◌, Option, some, ◌≡◌, sym, ap, ◌∙◌, arith, inl, inr, Option-cases,
}
use samconf.Status.{Status, ok, is_ok}
use samconf.Text.{Bytes, codes}
use mathlib.Core.Path.{subst}
use samconf.Config.{Config, object, with_value, config_new}
use samconf.Backend.{backend_init, get_backend_ops, lookup_backend}
use samconf.Backend.Choice.{lookup_backend-first}
use samconf.Json.{
  Json, JsonC, JsonFiles, json_ops, json_supports, json_open, json_load, after_last, transform,
  keyed,
}
use samconf.Json.Marks.{AllMarked, json_load-AllMarked}
use samconf.Crypto.{crypto_verify}
use samconf.Loader.Policy.{Permitted, Served, load_iff, verify_signature_sound}
use samconf.System.{
  json_handle, json_kind, of_kind, World, backend_table, verify_location, samconf_load,
}

pub Permitted-enforced : (st : Status) → Permitted st true → st ≡ ok
Permitted-enforced st (inl fine) = fine
Permitted-enforced st (inr (missing, free)) = cc

supports-any :
    (location : Bytes) (s : Bool)
    → json_supports location false ≡ (ok, true)
    → json_supports location s ≡ (ok, true)
unfolding json_supports
supports-any location s h = elim (Option-cases (after_last b'.' location)) [
  | inl missing ↦ ground arith
  | inr (ext, here) ↦ ground arith
]

module _ (json_c : JsonC) (files : JsonFiles) where
  -- The document that the JSON backend opened, and the tree that it made of it.
  abbrev FromDocument : Bytes → Bool → Option Config → Type 0
  FromDocument location signed tree =
      (root : Json) × (files.from_file location ≡ some root)
      × (json_load json_c files (some root) signed ≡ (ok, tree))

  Served-FromDocument :
      (location : Bytes) (signed : Bool) (tree : Option Config)
      → Served (backend_init (of_kind json_kind (json_ops json_c files))) location signed tree
      → FromDocument location signed tree
  unfolding json_ops json_open
  Served-FromDocument location signed tree (h, opened, loaded, closed) =
      elim (Option-cases (files.from_file location)) [
        | inl missing ↦ ground arith
        | inr (root, here) ↦
            let handle : h ≡ some (json_handle root) = ground arith in
            let made : ◌≡◌ {A = Option (Status × Option Config)}
                (some (json_load json_c files (some root) signed)) (some (ok, tree)) =
              rw handle at loaded in
            (root, here, cc)
      ]

json_load-some :
    (json_c : JsonC) (files : JsonFiles) (root : Json) (signed : Bool) (st : Status)
    (tree : Option Config)
    → json_load json_c files (some root) signed ≡ (st, tree)
    → (c : Config) × (tree ≡ some c) × (json_load json_c files (some root) signed ≡ (st, some c))
unfolding json_load
json_load-some json_c files root signed st tree e =
    let is_c = sym (ap (λ (r : Status × Option Config). r.1) e) in
    (
      (transform json_c root signed (with_value object (keyed (codes "config") config_new))).1,
      is_c,
      e ∙ ap (λ t. (st, t)) is_c,
    )

pub json-first :
    {K D : Type 0} (world : World K D) (location : Bytes)
    → json_supports location false ≡ (ok, true)
    → lookup_backend (backend_table world) location
      ≡ (ok, some (backend_init (of_kind json_kind (json_ops world.json_c world.json_files))))
unfolding get_backend_ops json_ops
json-first world location h =
    lookup_backend-first (backend_table world) location 0 (omega arith)
      (λ i l. absurd (omega arith)) (λ s. supports-any location s h)

-- Loading a location that the JSON backend supports and that can be read, with enforcement: where
-- `samconfLoad` answers OK, the signature file was read, `samconfCryptoUtilsVerify` answered OK for the
-- text of the location and that signature, and the tree stored is the one that the JSON backend makes of
-- the document at the location, with every node of it marked as signed.
pub samconf_load-enforced :
    {K D : Type 0} (world : World K D) (location text : Bytes) (tree : Option Config)
    → json_supports location false ≡ (ok, true)
    → world.files.read_file location ≡ some text
    → samconf_load world location true ≡ some (ok, tree)
    → (signature : Bytes) × (root : Json) × (c : Config) × (world.files.readable
          (location ++ codes ".sig")
        ≡ true)
      × (world.files.read_file (location ++ codes ".sig") ≡ some signature)
      × (crypto_verify world.ssl world.regexec text signature ≡ some ok)
      × (world.json_files.from_file location ≡ some root)
      × (json_load world.json_c world.json_files (some root) true ≡ (ok, some c))
      × (tree ≡ some c)
      × AllMarked true c
unfolding samconf_load
samconf_load-enforced world location text tree json read e =
    let (st, verified, (allowed, (b, here, served))) =
      (load_iff (verify_location world) (backend_table world) location true tree).0 e in
    let fine = Permitted-enforced st allowed in
    let (signature, readable, sig, crypto) =
      verify_signature_sound world.files (crypto_verify world.ssl world.regexec) location text read
        (verified ∙ ap some fine) in
    let backend : b ≡ backend_init (of_kind json_kind (json_ops world.json_c world.json_files)) =
      cc (here, json-first world location json) in
    let served' : Served (backend_init (of_kind json_kind (json_ops world.json_c world.json_files)))
        location true tree =
      subst (λ x. Served x location true tree) backend
        (subst (λ s. Served b location (is_ok s) tree) fine served) in
    let (root, from, made) =
      Served-FromDocument world.json_c world.json_files location true tree served' in
    let (c, is_c, made') = json_load-some world.json_c world.json_files root true ok tree made in
    (
      signature,
      root,
      c,
      readable,
      sig,
      crypto,
      from,
      made',
      is_c,
      json_load-AllMarked world.json_c world.json_files (some root) true ok c made',
    )
