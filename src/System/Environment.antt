-- ===== src/System/Environment.antt =====
-- samconf.c: what `samconfLoad` does with a location in the environment.
use samconf.Common.{
  ℕ, zero, suc, ◌<◌, Bool, true, false, ◌++◌, Option, none, some, ◌≡◌, ap, refl, arith, inl, inr,
  All, Option-cases, take,
}
use samconf.Status.{Status, ok, error, signature_not_found}
use samconf.Text.{Bytes, codes, str_case_eq}
use samconf.Config.{Config}
use samconf.Signature.{get_signature_for}
use samconf.Backend.{Backend, backend_init, get_backend_ops, lookup_backend}
use samconf.Backend.Choice.{Declines, lookup_backend-first}
use samconf.Json.{json_ops, json_supports, after_last}
use samconf.Uri.{Uri, uri_new, found, get_parameter}
use samconf.Env.{
  env_supports, env_open, env_load, env_load_handle, env_close, env_ops, scheme_is_env, loaded,
}
use samconf.Env.Load.{IsVariable, IsPlaced, env_load-IsPlaced}
use samconf.Loader.{verify_signature, load}
use samconf.Loader.Policy.{Served, load_iff}
use samconf.System.{
  Handle, uri_handle, uri_kind, of_kind, stored, World, backend_table, verify_location,
  samconf_load,
}

module _ {K D : Type 0} (world : World K D) (location : Bytes) where
  -- The backend of the environment, as the table has it.
  abbrev env_backend : Backend Handle
  env_backend = backend_init (of_kind uri_kind (env_ops world.regexec world.strtod world.environ))

  unsigned_location :
      world.files.readable (location ++ codes ".sig") ≡ false
      → verify_location world location ≡ some signature_not_found
  unfolding verify_signature get_signature_for
  unsigned_location h =
      let missing : get_signature_for world.files location ≡ (signature_not_found, none) =
        rw h refl in
      let status = ap (λ (r : Status × Option Bytes). r.0) missing in
      rw (verify_signature, missing, status) refl

  json-Declines :
      json_supports location false ≡ (error, false)
      → Declines location (get_backend_ops (backend_table world) 0)
  unfolding json_supports get_backend_ops json_ops
  json-Declines h = (error, refl, go)
    where
      go : (s : Bool) → json_supports location s ≡ (error, s)
      go s = elim (Option-cases (after_last b'.' location)) [
        | inl missing ↦ ground arith
        | inr (ext, here) ↦ ground arith
      ]

  env-chosen :
      json_supports location false ≡ (error, false)
      → str_case_eq (take 3 location) (codes "env") ≡ true
      → lookup_backend (backend_table world) location ≡ (ok, some env_backend)
  unfolding get_backend_ops env_ops env_supports
  env-chosen other named =
      lookup_backend-first (backend_table world) location 1 (omega arith) before
        (λ s. rw named refl)
    where
      before : (i : ℕ) → i < 1 → Declines location (get_backend_ops (backend_table world) i)
      before zero l = json-Declines other
      before (suc i) l = absurd (omega arith)

  env_opened :
      (uri : Uri)
      → uri_new world.regexec location ≡ (ok, some uri)
      → scheme_is_env uri ≡ true
      → env_open world.regexec location none ≡ (ok, some uri)
  unfolding env_open
  env_opened uri made is_env =
      let status = ap (λ (r : Status × Option Uri). r.0) made in rw (made, env_open, is_env, status)

  env_loaded :
      (uri : Uri) (root : Config) (signed : Bool)
      → env_load world.strtod world.environ uri signed ≡ loaded ok root
      → env_load_handle world.strtod world.environ (some uri) signed ≡ some (ok, some root)
  unfolding env_load_handle
  env_loaded uri root signed ran = rw (env_load_handle, ran)

  env-Served :
      (uri : Uri) (root : Config) (signed : Bool)
      → uri_new world.regexec location ≡ (ok, some uri)
      → scheme_is_env uri ≡ true
      → env_load world.strtod world.environ uri signed ≡ loaded ok root
      → Served env_backend location signed (some root)
  unfolding env_ops env_open env_load_handle env_close
  env-Served uri root signed made is_env ran = (
    some (uri_handle uri),
    ap (λ (r : Status × Option Uri). (r.0, stored uri_kind r.1)) (env_opened uri made is_env),
    env_loaded uri root signed ran,
    refl,
  )

  samconf_load-unenforced :
      (uri : Uri) (root : Config)
      → verify_location world location ≡ some signature_not_found
      → lookup_backend (backend_table world) location ≡ (ok, some env_backend)
      → Served env_backend location false (some root)
      → samconf_load world location false ≡ some (ok, some root)
  unfolding samconf_load
  samconf_load-unenforced uri root unsigned chosen served =
      (load_iff (verify_location world) (backend_table world) location false (some root)).1
        (signature_not_found, unsigned, (inr (refl, refl), (env_backend, chosen, served)))

  samconf_load-refused :
      verify_location world location ≡ some signature_not_found
      → samconf_load world location true ≡ some (signature_not_found, none)
  unfolding samconf_load load
  samconf_load-refused unsigned = rw (unsigned, load)

  -- For a location that names the environment, that has no signature file, that the JSON backend declines
  -- and that is a URI with the scheme of the environment and a filter, `samconfLoad` with enforcement
  -- answers SIGNATURE_NOT_FOUND and stores nothing. Without it, if each variable that the filter selects
  -- has a value and a name that makes a path with a segment, it answers OK and stores a tree in which the
  -- path of each selected variable leads to a node.
  pub samconf_load-environment :
      (uri : Uri) (filter : Bytes)
      → world.files.readable (location ++ codes ".sig") ≡ false
      → json_supports location false ≡ (error, false)
      → str_case_eq (take 3 location) (codes "env") ≡ true
      → uri_new world.regexec location ≡ (ok, some uri)
      → scheme_is_env uri ≡ true
      → get_parameter uri (codes "envPrefix") ≡ found filter
      → All (IsVariable filter) world.environ
      → (samconf_load world location true ≡ some (signature_not_found, none))
        × ((root : Config) × (samconf_load world location false ≡ some (ok, some root))
            × All (IsPlaced filter root) world.environ)
  samconf_load-environment uri filter no_file other named made is_env given variables =
      let unsigned = unsigned_location no_file in
      let (root, ran, placed) =
        env_load-IsPlaced world.strtod world.environ uri false filter given variables in
      let served = env-Served uri root false made is_env ran in
      let chosen = env-chosen other named in
      (
        samconf_load-refused unsigned,
        (root, samconf_load-unenforced uri root unsigned chosen served, placed),
      )
