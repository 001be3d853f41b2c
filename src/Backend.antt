-- ===== src/Backend.antt =====
-- src/samconf/private/config_backend.c, dummy_backend.c, and the choice of a backend in samconf.c.
pub mod Choice
use samconf.Common.{
  ℕ, zero, suc, Bool, true, false, ◌&&◌, List, [], ◌∷◌, Option, none, some, if◌then◌else◌,
}
use samconf.Status.{Status, ok, error, not_implemented, is_ok}
use samconf.Text.{Bytes}
use samconf.Config.{Config}

-- samconfConfigBackendOps_t. H is what `backendHandle` can point to, `none` for NULL. `supports` has
-- `*isSupported` as an argument and a result, since an implementation may leave it as it is. The outer
-- `none` of `load` and `close` is a NULL dereference or a read outside of the memory.
pub record BackendOps (H : Type 0) : Type 0 where
  pub supports : Bytes → Bool → Status × Bool
  pub open_location : Bytes → Option H → Status × Option H
  pub load : Option H → Bool → Option (Status × Option Config)
  pub close : Option H → Option Status

-- samconfConfigBackend_t
pub record Backend (H : Type 0) : Type 0 where
  pub backend_handle : Option H
  pub ops : BackendOps H

module _ {H : Type 0} where
  -- `samconfConfigBackendInit`
  abbrev pub backend_init : BackendOps H → Backend H
  backend_init ops = record { backend_handle = none; ops = ops }

  -- `samconfConfigBackendNew`: the status and `*backend`.
  unfoldable pub backend_new : BackendOps H → Status × Option (Backend H)
  backend_new ops = (ok, some (backend_init ops))

  -- `samconfConfigBackendDelete`
  abbrev pub backend_delete : Backend H → Status
  backend_delete backend = ok

  -- `samconfDummyOps`: every operation answers that it is not implemented.
  unfoldable pub dummy_ops : BackendOps H
  dummy_ops = record {
    supports = λ location supported. (not_implemented, supported);
    open_location = λ location handle. (not_implemented, handle);
    load = λ handle signed. some (not_implemented, none);
    close = λ handle. some not_implemented;
  }

  -- `samconfGetBackendOps` over the table `samconfBackendOps`, in which an entry that the build leaves
  -- out is NULL.
  unfoldable pub get_backend_ops : List (Option (BackendOps H)) → ℕ → BackendOps H
  get_backend_ops [] idx = dummy_ops
  get_backend_ops (none ∷ table) zero = dummy_ops
  get_backend_ops (some ops ∷ table) zero = ops
  get_backend_ops (entry ∷ table) (suc idx) = get_backend_ops table idx

  -- The loop of `samconfLookupBackend` over the `left` entries from idx on. `isSupported` stays as it
  -- is between the rounds.
  unfoldable pub lookup_loop :
      List (Option (BackendOps H)) → Bytes → ℕ → ℕ → Bool → Status × Option (Backend H)
  lookup_loop table location zero idx supported = (error, none)
  lookup_loop table location (suc left) idx supported =
      let ops = get_backend_ops table idx in
      let (status, supported') = ops.supports location supported in
      let further = lookup_loop table location left (suc idx) supported' in
      if is_ok status && supported' then backend_new ops else further

  -- `samconfLookupBackend`; BACKEND_COUNT is 3.
  unfoldable pub lookup_backend : List (Option (BackendOps H)) → Bytes → Status × Option (Backend H)
  lookup_backend table location = lookup_loop table location 3 0 false
