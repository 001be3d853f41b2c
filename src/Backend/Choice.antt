-- ===== src/Backend/Choice.antt =====
-- samconf.c: which backend `samconfLookupBackend` chooses.
use samconf.Common.{
  ℕ, zero, suc, ◌+◌, ◌<◌, ◌≤◌, ap, ◌==◌, Bool, true, false, List, Option, some, ◌≡◌, arith, inl,
  inr, Bool-cases,
}
use samconf.Status.{Status, ok, is_ok}
use samconf.Text.{Bytes}
use samconf.Backend.{
  BackendOps, backend_init, backend_new, get_backend_ops, lookup_loop, lookup_backend,
}

module _ {H : Type 0} where
  -- A backend answers OK to the question for a location and sets `*isSupported`, whatever it was.
  abbrev pub Accepts : Bytes → BackendOps H → Type 0
  Accepts location ops = (s : Bool) → ops.supports location s ≡ (ok, true)

  -- It does not answer OK and leaves `*isSupported` as it is.
  abbrev pub Declines : Bytes → BackendOps H → Type 0
  Declines location ops =
      (st : Status) × (is_ok st ≡ false) × ((s : Bool) → ops.supports location s ≡ (st, s))

  lookup_loop-first :
      (table : List (Option (BackendOps H))) (location : Bytes) (left idx k : ℕ) (s : Bool)
      → idx ≤ k
      → k < idx + left
      → ((i : ℕ) → idx ≤ i → i < k → Declines location (get_backend_ops table i))
      → Accepts location (get_backend_ops table k)
      → lookup_loop table location left idx s ≡ (ok, some (backend_init (get_backend_ops table k)))
  unfolding lookup_loop backend_new
  lookup_loop-first table location zero idx k s lo hi d a = absurd (omega arith)
  lookup_loop-first table location (suc left) idx k s lo hi d a = elim (Bool-cases (idx == k)) [
    | inl same ↦
        let here : idx ≡ k = ground arith in
        let accepted : (get_backend_ops table idx).supports location s ≡ (ok, true) =
          rw here (a s) in
        rw (accepted, lookup_loop)
          (ap (λ i. (ok, some (backend_init (get_backend_ops table i)))) here)
    | inr other ↦
        let further : idx < k = ground arith in
        let (st, fails, left_as_is) = d idx (omega arith) further in
        rw (left_as_is s, fails, lookup_loop)
          (lookup_loop-first table location left (suc idx) k s (omega arith) (omega arith)
            (λ i. λ l. λ u. d i (omega arith) u) a)
  ]

  -- Where a backend of the table accepts a location and each backend before it declines, the search
  -- answers OK with a new backend over the operations of that one, for the three places of the table.
  pub lookup_backend-first :
      (table : List (Option (BackendOps H))) (location : Bytes) (k : ℕ)
      → k < 3
      → ((i : ℕ) → i < k → Declines location (get_backend_ops table i))
      → Accepts location (get_backend_ops table k)
      → lookup_backend table location ≡ (ok, some (backend_init (get_backend_ops table k)))
  unfolding lookup_backend
  lookup_backend-first table location k h d a =
      lookup_loop-first table location 3 0 k false (omega arith) (omega arith)
        (λ i. λ l. λ u. d i u) a
