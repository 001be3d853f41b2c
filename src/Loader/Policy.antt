-- ===== src/Loader/Policy.antt =====
-- samconf.c: `samconfLoad`, `samconfVerifySignature` and the signature policy.
use samconf.Common.{
  Bool, true, false, List, Option, none, some, ◌≡◌, ◌⊎◌, ◌↔◌, arith, inl, inr, Option-cases, ◌++◌,
}
use samconf.Status.{Status, ok, signature_not_found, is_ok}
use samconf.Text.{Bytes, codes}
use samconf.Signature.{Files, get_signature_for}
use samconf.Backend.{BackendOps, Backend, lookup_backend}
use samconf.Config.{Config}
use samconf.Loader.{verify_signature, loaded_by, load_with, load}

-- The policy: the signature was verified, or there is none and none is demanded.
abbrev pub Permitted : Status → Bool → Type 0
Permitted st enforce = (st ≡ ok) ⊎ ((st ≡ signature_not_found) × (enforce ≡ false))

-- The backend opened the location, loaded a tree from it with a given mark, and closed it.
abbrev pub Served : {H : Type 0} → Backend H → Bytes → Bool → Option Config → Type 0
Served {H} b location signed tree =
    (h : Option H) × (b.ops.open_location location b.backend_handle ≡ (ok, h))
    × (b.ops.load h signed ≡ some (ok, tree))
    × (b.ops.close h ≡ some ok)

module _ {H : Type 0} where
  load_with-Served :
      (b : Backend H) (location : Bytes) (signed : Bool) (tree : Option Config)
      → load_with b location signed ≡ some (ok, tree)
      → Served b location signed tree
  unfolding load_with
  load_with-Served b location signed tree e =
      let h = (b.ops.open_location location b.backend_handle).1 in
      elim (Option-cases (b.ops.load h signed)) [
        | inl crashed ↦ ground arith
        | inr (loaded, here) ↦ elim (Option-cases (b.ops.close h)) [
          | inl crashed ↦ ground arith
          | inr (closed, end) ↦ (h, ground arith, ground arith, ground arith)
        ]
      ]

  Served-load_with :
      (b : Backend H) (location : Bytes) (signed : Bool) (tree : Option Config)
      → Served b location signed tree
      → load_with b location signed ≡ some (ok, tree)
  unfolding load_with
  Served-load_with b location signed tree (h, opened, loaded, closed) =
      rw (opened, load_with, loaded, opened, closed, loaded_by)

  -- What a load that answers OK went through, for the status of the verification.
  abbrev pub Went : List (Option (BackendOps H)) → Bytes → Bool → Option Config → Status → Type 0
  Went table location enforce tree st =
      Permitted st enforce
      × ((b : Backend H) × (lookup_backend table location ≡ (ok, some b))
          × Served b location (is_ok st) tree)

  load-crash :
      (verify : Bytes → Option Status) (table : List (Option (BackendOps H))) (location : Bytes)
      (enforce : Bool) (tree : Option Config)
      → verify location ≡ none
      → load verify table location enforce ≡ some (ok, tree)
      → ⊥
  unfolding load
  load-crash verify table location enforce tree crashed e = ground arith

  load_to :
      (verify : Bytes → Option Status) (table : List (Option (BackendOps H))) (location : Bytes)
      (enforce : Bool) (tree : Option Config) (st : Status)
      → verify location ≡ some st
      → load verify table location enforce ≡ some (ok, tree)
      → Went table location enforce tree st
  unfolding load
  load_to verify table location enforce tree st verified e =
      elim (Option-cases (lookup_backend table location).1) [
        | inl missing ↦ ground arith
        | inr (b, here) ↦ (
          ground arith,
          (b, ground arith, load_with-Served b location (is_ok st) tree (ground arith)),
        )
      ]

  load_from :
      (verify : Bytes → Option Status) (table : List (Option (BackendOps H))) (location : Bytes)
      (enforce : Bool) (tree : Option Config) (st : Status)
      → verify location ≡ some st
      → Went table location enforce tree st
      → load verify table location enforce ≡ some (ok, tree)
  unfolding load
  load_from verify table location enforce tree st verified (allowed, (b, here, served)) =
      ground (arith, Served-load_with b location (is_ok st) tree served)

  -- `samconfLoad` answers OK exactly when the verification ends with a status by which the policy permits
  -- the location, a backend is found, and that backend opens the location, loads the tree and closes; the
  -- tree is loaded with the mark "signed" exactly if the verification answered OK. In particular a
  -- location whose signature is missing is loaded only without enforcement, and one whose verification
  -- fails otherwise is never loaded.
  pub load_iff :
      (verify : Bytes → Option Status) (table : List (Option (BackendOps H))) (location : Bytes)
      (enforce : Bool) (tree : Option Config)
      → (load verify table location enforce ≡ some (ok, tree))
        ↔ ((st : Status) × (verify location ≡ some st) × Went table location enforce tree st)
  load_iff verify table location enforce tree = (
    λ e. elim (Option-cases (verify location)) [
      | inl crashed ↦ absurd (load-crash verify table location enforce tree crashed e)
      | inr (st, verified) ↦
          (st, verified, load_to verify table location enforce tree st verified e)
    ],
    λ (st, verified, went). load_from verify table location enforce tree st verified went,
  )

-- If the signature file of a location can be read and the location itself cannot, the verification
-- answers OK although nothing was verified, whatever the signature and the verifying function are.
pub verify_signature-unread :
    (files : Files) (verify : Bytes → Bytes → Option Status) (location signature : Bytes)
    → files.readable (location ++ codes ".sig") ≡ true
    → files.read_file (location ++ codes ".sig") ≡ some signature
    → files.read_file location ≡ none
    → verify_signature files verify location ≡ some ok
unfolding verify_signature get_signature_for
verify_signature-unread files verify location signature a r u = ground arith

-- If the location can be read, the verification answers OK only for a location whose signature file
-- was read and for whose text and signature the verifying function answers OK.
pub verify_signature_sound :
    (files : Files) (verify : Bytes → Bytes → Option Status) (location text : Bytes)
    → files.read_file location ≡ some text
    → verify_signature files verify location ≡ some ok
    → (signature : Bytes) × (files.readable (location ++ codes ".sig") ≡ true)
      × (files.read_file (location ++ codes ".sig") ≡ some signature)
      × (verify text signature ≡ some ok)
unfolding verify_signature get_signature_for
verify_signature_sound files verify location text read e =
    elim (Option-cases (files.read_file (location ++ codes ".sig"))) [
      | inl missing ↦ ground arith
      | inr (signature, here) ↦ (signature, ground arith, here, ground arith)
    ]
