-- ===== src/System/Verified.antt =====
-- samconf.c: what `samconfLoadAndMerge` merges when signatures are enforced.
use samconf.Common.{Bool, true, List, [], ◌∷◌, Option, some, ◌≡◌, ◌⊎◌, sym, ap, ◌∙◌, inl, inr, All}
use mathlib.Core.Path.{subst}
use samconf.Status.{Status, ok, is_ok}
use samconf.Text.{Bytes}
use samconf.Config.{Config}
use samconf.Config.Merge.{done}
use samconf.Backend.{Backend, lookup_backend}
use samconf.Loader.{Location, path, tree}
use samconf.Loader.Policy.{Served, load_iff}
use samconf.Loader.Provenance.{IsFileOf, IsSource, start_of, load_and_merge-Reached}
use samconf.Loader.Reached.{Member, Reached, Reached-weaken}
use samconf.System.{
  Handle, World, backend_table, verify_location, samconf_load, samconf_load_and_merge,
}
use samconf.System.Enforced.{Permitted-enforced}

-- A location that is a path is enforced.
abbrev pub IsEnforced : Location → Type 0
IsEnforced (path p enforce) = enforce ≡ true
IsEnforced _ = Unit

enforced-Member :
    (locations : List Location) (p : Option Bytes) (enforce : Bool)
    → All IsEnforced locations
    → Member (path p enforce) locations
    → enforce ≡ true
enforced-Member [] p enforce h m = absurd m
enforced-Member (l ∷ ls) p enforce (h, hs) (inl e) = subst IsEnforced (sym e) h
enforced-Member (l ∷ ls) p enforce (h, hs) (inr m) = enforced-Member ls p enforce hs m

module _ {K D : Type 0} (world : World K D) where
  -- A tree that a backend loaded as signed from a file whose verification answered OK.
  abbrev pub IsVerified : Bytes → Option Config → Type 0
  IsVerified file t =
      (verify_location world file ≡ some ok)
      × ((b : Backend Handle) × (lookup_backend (backend_table world) file ≡ (ok, some b))
          × Served b file true t)

  loaded-IsVerified :
      (file : Bytes) (t : Option Config)
      → samconf_load world file true ≡ some (ok, t)
      → IsVerified file t
  unfolding samconf_load
  loaded-IsVerified file t e =
      let (st, verified, (allowed, (b, here, served))) =
        (load_iff (verify_location world) (backend_table world) file true t).0 e in
      let fine = Permitted-enforced st allowed in
      let signed : Served b file true t = rw (ap is_ok fine) at served in
      (verified ∙ ap some fine, (b, here, signed))

  -- Such a tree from a file that one of some locations stands for, or a tree that is one of them.
  abbrev pub IsTrusted : List Location → Option Config → Type 0
  IsTrusted locations t =
      ((p : Bytes) × (file : Bytes) × Member (path (some p) true) locations
        × IsFileOf world.list_dir p file
        × IsVerified file t)
      ⊎ Member (tree t) locations

  -- Where each path among the locations is enforced, the tree that `samconfLoadAndMerge` ends with,
  -- whatever its status, is reached from the tree that it was given, or from a new object, by merging
  -- trees into it, each of which was given as a location, or was loaded as signed by the backend of a
  -- file that a location stands for and for which the verification of the signature answered OK.
  pub samconf_load_and_merge-IsTrusted :
      (locations : List Location) (conf : Option Config) (st : Status) (d : Config)
      → All IsEnforced locations
      → samconf_load_and_merge world locations conf ≡ done st d
      → Reached (IsTrusted locations) (start_of conf) d
  unfolding samconf_load_and_merge
  samconf_load_and_merge-IsTrusted locations conf st d h e =
      Reached-weaken go
        (load_and_merge-Reached (samconf_load world) world.list_dir locations conf st d e)
    where
      go :
          (t : Option Config)
          → IsSource (samconf_load world) world.list_dir locations t
          → IsTrusted locations t
      go t (inr m) = inr m
      go t (inl (p, enforce, file, m, here, loaded)) =
          let on = enforced-Member locations (some p) enforce h m in
          inl (p, file, rw on at m, here, loaded-IsVerified file t (rw on at loaded))
