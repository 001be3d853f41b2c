-- ===== src/Loader/Provenance.antt =====
-- samconf.c: which trees `samconfLoadAndMerge` merges.
use samconf.Common.{
  Bool, true, List, [], ◌∷◌, ◌++◌, Option, none, some, ◌≡◌, ◌∙◌, ap, arith, ◌⊎◌, refl, inl, inr,
  All, take, Option-cases, Bool-cases,
}
use samconf.Status.{Status, ok, not_found, is_ok}
use samconf.Text.{Bytes, slash}
use samconf.Config.{Config, object, config_new, with_value}
use samconf.Config.Merge.{Outcome, done, fault, out_of_fuel, merge_config}
use samconf.Loader.{
  Entry, regular_names, insert_name, sort_names, str_le, Location, path, tree, unknown,
  combine_file, combine_location, extend_with_single_path, extend_with_files, extend_with_directory,
  extend_with_location, extend_round, extend_with_all, load_and_merge,
}
use samconf.Loader.Reached.{
  Member, All-Member, Reached, at_start, Extends, merge_config-Extends, after, after-Extends,
}

insert_name-Member :
    (n a : Bytes) (names : List Bytes) → Member n (insert_name a names) → (n ≡ a) ⊎ Member n names
unfolding insert_name
insert_name-Member n a [] h = h
insert_name-Member n a (b ∷ names) h = elim (Bool-cases (str_le a b)) [
  | inl le ↦ rw le at h
  | inr gt ↦
      let h' : (n ≡ b) ⊎ Member n (insert_name a names) = rw gt at h in
      elim h' [
        | inl e ↦ inr (inl e)
        | inr m ↦ elim (insert_name-Member n a names m) [ inl e ↦ inl e | inr k ↦ inr (inr k) ]
      ]
]

sort_names-Member : (n : Bytes) (names : List Bytes) → Member n (sort_names names) → Member n names
unfolding sort_names
sort_names-Member n [] h = h
sort_names-Member n (a ∷ names) h = elim (insert_name-Member n a (sort_names names) h) [
  | inl e ↦ inl e
  | inr m ↦ inr (sort_names-Member n names m)
]

-- The name of a regular file in a listing, as far as the code reads it.
abbrev pub IsFileName : List Entry → Bytes → Type 0
IsFileName entries n = (e : Entry) × Member e entries × (e.regular ≡ true) × (n ≡ take 255 e.name)

regular_names-IsFileName :
    (entries : List Entry) (n : Bytes) → Member n (regular_names entries) → IsFileName entries n
unfolding regular_names
regular_names-IsFileName [] n h = absurd h
regular_names-IsFileName (e ∷ entries) n h =
    let further : IsFileName entries n → IsFileName (e ∷ entries) n =
      λ (f, m, regular, named). (f, inr m, regular, named) in
    elim (Bool-cases e.regular) [
      | inl regular ↦
          let h' : (n ≡ take 255 e.name) ⊎ Member n (regular_names entries) = rw regular at h in
          elim h' [
            | inl named ↦ (e, inl refl, regular, named)
            | inr m ↦ further (regular_names-IsFileName entries n m)
          ]
      | inr other ↦
          let h' : Member n (regular_names entries) = rw other at h in
          further (regular_names-IsFileName entries n h')
    ]

-- The tree that `samconfLoadAndMerge` starts from.
abbrev pub start_of : Option Config → Config
start_of none = with_value object config_new
start_of (some c) = c

module _ (list_dir : Bytes → Option (List Entry)) where
  -- The files that a path stands for: itself, or the regular files of the directory that it is.
  abbrev pub IsFileOf : Bytes → Bytes → Type 0
  IsFileOf p file =
      ((list_dir p ≡ none) × (file ≡ p))
      ⊎ ((entries : List Entry) × (n : Bytes) × (list_dir p ≡ some entries)
          × IsFileName entries n
          × (file ≡ p ++ slash ∷ n))

module _ (load_path : Bytes → Bool → Option (Status × Option Config))
    (list_dir : Bytes → Option (List Entry)) where
  -- A tree that comes from one of some locations: it was loaded with OK from a file of a path, with the
  -- enforcement of that path, or it was given as a tree.
  abbrev pub IsSource : List Location → Option Config → Type 0
  IsSource locations t =
      ((p : Bytes) × (enforce : Bool) × (file : Bytes) × Member (path (some p) enforce) locations
        × IsFileOf list_dir p file
        × (load_path file enforce ≡ some (ok, t)))
      ⊎ Member (tree t) locations

  single-Extends :
      (Source : Option Config → Type 0) (file : Bytes) (enforce : Bool) (c : Config)
      → ((t : Option Config) → load_path file enforce ≡ some (ok, t) → Source t)
      → Extends Source c (extend_with_single_path load_path file enforce c)
  unfolding extend_with_single_path
  single-Extends Source file enforce c h = elim (Option-cases (load_path file enforce)) [
    | inl crashed ↦ rw (crashed, extend_with_single_path) tt
    | inr ((res, added), here) ↦ elim (Bool-cases (is_ok res)) [
      | inl fine ↦
          let good : res ≡ ok = ground arith in
          rw (here, extend_with_single_path, fine)
            (merge_config-Extends Source c added (h added (here ∙ ap (λ r. some (r, added)) good)))
      | inr failed ↦ rw (here, extend_with_single_path, failed) at_start
    ]
  ]

  -- The rounds of the two loops.
  files_after :
      (dir : Bytes) (enforce : Bool) (name : Bytes) (names : List Bytes) (result : Status)
      (c : Config)
      → extend_with_files load_path dir enforce (name ∷ names) result c
        ≡ after
            (extend_with_single_path load_path (dir ++ slash ∷ name) enforce c)
            (λ res d. extend_with_files load_path dir enforce names (combine_file result res) d)
  unfolding extend_with_files
  files_after dir enforce name names result c =
      go (extend_with_single_path load_path (dir ++ slash ∷ name) enforce c) refl
    where
      go :
          (r : Outcome)
          → extend_with_single_path load_path (dir ++ slash ∷ name) enforce c ≡ r
          → extend_with_files load_path dir enforce (name ∷ names) result c
            ≡ after r
                (λ res d. extend_with_files load_path dir enforce names (combine_file result res) d)
      go (done res d) e = rw (extend_with_files, e)
      go fault e = rw (extend_with_files, e)
      go out_of_fuel e = rw (extend_with_files, e)

  all_after :
      (l : Location) (ls : List Location) (status : Status) (c : Config) (r : Outcome)
      → extend_round load_path list_dir l c ≡ some r
      → extend_with_all load_path list_dir (l ∷ ls) status c
        ≡ after r (λ res d. extend_with_all load_path list_dir ls (combine_location status res) d)
  unfolding extend_with_all
  all_after l ls status c (done res d) e = rw (extend_with_all, e)
  all_after l ls status c fault e = rw (extend_with_all, e)
  all_after l ls status c out_of_fuel e = rw (extend_with_all, e)

  files-Extends :
      (Source : Option Config → Type 0) (dir : Bytes) (enforce : Bool) (names : List Bytes)
      (result : Status) (c : Config)
      → ((n : Bytes) (t : Option Config)
          → Member n names
          → load_path (dir ++ slash ∷ n) enforce ≡ some (ok, t)
          → Source t)
      → Extends Source c (extend_with_files load_path dir enforce names result c)
  unfolding extend_with_files
  files-Extends Source dir enforce [] result c h = at_start
  files-Extends Source dir enforce (name ∷ names) result c h =
      rw (files_after dir enforce name names result c) (
        after-Extends Source c (extend_with_single_path load_path (dir ++ slash ∷ name) enforce c)
          (λ res d. extend_with_files load_path dir enforce names (combine_file result res) d)
          (single-Extends Source (dir ++ slash ∷ name) enforce c (λ t e. h name t (inl refl) e))
          (λ res d.
            files-Extends Source dir enforce names (combine_file result res) d
              (λ n t m e. h n t (inr m) e)))

  location-Extends :
      (locations : List Location) (p : Option Bytes) (enforce : Bool) (c : Config)
      → Member (path p enforce) locations
      → Extends (IsSource locations) c (extend_with_location load_path list_dir p enforce c)
  unfolding extend_with_location extend_with_directory
  location-Extends locations none enforce c h = at_start
  location-Extends locations (some p) enforce c h = elim (Option-cases (list_dir p)) [
    | inl single ↦
        rw (single, extend_with_location)
          (single-Extends (IsSource locations) p enforce c
            (λ t e. inl (p, enforce, p, h, inl (single, refl), e)))
    | inr (entries, here) ↦
        rw (here, extend_with_location)
          (files-Extends (IsSource locations) p enforce (sort_names (regular_names entries))
            not_found c
            (λ n t m e. inl (
              p,
              enforce,
              p ++ slash ∷ n,
              h,
              inr (
                entries,
                n,
                here,
                regular_names-IsFileName entries n (sort_names-Member n (regular_names entries) m),
                refl,
              ),
              e,
            )))
  ]

  extend_with_all-Extends :
      (locations ls : List Location) (status : Status) (c : Config)
      → All (λ l. Member l locations) ls
      → Extends (IsSource locations) c (extend_with_all load_path list_dir ls status c)
  unfolding extend_with_all extend_round
  extend_with_all-Extends locations [] status c h = at_start
  extend_with_all-Extends locations (unknown ∷ ls) status c (m, h) =
      extend_with_all-Extends locations ls status c h
  extend_with_all-Extends locations (path p enforce ∷ ls) status c (m, h) =
      rw
        (all_after (path p enforce) ls status c
          (extend_with_location load_path list_dir p enforce c) refl)
        (after-Extends (IsSource locations) c (extend_with_location load_path list_dir p enforce c)
          (λ res d. extend_with_all load_path list_dir ls (combine_location status res) d)
          (location-Extends locations p enforce c m)
          (λ res d. extend_with_all-Extends locations ls (combine_location status res) d h))
  extend_with_all-Extends locations (tree t ∷ ls) status c (m, h) =
      rw (all_after (tree t) ls status c (merge_config c t) refl) (
        after-Extends (IsSource locations) c (merge_config c t)
          (λ res d. extend_with_all load_path list_dir ls (combine_location status res) d)
          (merge_config-Extends (IsSource locations) c t (inr m))
          (λ res d. extend_with_all-Extends locations ls (combine_location status res) d h))

  -- The tree that `samconfLoadAndMerge` ends with, whatever its status, is reached from the tree that it
  -- was given, or from a new object, by merging trees into it, each of which was given as a location or
  -- loaded with status OK from a file that a location stands for, with the enforcement of that location.
  pub load_and_merge-Reached :
      (locations : List Location) (conf : Option Config) (st : Status) (d : Config)
      → load_and_merge load_path list_dir locations conf ≡ done st d
      → Reached (IsSource locations) (start_of conf) d
  unfolding load_and_merge
  load_and_merge-Reached locations none st d e =
      rw e at (
        extend_with_all-Extends locations locations not_found (start_of none)
          (All-Member locations))
  load_and_merge-Reached locations (some c) st d e =
      rw e at (extend_with_all-Extends locations locations not_found c (All-Member locations))
