-- ===== src/Loader/Statuses.antt =====
-- The statuses of `_extendWithDirectory` and `samconfLoadAndMerge` against the statuses of their parts.
use samconf.Common.{
  Bool, true, false, ◌||◌, List, [], ◌∷◌, ◌++◌, Option, none, some, ◌≡◌, ◌⊎◌, refl, sym, ap, ◌∙◌,
  arith, if◌then◌else◌, inl, inr,
}
use samconf.Status.{
  Status, ok, error, not_found, invalid_signature, signature_not_found, overwrite_not_allowed,
  is_ok, is_error, is_signature_not_found, is_invalid_signature, is_overwrite_not_allowed,
}
use samconf.Text.{Bytes, slash}
use samconf.Config.{Config}
use samconf.Config.Merge.{Outcome, done, fault, out_of_fuel}
use samconf.Loader.{
  Entry, Location, combine_file, extend_with_single_path, extend_with_files, extend_round,
  regular_names, sort_names, extend_with_directory,
}

-- Whether a status of some kind is in a list.
abbrev pub any : (Status → Bool) → List Status → Bool
any p [] = false
any p (s ∷ ss) = p s || any p ss

-- The statuses of the files of a directory, whatever their order: the most telling one of invalid
-- signature, OK, overwrite not allowed and signature not found, else not found.
abbrev pub directory_status : List Status → Status
directory_status ss =
    if any is_invalid_signature ss
    then invalid_signature
    else if any is_ok ss
    then ok
    else if any is_overwrite_not_allowed ss
    then overwrite_not_allowed
    else if any is_signature_not_found ss
    then signature_not_found
    else not_found

-- The same for locations: invalid signature, error, OK, else not found.
abbrev pub locations_status : List Status → Status
locations_status ss =
    if any is_invalid_signature ss
    then invalid_signature
    else if any is_error ss
    then error
    else if any is_ok ss
    then ok
    else not_found

-- The statuses that the result for a directory, and that for the locations, can take.
abbrev is_file_level : Status → Bool
is_file_level not_found = true
is_file_level signature_not_found = true
is_file_level overwrite_not_allowed = true
is_file_level ok = true
is_file_level invalid_signature = true
is_file_level _ = false

abbrev is_location_level : Status → Bool
is_location_level not_found = true
is_location_level error = true
is_location_level ok = true
is_location_level invalid_signature = true
is_location_level _ = false

combine_file_level :
    (s r : Status) → is_file_level s ≡ true → is_file_level (combine_file s r) ≡ true
unfolding combine_file
combine_file_level s ok h = ground arith
combine_file_level s _ h = ground arith

combine_file_step :
    (s r : Status) (rs : List Status)
    → is_file_level s ≡ true
    → directory_status (combine_file s r ∷ rs) ≡ directory_status (s ∷ r ∷ rs)
unfolding combine_file
combine_file_step not_found ok rs h = refl
combine_file_step not_found _ rs h = refl
combine_file_step signature_not_found ok rs h = refl
combine_file_step signature_not_found _ rs h = refl
combine_file_step overwrite_not_allowed ok rs h = refl
combine_file_step overwrite_not_allowed _ rs h = refl
combine_file_step ok ok rs h = refl
combine_file_step ok _ rs h = refl
combine_file_step invalid_signature ok rs h = refl
combine_file_step invalid_signature _ rs h = refl
combine_file_step _ r rs h = cc

level_alone : (s : Status) → is_file_level s ≡ true → s ≡ directory_status (s ∷ [])
level_alone ok h = refl
level_alone _ h = ground arith

Outcome-cases :
    (o : Outcome)
    → ((res : Status) × (c : Config) × (o ≡ done res c)) ⊎ (o ≡ fault) ⊎ (o ≡ out_of_fuel)
Outcome-cases (done res c) = inl (res, c, refl)
Outcome-cases fault = inr (inl refl)
Outcome-cases out_of_fuel = inr (inr refl)

module _ (load_path : Bytes → Bool → Option (Status × Option Config)) where
  -- The statuses of the files, each merged into what those before it left.
  pub file_statuses : Bytes → Bool → List Bytes → Config → List Status
  file_statuses dir enforce [] conf = []
  file_statuses dir enforce (name ∷ names) conf =
      elim (extend_with_single_path load_path (dir ++ slash ∷ name) enforce conf) [
        | done res conf' ↦ res ∷ file_statuses dir enforce names conf'
        | fault ↦ []
        | out_of_fuel ↦ []
      ]

  files_status :
      (dir : Bytes) (enforce : Bool) (names : List Bytes) (s st : Status) (conf conf' : Config)
      → is_file_level s ≡ true
      → extend_with_files load_path dir enforce names s conf ≡ done st conf'
      → st ≡ directory_status (s ∷ file_statuses dir enforce names conf)
  unfolding file_statuses extend_with_files
  files_status dir enforce [] s st conf conf' l e = ground (arith, level_alone s l)
  files_status dir enforce (name ∷ names) s st conf conf' l e =
      elim (Outcome-cases (extend_with_single_path load_path (dir ++ slash ∷ name) enforce conf)) [
        | inl (res, c, one) ↦
            let seen : file_statuses dir enforce (name ∷ names) conf
                ≡ res ∷ file_statuses dir enforce names c =
              rw (one, file_statuses) in
            files_status dir enforce names (combine_file s res) st c conf'
              (combine_file_level s res l) (rw (one, extend_with_files) at e)
            ∙ combine_file_step s res (file_statuses dir enforce names c) l
            ∙ ap (λ ss. directory_status (s ∷ ss)) (sym seen)
        | inr (inl one) ↦ ground arith
        | inr (inr one) ↦ ground arith
      ]

  -- The status of a directory of files is settled by the statuses of its files, in no matter which order
  -- they came: invalid signature if one is, else OK if one is, else overwrite not allowed if one is, else
  -- signature not found if one is, else not found. All other errors of a file are passed over.
  pub extend_with_directory-status :
      (entries : List Entry) (enforce : Bool) (dir : Bytes) (conf conf' : Config) (st : Status)
      → extend_with_directory load_path entries enforce dir conf ≡ done st conf'
      → st ≡ directory_status (file_statuses dir enforce (sort_names (regular_names entries)) conf)
  unfolding extend_with_directory
  extend_with_directory-status entries enforce dir conf conf' st e =
      files_status dir enforce (sort_names (regular_names entries)) not_found st conf conf' refl e

module _ (load_path : Bytes → Bool → Option (Status × Option Config))
    (list_dir : Bytes → Option (List Entry)) where
  -- The statuses of the locations, an unknown one having none.
  pub location_statuses : List Location → Config → List Status
  location_statuses [] conf = []
  location_statuses (l ∷ ls) conf = elim (extend_round load_path list_dir l conf) [
    | none ↦ location_statuses ls conf
    | some o ↦ elim o [
      | done res conf' ↦ res ∷ location_statuses ls conf'
      | fault ↦ []
      | out_of_fuel ↦ []
    ]
  ]
