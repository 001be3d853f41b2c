-- ===== src/Tests/Variables.antt =====
-- Loading the environment.
use samconf.Common.{ℕ, true, false, List, [], ◌∷◌, none, some, ◌≡◌, inl, inr, refl, All, list_eq}
use samconf.Status.{ok}
use samconf.Text.{Bytes, codes, to_lower, contains, starts_with, split, split_from}
use samconf.Path.{segments}
use samconf.Config.{Config}
use samconf.Uri.{Uri, found, get_parameter, search_tokens}
use samconf.Env.{loaded, env_supports, env_load, cut_entry, path_of_name, replace_chars}
use samconf.Env.Load.{IsVariable, IsPlaced, env_load-IsPlaced}

abbrev uri : Uri
uri = record {
  plain = none;
  scheme = some (codes "env");
  authority = none;
  path = none;
  query = some (codes "?envPrefix=APP&x=1");
  fragment = none;
}

abbrev pub environ : List Bytes
environ = codes "APP_PORT=80" ∷ codes "HOME=/" ∷ codes "APP_NAME=x" ∷ []

-- No text is a real number.
abbrev strtod : Bytes → ℕ × Bytes
strtod text = (0, text)

supported : env_supports (codes "ENV:?x") false ≡ (ok, true)
unfolding env_supports list_eq to_lower
supported = refl

filter-found : get_parameter uri (codes "envPrefix") ≡ found (codes "APP")
unfolding get_parameter search_tokens split split_from list_eq
filter-found = refl

pub environ-IsVariable : All (IsVariable (codes "APP")) environ
unfolding contains starts_with cut_entry path_of_name replace_chars segments
environ-IsVariable = (inr (cc, (codes "80", refl)), (inl refl, (inr (cc, (codes "x", refl)), tt)))

env_loads :
    (root : Config) × (env_load strtod environ uri true ≡ loaded ok root)
    × All (IsPlaced (codes "APP") root) environ
env_loads = env_load-IsPlaced strtod environ uri true (codes "APP") filter-found environ-IsVariable
