-- ===== src/Loader/Reached.antt =====
-- The trees that merges reach from another one.
use samconf.Common.{List, [], ◌∷◌, Option, ◌≡◌, ◌⊎◌, refl, inl, inr, All}
use samconf.Status.{Status}
use samconf.Config.{Config}
use samconf.Config.Merge.{Outcome, done, fault, out_of_fuel, merge_config}

-- A value is in a list.
abbrev pub Member : {A : Type 0} → A → List A → Type 0
Member a [] = ⊥
Member a (b ∷ bs) = (a ≡ b) ⊎ Member a bs

pub All-mono :
    {A : Type 0} {P Q : A → Type 0} (xs : List A) → ((x : A) → P x → Q x) → All P xs → All Q xs
All-mono [] f h = tt
All-mono (x ∷ xs) f (p, h) = (f x p, All-mono xs f h)

pub All-Member : {A : Type 0} (xs : List A) → All (λ x. Member x xs) xs
All-Member [] = tt
All-Member (x ∷ xs) = (inl refl, All-mono xs (λ y m. inr m) (All-Member xs))

-- The tree that is reached from another by merging trees of some kind into it, one after the other.
pub data Reached (Source : Option Config → Type 0) (start : Config) : Config → Type 0 where
  at_start : Reached Source start start
  merged :
      {c d : Config} (st : Status) (t : Option Config)
      → Reached Source start c
      → Source t
      → merge_config c t ≡ done st d
      → Reached Source start d

pub Reached-trans :
    {Source : Option Config → Type 0} {b c d : Config}
    → Reached Source b c
    → Reached Source c d
    → Reached Source b d
Reached-trans r at_start = r
Reached-trans r (merged st t s h e) = merged st t (Reached-trans r s) h e

pub Reached-weaken :
    {Source Target : Option Config → Type 0} {c d : Config}
    → ((t : Option Config) → Source t → Target t)
    → Reached Source c d
    → Reached Target c d
Reached-weaken f at_start = at_start
Reached-weaken f (merged st t s h e) = merged st t (Reached-weaken f s) (f t h) e

-- What an extension comes to: a tree that was reached, unless it crashes.
abbrev pub Extends : (Option Config → Type 0) → Config → Outcome → Type 0
Extends Source c (done st d) = Reached Source c d
Extends Source c _ = Unit

pub merge_config-Extends :
    (Source : Option Config → Type 0) (c : Config) (t : Option Config)
    → Source t
    → Extends Source c (merge_config c t)
merge_config-Extends Source c t h = go (merge_config c t) refl
  where
    go : (r : Outcome) → merge_config c t ≡ r → Extends Source c r
    go (done st d) e = merged st t at_start h e
    go fault e = tt
    go out_of_fuel e = tt

-- One extension behind another.
pub Extends-trans :
    {Source : Option Config → Type 0} {c d : Config} (r : Outcome)
    → Reached Source c d
    → Extends Source d r
    → Extends Source c r
Extends-trans (done st e) s h = Reached-trans s h
Extends-trans fault s h = tt
Extends-trans out_of_fuel s h = tt

-- What the code goes on with behind an extension.
abbrev pub after : Outcome → (Status → Config → Outcome) → Outcome
after (done st d) k = k st d
after fault k = fault
after out_of_fuel k = out_of_fuel

pub after-Extends :
    (Source : Option Config → Type 0) (c : Config) (r : Outcome) (k : Status → Config → Outcome)
    → Extends Source c r
    → ((st : Status) (d : Config) → Extends Source d (k st d))
    → Extends Source c (after r k)
after-Extends Source c (done st d) k h more = Extends-trans (k st d) h (more st d)
after-Extends Source c fault k h more = tt
after-Extends Source c out_of_fuel k h more = tt
