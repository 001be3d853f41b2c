-- ===== src/Config/Merge/Several.antt =====
-- samconf.c: `samconfConfigMergeConfigs`.
use samconf.Common.{false, List, [], ◌∷◌, some, ◌≡◌, ◌⊎◌, refl, ap, arith, inl, inr}
use samconf.Status.{Status, ok, error}
use samconf.Config.{Config}
use samconf.Config.Merge.{
  Outcome, done, fault, out_of_fuel, follows_merge_rule, merge_config, merge_configs_loop,
  merge_configs,
}
use samconf.Config.Merge.Rule.{merge_config-status}

-- One tree merged after the other, whatever their statuses.
unfoldable pub merge_each : List Config → Status → Config → Outcome
merge_each [] result merged = done result merged
merge_each (to_merge ∷ more) result merged = elim (merge_config merged (some to_merge)) [
  | done res merged' ↦ merge_each more res merged'
  | fault ↦ fault
  | out_of_fuel ↦ out_of_fuel
]

Outcome-cases :
    (o : Outcome)
    → ((res : Status) × (m : Config) × (o ≡ done res m)) ⊎ (o ≡ fault) ⊎ (o ≡ out_of_fuel)
Outcome-cases (done res m) = inl (res, m, refl)
Outcome-cases fault = inr (inl refl)
Outcome-cases out_of_fuel = inr (inr refl)

-- A tree that the rule refuses leaves a base for which the rule refuses it again.
refused-again :
    (merged to_merge merged' : Config) (res : Status)
    → merge_config merged (some to_merge) ≡ done res merged'
    → (follows_merge_rule merged' to_merge ≡ false) ⊎ (res ≡ ok)
unfolding follows_merge_rule
refused-again merged to_merge merged' res e =
    elim (merge_config-status merged to_merge merged' res e) [
      | inl (signed, unsigned, st, same) ↦ inl (rw same (ground arith))
      | inr (allowed, st) ↦ inr st
    ]

loop-merge_each :
    (ts : List Config) (result : Status) (merged : Config)
    → merge_configs_loop ts result merged ≡ merge_each ts result merged
unfolding merge_configs_loop merge_each
loop-merge_each [] result merged = refl
loop-merge_each (t ∷ ts) result merged = elim (Outcome-cases (merge_config merged (some t))) [
  | inl (res, m, e) ↦ elim (refused-again merged t m res e) [
    | inl again ↦ rw (e, again, merge_configs_loop, merge_each) (loop-merge_each ts res m)
    | inr fine ↦ ground (arith, loop-merge_each ts res m)
  ]
  | inr (inl e) ↦ rw (e, merge_configs_loop, merge_each) refl
  | inr (inr e) ↦ rw (e, merge_configs_loop, merge_each) refl
]

-- The break in the loop of `samconfConfigMergeConfigs` is never taken: each tree is merged into what
-- those before it left, refused ones being passed over, and the status is that of the last merge, or
-- ERROR if there is no tree.
pub merge_configs-merge_each :
    (merged : Config) (to_merge : List Config)
    → merge_configs (some merged) to_merge ≡ inr (merge_each to_merge error merged)
unfolding merge_configs
merge_configs-merge_each merged to_merge = ap inr (loop-merge_each to_merge error merged)
