-- ===== src/Store/Freed.antt =====
-- `samconfConfigDelete` on pointers: which memory it frees.
use samconf.Common.{
  ℕ, zero, suc, ◌≤◌, ◌==◌, List, Option, none, some, ◌≡◌, ◌≢◌, refl, ap, ◌∙◌, inl, inr, arith,
  Bool-cases,
}
use samconf.Status.{Status, ok}
use samconf.Config.Merge.{size, size_children}
use samconf.Store.{
  Addr, Cell, Store, Walk, walked, and_then, visit_all, discard, worst, store_delete,
}
use samconf.Store.Laid.{
  Laid, laid, Laids, empty, more, address, roots, erase, erase_all, LiesIn, AllLieIn, IsAddress,
  IsAddressIn, AreDistinct, AreDistinctIn,
}
use samconf.Store.Add.{eq_self, eq-ne}
use samconf.Store.Frame.{AllLieIn-frame}

-- The loop of a deletion over addresses.
abbrev delete_all : ℕ → List Addr → Status × Store → Walk (Status × Store)
delete_all fuel =
    visit_all (λ b x. and_then (store_delete fuel b x.1) (λ y. walked (worst x.0 y.0, y.1)))

-- The second store is the first one without the memory at some addresses.
abbrev pub IsWithout : (Addr → Type 0) → Store → Store → Type 0
IsWithout Gone s s' = ((x : Addr) → Gone x → s' x ≡ none) × ((x : Addr) → (Gone x → ⊥) → s' x ≡ s x)

discard_same : (a : Addr) (s : Store) → discard a s a ≡ none
discard_same a s = rw (eq_self a) refl

discard_other : (a : Addr) (s : Store) (x : Addr) → x ≢ a → discard a s x ≡ s x
discard_other a s x h = rw (eq-ne x a h) refl

discard-none : (a : Addr) (s : Store) (x : Addr) → s x ≡ none → discard a s x ≡ none
discard-none a s x h = elim (Bool-cases (x == a)) [ inl e ↦ rw e refl | inr e ↦ rw e h ]

store_delete-node :
    (s s1 : Store) (a : Addr) (cell cell' : Cell) (fuel : ℕ)
    → s a ≡ some cell
    → s1 a ≡ some cell'
    → delete_all fuel cell.children (ok, s) ≡ walked (ok, s1)
    → store_delete (suc fuel) a s ≡ walked (ok, discard a s1)
unfolding store_delete
store_delete-node s s1 a cell cell' fuel here still ran = rw (store_delete, here, ran, still) refl

mutual
  unfolding LiesIn AreDistinct IsAddress erase size

  freed-IsWithout :
      (t : Laid) (s : Store) (up : Option Addr) (fuel : ℕ)
      → LiesIn s up t
      → AreDistinct t
      → size (erase t) ≤ fuel
      → (s' : Store) × (store_delete fuel (address t) s ≡ walked (ok, s'))
        × IsWithout (λ x. IsAddress x t) s s'
  freed-IsWithout (laid a n ds) s up zero h distinct enough = absurd (omega (arith, enough))
  freed-IsWithout (laid a n ds) s up (suc fuel) (here, below) (lone, deep) enough =
      let (s1, ran, (gone, kept)) =
        delete_all-IsWithout ds s (some a) fuel below deep (omega (arith, enough)) in
      (
        discard a s1,
        store_delete-node s s1 a _ _ fuel here (kept a lone ∙ here) ran,
        (
          (λ x m. elim m [
            | inl e ↦ ap (discard a s1) e ∙ discard_same a s1
            | inr i ↦ discard-none a s1 x (gone x i)
          ]),
          (λ x out. discard_other a s1 x (λ e. out (inl e)) ∙ kept x (λ i. out (inr i))),
        ),
      )

  delete_all-IsWithout :
      (ds : Laids) (s : Store) (up : Option Addr) (fuel : ℕ)
      → AllLieIn s up ds
      → AreDistinctIn ds
      → size_children (erase_all ds) ≤ fuel
      → (s' : Store) × (delete_all fuel (roots ds) (ok, s) ≡ walked (ok, s'))
        × IsWithout (λ x. IsAddressIn x ds) s s'
  delete_all-IsWithout empty s up fuel h distinct enough =
      (s, refl, ((λ x m. absurd m), (λ x out. refl)))
  delete_all-IsWithout (more d ds) s up fuel (h, hs) (own, apart, others) enough =
      let (s1, first, (gone, kept)) = freed-IsWithout d s up fuel h own (omega (arith, enough)) in
      let hs1 = AllLieIn-frame s s1 up ds hs (λ x m. kept x (λ i. apart x i m)) in
      let (s2, rest, (gone2, kept2)) =
        delete_all-IsWithout ds s1 up fuel hs1 others (omega (arith, enough)) in
      (
        s2,
        rw first rest,
        (
          (λ x m. elim m [ inl i ↦ kept2 x (apart x i) ∙ gone x i | inr i ↦ gone2 x i ]),
          (λ x out. kept2 x (λ i. out (inr i)) ∙ kept x (λ i. out (inl i))),
        ),
      )

-- Deleting a tree that lies in memory, whose nodes have distinct addresses, with no less fuel than it has
-- nodes, ends and answers OK. Each node of the tree is then freed, none of them having been freed twice
-- or accessed once it was freed, and all other memory is as it was.
pub store_delete-IsWithout :
    (t : Laid) (s : Store) (up : Option Addr) (fuel : ℕ)
    → LiesIn s up t
    → AreDistinct t
    → size (erase t) ≤ fuel
    → (s' : Store) × (store_delete fuel (address t) s ≡ walked (ok, s'))
      × IsWithout (λ x. IsAddress x t) s s'
store_delete-IsWithout t s up fuel h distinct enough = freed-IsWithout t s up fuel h distinct enough
