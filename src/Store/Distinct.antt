-- ===== src/Store/Distinct.antt =====
-- The addresses of a tree with another one linked into it.
use samconf.Common.{ℕ, zero, suc, [], ◌∷◌, ◌⊎◌, refl, inl, inr}
use samconf.Config.{Position}
use samconf.Store.{Addr}
use samconf.Store.Laid.{
  Laid, laid, Laids, empty, more, IsAddress, IsAddressIn, AreDistinct, AreDistinctIn, append_laid,
  link_at, link_in,
}

append-IsAddress :
    (x : Addr) (ds : Laids) (u : Laid)
    → IsAddressIn x (append_laid ds u)
    → IsAddressIn x ds ⊎ IsAddress x u
unfolding IsAddress
append-IsAddress x empty u (inl m) = inr m
append-IsAddress x empty u (inr m) = absurd m
append-IsAddress x (more d ds) u (inl m) = inl (inl m)
append-IsAddress x (more d ds) u (inr m) = elim (append-IsAddress x ds u m) [
  | inl k ↦ inl (inr k)
  | inr k ↦ inr k
]

mutual
  unfolding IsAddress link_at

  pub link_at-IsAddress :
      (x : Addr) (t : Laid) (p : Position) (u : Laid)
      → IsAddress x (link_at t p u)
      → IsAddress x t ⊎ IsAddress x u
  link_at-IsAddress x (laid a n ds) [] u (inl e) = inl (inl e)
  link_at-IsAddress x (laid a n ds) [] u (inr m) = elim (append-IsAddress x ds u m) [
    | inl k ↦ inl (inr k)
    | inr k ↦ inr k
  ]
  link_at-IsAddress x (laid a n ds) (i ∷ p) u (inl e) = inl (inl e)
  link_at-IsAddress x (laid a n ds) (i ∷ p) u (inr m) = elim (link_in-IsAddress x ds i p u m) [
    | inl k ↦ inl (inr k)
    | inr k ↦ inr k
  ]

  link_in-IsAddress :
      (x : Addr) (ds : Laids) (i : ℕ) (p : Position) (u : Laid)
      → IsAddressIn x (link_in ds i p u)
      → IsAddressIn x ds ⊎ IsAddress x u
  link_in-IsAddress x empty i p u m = inl m
  link_in-IsAddress x (more d ds) zero p u (inl m) = elim (link_at-IsAddress x d p u m) [
    | inl k ↦ inl (inl k)
    | inr k ↦ inr k
  ]
  link_in-IsAddress x (more d ds) zero p u (inr m) = inl (inr m)
  link_in-IsAddress x (more d ds) (suc i) p u (inl m) = inl (inl m)
  link_in-IsAddress x (more d ds) (suc i) p u (inr m) = elim (link_in-IsAddress x ds i p u m) [
    | inl k ↦ inl (inr k)
    | inr k ↦ inr k
  ]

append-AreDistinct :
    (ds : Laids) (u : Laid)
    → AreDistinctIn ds
    → AreDistinct u
    → ((x : Addr) → IsAddressIn x ds → IsAddress x u → ⊥)
    → AreDistinctIn (append_laid ds u)
unfolding AreDistinct IsAddress
append-AreDistinct empty u h k apart = (k, (λ x m n. n), tt)
append-AreDistinct (more d ds) u (h, away, hs) k apart = (
  h,
  (λ x m n. elim (append-IsAddress x ds u n) [ inl i ↦ away x m i | inr i ↦ apart x (inl m) i ]),
  append-AreDistinct ds u hs k (λ x m n. apart x (inr m) n),
)

-- A linked tree has no address twice, if neither tree has and they share none.
mutual
  unfolding AreDistinct IsAddress link_at

  pub link_at-AreDistinct :
      (t : Laid) (p : Position) (u : Laid)
      → AreDistinct t
      → AreDistinct u
      → ((x : Addr) → IsAddress x t → IsAddress x u → ⊥)
      → AreDistinct (link_at t p u)
  link_at-AreDistinct (laid a n ds) [] u (h, hs) k apart = (
    (λ m. elim (append-IsAddress a ds u m) [ inl i ↦ h i | inr i ↦ apart a (inl refl) i ]),
    append-AreDistinct ds u hs k (λ x m n. apart x (inr m) n),
  )
  link_at-AreDistinct (laid a n ds) (i ∷ p) u (h, hs) k apart = (
    (λ m. elim (link_in-IsAddress a ds i p u m) [ inl j ↦ h j | inr j ↦ apart a (inl refl) j ]),
    link_in-AreDistinct ds i p u hs k (λ x m n. apart x (inr m) n),
  )

  link_in-AreDistinct :
      (ds : Laids) (i : ℕ) (p : Position) (u : Laid)
      → AreDistinctIn ds
      → AreDistinct u
      → ((x : Addr) → IsAddressIn x ds → IsAddress x u → ⊥)
      → AreDistinctIn (link_in ds i p u)
  link_in-AreDistinct empty i p u h k apart = h
  link_in-AreDistinct (more d ds) zero p u (h, away, hs) k apart = (
    link_at-AreDistinct d p u h k (λ x m n. apart x (inl m) n),
    (λ x m n. elim (link_at-IsAddress x d p u m) [
      | inl j ↦ away x j n
      | inr j ↦ apart x (inr n) j
    ]),
    hs,
  )
  link_in-AreDistinct (more d ds) (suc i) p u (h, away, hs) k apart = (
    h,
    (λ x m n. elim (link_in-IsAddress x ds i p u n) [
      | inl j ↦ away x m j
      | inr j ↦ apart x (inl m) j
    ]),
    link_in-AreDistinct ds i p u hs k (λ x m n. apart x (inr m) n),
  )
