-- ===== src/Pool/Claimed.antt =====
-- A claim of src/buffer_pool.rs in one run.
use simple_someip.Prelude.{
  ℕ, ◌≡◌, ◌⊎◌, refl, ap, true, false, Bool-cases, inl, inr, List, [], ◌∷◌, ◌++◌, All, length,
  replicate, none, some,
}
use simple_someip.Pool.{Slot, try_claim_slot, compare_exchange, zeroed}

abbrev pub IsClaimed : Slot → Type 0
IsClaimed s = s.claimed ≡ true

-- The first free slot of a pool is taken and zeroed; a pool without one is left alone.
abbrev pub ClaimedFrom : ℕ → List Slot → Type 0
ClaimedFrom len pool =
    (All IsClaimed pool × (try_claim_slot len pool ≡ (none, pool)))
    ⊎ ((front : List Slot) × (s : Slot) × (back : List Slot) × (pool ≡ front ++ (s ∷ back))
        × All IsClaimed front
        × (s.claimed ≡ false)
        × (try_claim_slot len pool ≡ (
          some (length front),
          front ++ (record { claimed = true; bytes = replicate len 0 } ∷ back),
        )))

-- A claim finds a slot exactly when one is free: then it is the first free one, whose flag is set
-- and whose bytes are zero, and every other slot is as it was; when all are claimed there is none and
-- the pool is as it was.
pub try_claim_slot-Claimed : (len : ℕ) (pool : List Slot) → ClaimedFrom len pool
unfolding try_claim_slot compare_exchange zeroed
try_claim_slot-Claimed len [] = inl (tt, refl)
try_claim_slot-Claimed len (s ∷ ss) = elim (Bool-cases s.claimed) [
  | inr free ↦ inr ([], s, ss, refl, tt, free, rw free refl)
  | inl busy ↦ elim (try_claim_slot-Claimed len ss) [
    | inl (all, e) ↦ inl ((busy, all), rw (busy, e) refl)
    | inr (front, x, back, same, full, free, e) ↦ inr (
      s ∷ front,
      x,
      back,
      ap (λ (xs : List Slot). s ∷ xs) same,
      (busy, full),
      free,
      rw (busy, e) refl,
    )
  ]
]
