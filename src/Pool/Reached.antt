-- ===== src/Pool/Reached.antt =====
-- The states that the pool of src/buffer_pool.rs reaches.
use simple_someip.Prelude.{
  ℕ, zero, suc, ◌≡◌, ◌≢◌, refl, sym, ap, ◌∙◌, true, Bool-cases, inl, inr, List, [], ◌∷◌, get_elem?,
  Option, none, some,
}
use simple_someip.Pool.{
  Slot, System, Step, Reach, idle, scanning, zeroing, leased, starts, scans, zeroes, writes, drops,
  start, later, update_slot, moved, scan, compare_exchange, zeroed, release,
}
use simple_someip.Pool.Exclusive.{
  held, claimed_at, IsExclusive, claimed_at-replicate, claimed_at-kept, claimed_at-cleared,
  claimed_at-taken, claimed_at-eq, Kept-IsExclusive, Taken-IsExclusive, Released-IsExclusive,
}

scan-IsExclusive :
    (s : System) (i k : ℕ) (o : Option Slot)
    → s.tasks i ≡ scanning k
    → get_elem? s.pool k ≡ o
    → IsExclusive s
    → IsExclusive (moved s i (scan s.pool k o).0 (scan s.pool k o).1)
unfolding scan compare_exchange
scan-IsExclusive s i k none at there v = Kept-IsExclusive s i s.pool idle v (rw at refl) (λ j. refl)
scan-IsExclusive s i k (some slot) at there v = elim (Bool-cases slot.claimed) [
  | inl busy ↦ rw busy (Kept-IsExclusive s i s.pool (scanning (suc k)) v (rw at refl) (λ j. refl))
  | inr free ↦ rw free (
      Taken-IsExclusive s i k (update_slot s.pool k (λ old. record slot { claimed = true }))
        (zeroing k) v (rw at refl) refl (claimed_at-eq s.pool k slot there ∙ free)
        (λ j. claimed_at-taken s.pool k j slot (record slot { claimed = true }) there refl))
]

Step-IsExclusive : {len : ℕ} {s t : System} → Step len s t → IsExclusive s → IsExclusive t
unfolding zeroed
Step-IsExclusive {len} {s} (starts i at) v =
    Kept-IsExclusive s i s.pool (scanning 0) v (rw at refl) (λ j. refl)
Step-IsExclusive {len} {s} (scans i k at) v = scan-IsExclusive s i k (get_elem? s.pool k) at refl v
Step-IsExclusive {len} {s} (zeroes i k at) v =
    Kept-IsExclusive s i (update_slot s.pool k (zeroed len)) (leased k) v (rw at refl)
      (λ j. claimed_at-kept s.pool k (zeroed len) j (λ slot. refl))
Step-IsExclusive {len} {s} (writes i k bs at) v =
    Kept-IsExclusive s i (update_slot s.pool k (λ slot. record slot { bytes = bs })) (leased k) v
      (rw at refl)
      (λ j. claimed_at-kept s.pool k (λ slot. record slot { bytes = bs }) j (λ slot. refl))
Step-IsExclusive {len} {s} (drops i k at) v =
    Released-IsExclusive s i k (update_slot s.pool k release) idle v (rw at refl) refl
      (claimed_at-cleared s.pool k)

-- In every state that a new pool reaches, under any interleaving of any number of tasks that claim,
-- zero, write and drop, no two tasks hold the same slot, and the flag of a slot is set exactly while
-- a task holds it, so that no slot is lost.
pub Reach-IsExclusive : {slots len : ℕ} {s : System} → Reach slots len s → IsExclusive s
Reach-IsExclusive {slots} {len} start = record {
  one_holder = λ i j k p q. absurd (cc p);
  held_flag = λ i k p. absurd (cc p);
  flag_holder = λ k p. absurd (cc (p, claimed_at-replicate slots len k));
}
Reach-IsExclusive (later before step) = Step-IsExclusive step (Reach-IsExclusive before)

-- The bytes of a slot.
abbrev pub bytes_at : List Slot → ℕ → List ℕ
bytes_at [] i = []
bytes_at (s ∷ ss) zero = s.bytes
bytes_at (s ∷ ss) (suc i) = bytes_at ss i

bytes_at-apart :
    (pool : List Slot) (k j : ℕ) (f : Slot → Slot)
    → k ≢ j
    → bytes_at (update_slot pool k f) j ≡ bytes_at pool j
unfolding update_slot
bytes_at-apart [] k j f apart = refl
bytes_at-apart (s ∷ ss) zero zero f apart = absurd (apart refl)
bytes_at-apart (s ∷ ss) zero (suc j) f apart = refl
bytes_at-apart (s ∷ ss) (suc k) zero f apart = refl
bytes_at-apart (s ∷ ss) (suc k) (suc j) f apart =
    bytes_at-apart ss k j f (λ same. apart (ap suc same))

bytes_at-same :
    (pool : List Slot) (k j : ℕ) (f : Slot → Slot)
    → ((s : Slot) → (f s).bytes ≡ s.bytes)
    → bytes_at (update_slot pool k f) j ≡ bytes_at pool j
unfolding update_slot
bytes_at-same [] k j f same = refl
bytes_at-same (s ∷ ss) zero zero f same = same s
bytes_at-same (s ∷ ss) zero (suc j) f same = refl
bytes_at-same (s ∷ ss) (suc k) zero f same = refl
bytes_at-same (s ∷ ss) (suc k) (suc j) f same = bytes_at-same ss k j f same

-- The task that a step moves.
abbrev pub mover : {len : ℕ} {s t : System} → Step len s t → ℕ
mover (starts i at) = i
mover (scans i k at) = i
mover (zeroes i k at) = i
mover (writes i k bs at) = i
mover (drops i k at) = i

module _ (s : System) (v : IsExclusive s) (i k : ℕ) (mine : held (s.tasks i) ≡ some k) where
  elsewhere : (j n : ℕ) → j ≢ i → held (s.tasks j) ≡ some n → n ≢ k
  elsewhere j n apart other same =
      apart (v.one_holder j i k (other ∙ ap (λ (m : ℕ). some m) same) mine)

  scan-kept :
      (n : ℕ) (o : Option Slot)
      → get_elem? s.pool n ≡ o
      → bytes_at (scan s.pool n o).0 k ≡ bytes_at s.pool k
  unfolding scan compare_exchange
  scan-kept n none there = refl
  scan-kept n (some slot) there = elim (Bool-cases slot.claimed) [
    | inl busy ↦ rw busy refl
    | inr free ↦ rw free (
        bytes_at-apart s.pool n k (λ old. record slot { claimed = true })
          (λ same. cc (
            v.held_flag i k mine,
            ap (λ (m : ℕ). claimed_at s.pool m) (sym same),
            claimed_at-eq s.pool n slot there,
            free,
          )))
  ]

  pool-kept :
      {len : ℕ} {t : System} (step : Step len s t)
      → mover step ≢ i
      → bytes_at t.pool k ≡ bytes_at s.pool k
  unfolding zeroed release
  pool-kept (starts j at) apart = refl
  pool-kept (scans j n at) apart = scan-kept n (get_elem? s.pool n) refl
  pool-kept {len} (zeroes j n at) apart =
      bytes_at-apart s.pool n k (zeroed len) (elsewhere j n apart (rw at refl))
  pool-kept (writes j n bs at) apart =
      bytes_at-apart s.pool n k (λ slot. record slot { bytes = bs })
        (elsewhere j n apart (rw at refl))
  pool-kept (drops j n at) apart = bytes_at-same s.pool n k release (λ slot. refl)

-- In every state that a new pool reaches, a step of another task leaves the bytes of a slot that a
-- task holds as they are.
pub Reach-kept :
    {slots len : ℕ} {s t : System} (r : Reach slots len s) (step : Step len s t) (i k : ℕ)
    → held (s.tasks i) ≡ some k
    → mover step ≢ i
    → bytes_at t.pool k ≡ bytes_at s.pool k
Reach-kept {slots} {len} {s} r step i k mine apart =
    pool-kept s (Reach-IsExclusive r) i k mine step apart
