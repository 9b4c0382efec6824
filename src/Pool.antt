-- ===== src/Pool.antt =====
-- `BufferPool` of src/buffer_pool.rs: slots with a flag and `LEN` bytes each. Each access to a flag is
-- one atomic step of a task, and so is each access to the bytes of a slot that a task holds. Which
-- pool a lease keeps alive is left out.
pub mod Exclusive
pub mod Reached
pub mod Claimed
use simple_someip.Prelude.{
  ℕ, zero, suc, ◌+◌, ◌≡◌, Bool, true, false, leb, ◌==◌, if◌then◌else◌, List, [], ◌∷◌, replicate,
  length, get_elem?, Option, none, some, Result, ok, ◌>>=◌, ◌>>◌, assert,
}

pub record Slot : Type 0 where
  pub claimed : Bool
  pub bytes : List ℕ

abbrev pub free_slot : ℕ → Slot
free_slot len = record { claimed = false; bytes = replicate len 0 }

-- The assertion is one of compile time.
unfoldable pub new {ℓ} : {E : Type ℓ} → ℕ → ℕ → Result E (List Slot)
new slots len = do assert (leb 16 len); ok (replicate slots (free_slot len))

-- Changing the slot at an index; an index behind the end changes nothing.
unfoldable pub update_slot : List Slot → ℕ → (Slot → Slot) → List Slot
update_slot [] i f = []
update_slot (s ∷ ss) zero f = f s ∷ ss
update_slot (s ∷ ss) (suc i) f = s ∷ update_slot ss i f

-- `compare_exchange(false, true)` on one flag: whether it won, and the slot.
unfoldable pub compare_exchange : Slot → Bool × Slot
compare_exchange s = if s.claimed then (false, s) else (true, record s { claimed = true })

-- `write_bytes(slot_ptr, 0, LEN)`.
unfoldable pub zeroed : ℕ → Slot → Slot
zeroed len s = record s { bytes = replicate len 0 }

-- The loop of `try_claim_slot` in one run: the index of the slot that it claims, and the slots. The
-- index stands for the two pointers.
unfoldable pub try_claim_slot : ℕ → List Slot → Option ℕ × List Slot
try_claim_slot len [] = (none, [])
try_claim_slot len (s ∷ ss) =
    let (found, rest) = try_claim_slot len ss in
    let (won, taken) = compare_exchange s in
    if won
    then (some 0, zeroed len taken ∷ ss)
    else (elim found [ none ↦ none | some i ↦ some (suc i) ], s ∷ rest)

-- `claim`: a lease of the slot with its length.
pub record BufferLease : Type 0 where
  pub slot : ℕ
  pub len : ℕ

unfoldable pub claim : ℕ → List Slot → Option BufferLease × List Slot
claim len pool =
    let (found, next) = try_claim_slot len pool in
    (elim found [ none ↦ none | some i ↦ some (record { slot = i; len = len }) ], next)

-- `drop`: the store to the flag.
unfoldable pub release : Slot → Slot
release s = record s { claimed = false }

-- Where a task is: before a claim, at a flag in the loop, before the slot is zeroed, or with a lease.
pub data Task : Type 0 where
  idle : Task
  scanning zeroing leased : ℕ → Task

pub record System : Type 0 where
  pub pool : List Slot
  pub tasks : ℕ → Task

abbrev pub update : (ℕ → Task) → ℕ → Task → ℕ → Task
update tasks i t j = if i == j then t else tasks j

abbrev pub moved : System → ℕ → List Slot → Task → System
moved s i pool t = record { pool = pool; tasks = update s.tasks i t }

-- One turn of the loop, at the flag of the slot that the index names; behind the last slot the claim
-- is `None`.
unfoldable pub scan : List Slot → ℕ → Option Slot → List Slot × Task
scan pool i none = (pool, idle)
scan pool i (some s) =
    let (won, taken) = compare_exchange s in
    if won then (update_slot pool i (λ old. taken), zeroing i) else (pool, scanning (suc i))

-- The steps of any number of tasks, in any order.
pub data Step (len : ℕ) (s : System) : System → Type 0 where
  starts : (i : ℕ) → s.tasks i ≡ idle → Step len s (moved s i s.pool (scanning 0))
  scans :
      (i k : ℕ)
      → s.tasks i ≡ scanning k
      → Step len s
          (moved s i (scan s.pool k (get_elem? s.pool k)).0 (scan s.pool k (get_elem? s.pool k)).1)
  zeroes :
      (i k : ℕ)
      → s.tasks i ≡ zeroing k
      → Step len s (moved s i (update_slot s.pool k (zeroed len)) (leased k))
  writes :
      (i k : ℕ) (bs : List ℕ)
      → s.tasks i ≡ leased k
      → Step len s
          (moved s i (update_slot s.pool k (λ slot. record slot { bytes = bs })) (leased k))
  drops :
      (i k : ℕ) → s.tasks i ≡ leased k → Step len s (moved s i (update_slot s.pool k release) idle)

abbrev pub init : ℕ → ℕ → System
init slots len = record { pool = replicate slots (free_slot len); tasks = λ i. idle }

pub data Reach (slots len : ℕ) : System → Type 0 where
  start : Reach slots len (init slots len)
  later : {s t : System} → Reach slots len s → Step len s t → Reach slots len t
