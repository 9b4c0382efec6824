-- ===== src/FreeList.antt =====
-- The free list of the channel pools of src/static_channels/mod.rs: a link in each slot, 1 above the
-- index of the next free slot, and 0 at the end. Each call holds the lock of the list and is one step.
pub mod Stack
use simple_someip.Prelude.{
  ℕ, zero, suc, ◌+◌, Bool, true, false, ltb, if◌then◌else◌, List, [], ◌∷◌, replicate, length,
  get_elem?, Option, none, some, Result, ok, panic,
}

pub record FreeList : Type 0 where
  pub next_free : List ℕ
  pub free_head : ℕ
  pub seeded : Bool

unfoldable pub new : ℕ → FreeList
new pool_size = record { next_free = replicate pool_size 0; free_head = 0; seeded = false }

-- The store to the link of one slot.
unfoldable pub set_link : List ℕ → ℕ → ℕ → List ℕ
set_link [] i link = []
set_link (l ∷ ls) zero link = link ∷ ls
set_link (l ∷ ls) (suc i) link = l ∷ set_link ls i link

-- The loop over the slots from `i` on, of which `n` are left.
unfoldable pub links : ℕ → ℕ → ℕ → List ℕ
links pool_size i zero = []
links pool_size i (suc n) = (if ltb (i + 1) pool_size then i + 2 else 0) ∷ links pool_size (suc i) n

unfoldable pub ensure_seeded : FreeList → FreeList
ensure_seeded pool = if pool.seeded then pool else record {
  next_free = links (length pool.next_free) 0 (length pool.next_free);
  free_head = 1;
  seeded = true;
}

-- The index of a slot that the head names.
unfoldable pub pop_slot {ℓ} :
    {E : Type ℓ} → FreeList → ℕ → Option ℕ → Result E (Option ℕ × FreeList)
pop_slot pool i none = panic
pop_slot pool i (some next) =
    ok (some i, record pool { next_free = set_link pool.next_free i 0; free_head = next })

unfoldable pub pop_at {ℓ} : {E : Type ℓ} → FreeList → ℕ → Result E (Option ℕ × FreeList)
pop_at pool zero = ok (none, pool)
pop_at pool (suc i) = pop_slot pool i (get_elem? pool.next_free i)

unfoldable pub pop_free {ℓ} : {E : Type ℓ} → FreeList → Result E (Option ℕ × FreeList)
pop_free pool = pop_at pool pool.free_head

-- The part of `claim` that finds a slot.
unfoldable pub claim {ℓ} : {E : Type ℓ} → FreeList → Result E (Option ℕ × FreeList)
claim pool = pop_free (ensure_seeded pool)

unfoldable pub release : FreeList → ℕ → FreeList
release pool idx = record pool {
  next_free = set_link pool.next_free idx pool.free_head;
  free_head = idx + 1;
}
