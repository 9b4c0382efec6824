-- ===== src/FreeList/Stack.antt =====
-- The free list of src/static_channels/mod.rs as a stack of slots.
use simple_someip.Prelude.{
  ℕ, zero, suc, ◌+◌, ◌<◌, ◌≡◌, ◌≢◌, refl, sym, ap, ◌∙◌, subst, arith, true, false, ltb,
  if◌then◌else◌, List, [], ◌∷◌, All, length, get_elem?, Option, none, some, Result, ok,
}
use simple_someip.FreeList.{
  FreeList, set_link, links, ensure_seeded, pop_slot, pop_at, pop_free, claim, release,
}

-- The links from a head run through these slots in this order.
abbrev pub IsChain : List ℕ → ℕ → List ℕ → Type 0
IsChain next head [] = head ≡ 0
IsChain next head (i ∷ free) =
    (head ≡ suc i) × ((link : ℕ) × (get_elem? next i ≡ some link) × IsChain next link free)

abbrev pub IsDistinct : List ℕ → Type 0
IsDistinct [] = Unit {0}
IsDistinct (i ∷ is) = All (λ (j : ℕ). j ≢ i) is × IsDistinct is

-- A list that was seeded, whose free slots are these, the first one on top, and none twice.
abbrev pub IsStack : FreeList → List ℕ → Type 0
IsStack pool free =
    (pool.seeded ≡ true) × IsChain pool.next_free pool.free_head free × IsDistinct free

get_elem?-set_apart :
    (ls : List ℕ) (i j link : ℕ) → j ≢ i → get_elem? (set_link ls i link) j ≡ get_elem? ls j
unfolding set_link
get_elem?-set_apart [] i j link apart = refl
get_elem?-set_apart (l ∷ ls) zero zero link apart = absurd (apart refl)
get_elem?-set_apart (l ∷ ls) zero (suc j) link apart = refl
get_elem?-set_apart (l ∷ ls) (suc i) zero link apart = refl
get_elem?-set_apart (l ∷ ls) (suc i) (suc j) link apart =
    get_elem?-set_apart ls i j link (λ same. apart (ap suc same))

get_elem?-set_same :
    (ls : List ℕ) (i link : ℕ) → i < length ls → get_elem? (set_link ls i link) i ≡ some link
unfolding set_link
get_elem?-set_same [] i link h = absurd (omega arith)
get_elem?-set_same (l ∷ ls) zero link h = refl
get_elem?-set_same (l ∷ ls) (suc i) link h = get_elem?-set_same ls i link (omega arith)

-- The link of a slot outside a chain may change.
set-IsChain :
    (ls : List ℕ) (i link head : ℕ) (free : List ℕ)
    → All (λ (j : ℕ). j ≢ i) free
    → IsChain ls head free
    → IsChain (set_link ls i link) head free
set-IsChain ls i link head [] apart h = h
set-IsChain ls i link head (j ∷ free) (one, rest) (top, (next, at, chain)) = (
  top,
  (next, get_elem?-set_apart ls i j link one ∙ at, set-IsChain ls i link next free rest chain),
)

-- What a claim makes of a stack.
abbrev pub Popped : FreeList → List ℕ → Result (Unit {0}) (Option ℕ × FreeList) → Type 0
Popped pool [] result = result ≡ ok (none, pool)
Popped pool (i ∷ free) result =
    (after : FreeList) × (result ≡ ok (some i, after)) × IsStack after free

-- A claim gives the slot on top of the stack and leaves the others in their order; on an empty stack
-- it gives none and changes nothing.
pub claim-Popped :
    (pool : FreeList) (free : List ℕ) → IsStack pool free → Popped pool free (claim pool)
unfolding claim ensure_seeded pop_free pop_at pop_slot
claim-Popped pool [] (seeded, empty, distinct) = rw (seeded, empty) refl
claim-Popped pool (i ∷ free) (seeded, (top, (link, at, chain)), (apart, distinct)) = (
  record pool { next_free = set_link pool.next_free i 0; free_head = link },
  rw (seeded, top, at) refl,
  (seeded, set-IsChain pool.next_free i 0 link free apart chain, distinct),
)

-- A slot of the pool that is not free is put on top of the stack by its release.
pub release-IsStack :
    (pool : FreeList) (free : List ℕ) (i : ℕ)
    → IsStack pool free
    → All (λ (j : ℕ). j ≢ i) free
    → i < length pool.next_free
    → IsStack (release pool i) (i ∷ free)
unfolding release
release-IsStack pool free i (seeded, chain, distinct) apart inside = (
  seeded,
  (
    omega arith,
    (
      pool.free_head,
      get_elem?-set_same pool.next_free i pool.free_head inside,
      set-IsChain pool.next_free i pool.free_head pool.free_head free apart chain,
    ),
  ),
  (apart, distinct),
)

abbrev pub range : ℕ → ℕ → List ℕ
range i zero = []
range i (suc n) = i ∷ range (suc i) n

range-apart : (k i n : ℕ) → k < i → All (λ (j : ℕ). j ≢ k) (range i n)
range-apart k i zero h = tt
range-apart k i (suc n) h = ((λ same. omega (arith, same)), range-apart k (suc i) n (omega arith))

range-IsDistinct : (i n : ℕ) → IsDistinct (range i n)
range-IsDistinct i zero = tt
range-IsDistinct i (suc n) = (range-apart i (suc i) n (omega arith), range-IsDistinct (suc i) n)

links-at :
    (size i n j : ℕ)
    → j < n
    → get_elem? (links size i n) j ≡ some (if ltb (i + j + 1) size then i + j + 2 else 0)
unfolding links
links-at size i zero j h = absurd (omega arith)
links-at size i (suc n) zero h =
    ap (λ (k : ℕ). some (if ltb (k + 1) size then k + 2 else 0)) (omega arith)
links-at size i (suc n) (suc j) h =
    links-at size (suc i) n j (omega arith)
    ∙ ap (λ (k : ℕ). some (if ltb (k + 1) size then k + 2 else 0)) (omega arith)

links-IsChain :
    (size i n : ℕ) → i + suc n ≡ size → IsChain (links size 0 size) (suc i) (range i (suc n))
links-IsChain size i zero h =
    let last : ltb (0 + i + 1) size ≡ false = ground (arith, h) in
    (refl, (0, links-at size 0 size i (omega arith) ∙ rw last refl, refl))
links-IsChain size i (suc n) h =
    let inner : ltb (0 + i + 1) size ≡ true = ground (arith, h) in
    (
      refl,
      (
        suc (suc i),
        links-at size 0 size i (omega arith) ∙ rw inner (ap some (omega arith)),
        links-IsChain size (suc i) n (omega arith),
      ),
    )

-- The first claim of a pool with a slot finds every slot free, in the order of the slots.
pub ensure_seeded-IsStack :
    (pool : FreeList) (n : ℕ)
    → pool.seeded ≡ false
    → length pool.next_free ≡ suc n
    → IsStack (ensure_seeded pool) (range 0 (suc n))
unfolding ensure_seeded
ensure_seeded-IsStack pool n fresh size =
    let whole : ensure_seeded pool
        ≡ record { next_free = links (suc n) 0 (suc n); free_head = 1; seeded = true } =
      rw (fresh, size) refl in
    subst (λ (p : FreeList). IsStack p (range 0 (suc n))) (sym whole)
      (refl, links-IsChain (suc n) 0 n (omega arith), range-IsDistinct 0 (suc n))
