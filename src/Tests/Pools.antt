-- ===== src/Tests/Pools.antt =====
-- Runs of the buffer pool and the mailbox.
use simple_someip.Prelude.{◌≡◌, refl, arith, true, List, [], ◌∷◌, replicate}
use simple_someip.Pool.{
  System, Step, Reach, start, later, starts, scans, scanning, zeroing, free_slot, init, moved, scan,
  update_slot, compare_exchange,
}
use simple_someip.Pool.Exclusive.{IsExclusive}
use simple_someip.Pool.Reached.{Reach-IsExclusive, Reach-kept, bytes_at}
use simple_someip.Pool.Claimed.{ClaimedFrom, try_claim_slot-Claimed}
use simple_someip.FreeList.{FreeList, claim, release}
use simple_someip.FreeList.Stack.{IsStack, Popped, claim-Popped, release-IsStack}
use simple_someip.Mailbox.{RxSlot, push, take_next, empty_slot}
use simple_someip.Mailbox.Bag.{arrived, Pushed, push-Pushed, TakenFor, take_next-TakenFor}

abbrev pool_start : System
pool_start = init 2 16

abbrev at_flag : System
at_flag = moved pool_start 5 pool_start.pool (scanning 0)

abbrev flag_taken : System
flag_taken =
    moved at_flag 5
      (update_slot at_flag.pool 0 (λ old. record { claimed = true; bytes = replicate 16 0 }))
      (zeroing 0)

to_flag : Step 16 pool_start at_flag
to_flag = starts 5 refl

take_flag : Step 16 at_flag flag_taken
unfolding scan compare_exchange
take_flag = scans 5 0 refl

abbrev reached : Reach 2 16 flag_taken
reached = later (later start to_flag) take_flag

Reach-IsExclusive_example : IsExclusive flag_taken
Reach-IsExclusive_example = Reach-IsExclusive reached

abbrev other : Step 16 flag_taken (moved flag_taken 3 flag_taken.pool (scanning 0))
other = starts 3 refl

Reach-kept_example : bytes_at flag_taken.pool 0 ≡ bytes_at flag_taken.pool 0
Reach-kept_example = Reach-kept reached other 5 0 refl (omega arith)

try_claim_slot-Claimed_example :
    ClaimedFrom 16 (record { claimed = true; bytes = replicate 16 7 } ∷ free_slot 16 ∷ [])
try_claim_slot-Claimed_example =
    try_claim_slot-Claimed 16
      (record { claimed = true; bytes = replicate 16 7 } ∷ free_slot 16 ∷ [])

abbrev slots : List RxSlot
slots = empty_slot 8 ∷ empty_slot 8 ∷ []

push-Pushed_example :
    Pushed
      (arrived 8 30490 9 40000 (1 ∷ 2 ∷ 3 ∷ []))
      slots
      (push 8 slots 30490 9 40000 (1 ∷ 2 ∷ 3 ∷ []))
push-Pushed_example = push-Pushed 8 slots 30490 9 40000 (1 ∷ 2 ∷ 3 ∷ [])

-- The second slot holds a datagram for the port.
abbrev one_pending : List RxSlot
one_pending =
    empty_slot 4
    ∷ record {
      has_datagram = true;
      local_port = 30490;
      src_addr = 9;
      src_port = 40000;
      len = 3;
      data_bytes = 1 ∷ 2 ∷ 3 ∷ 0 ∷ [];
    }
    ∷ []

take_next-TakenFor_example :
    TakenFor 30490 (7 ∷ 7 ∷ []) one_pending (take_next one_pending 30490 (7 ∷ 7 ∷ []))
take_next-TakenFor_example =
    take_next-TakenFor 4 30490 (7 ∷ 7 ∷ []) one_pending
      ((refl, omega arith), ((refl, omega arith), tt))

-- Three slots, of which the second is taken.
abbrev three : FreeList
three = record { next_free = 3 ∷ 0 ∷ 0 ∷ []; free_head = 1; seeded = true }

three-IsStack : IsStack three (0 ∷ 2 ∷ [])
three-IsStack = (
  refl,
  (refl, (3, refl, (refl, (0, refl, refl)))),
  (((λ same. omega (arith, same)), tt), (tt, tt)),
)

claim-Popped_example : Popped three (0 ∷ 2 ∷ []) (claim three)
claim-Popped_example = claim-Popped three (0 ∷ 2 ∷ []) three-IsStack

release-IsStack_example : IsStack (release three 1) (1 ∷ 0 ∷ 2 ∷ [])
release-IsStack_example =
    release-IsStack three (0 ∷ 2 ∷ []) 1 three-IsStack
      ((λ same. omega (arith, same)), ((λ same. omega (arith, same)), tt)) (omega arith)
