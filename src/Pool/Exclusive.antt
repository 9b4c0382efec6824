-- ===== src/Pool/Exclusive.antt =====
-- The slots of src/buffer_pool.rs under every interleaving of claims and releases.
use simple_someip.Prelude.{
  ℕ, zero, suc, ◌≡◌, ◌≢◌, ◌⊎◌, refl, sym, ap, ◌∙◌, arith, Bool, true, false, Bool-cases, inl, inr,
  ◌==◌, if◌then◌else◌, List, [], ◌∷◌, replicate, get_elem?, Option, none, some, ==_iff,
}
use simple_someip.Pool.{
  Slot, Task, System, idle, scanning, zeroing, leased, update, update_slot, moved, release,
  free_slot,
}

-- The slot whose flag a task has taken.
abbrev pub held : Task → Option ℕ
held idle = none
held (scanning k) = none
held (zeroing k) = some k
held (leased k) = some k

-- The flag of a slot; there is none behind the last slot.
abbrev pub claimed_at : List Slot → ℕ → Bool
claimed_at [] i = false
claimed_at (s ∷ ss) zero = s.claimed
claimed_at (s ∷ ss) (suc i) = claimed_at ss i

-- No slot is held twice, and a flag is set exactly while a task holds its slot.
pub record IsExclusive (s : System) : Type 0 where
  pub one_holder : (i j k : ℕ) → held (s.tasks i) ≡ some k → held (s.tasks j) ≡ some k → i ≡ j
  pub held_flag : (i k : ℕ) → held (s.tasks i) ≡ some k → claimed_at s.pool k ≡ true
  pub flag_holder : (k : ℕ) → claimed_at s.pool k ≡ true → (i : ℕ) × (held (s.tasks i) ≡ some k)

zero_apart : (j : ℕ) → (0 == suc j) ≡ false
zero_apart j = ground arith

apart_zero : (k : ℕ) → (suc k == 0) ≡ false
apart_zero k = ground arith

suc_same : (k j : ℕ) → (suc k == suc j) ≡ (k == j)
suc_same k j = ground arith

pub claimed_at-replicate : (n len k : ℕ) → claimed_at (replicate n (free_slot len)) k ≡ false
claimed_at-replicate zero len k = refl
claimed_at-replicate (suc n) len zero = refl
claimed_at-replicate (suc n) len (suc k) = claimed_at-replicate n len k

-- A change that keeps the flag.
pub claimed_at-kept :
    (pool : List Slot) (k : ℕ) (f : Slot → Slot) (j : ℕ)
    → ((s : Slot) → (f s).claimed ≡ s.claimed)
    → claimed_at (update_slot pool k f) j ≡ claimed_at pool j
unfolding update_slot
claimed_at-kept [] k f j same = refl
claimed_at-kept (s ∷ ss) zero f zero same = same s
claimed_at-kept (s ∷ ss) zero f (suc j) same = refl
claimed_at-kept (s ∷ ss) (suc k) f zero same = refl
claimed_at-kept (s ∷ ss) (suc k) f (suc j) same = claimed_at-kept ss k f j same

-- A change that clears the flag.
pub claimed_at-cleared :
    (pool : List Slot) (k j : ℕ)
    → claimed_at (update_slot pool k release) j ≡ (if k == j then false else claimed_at pool j)
unfolding update_slot release
claimed_at-cleared [] k j = elim (Bool-cases (k == j)) [ inl e ↦ rw e refl | inr e ↦ rw e refl ]
claimed_at-cleared (s ∷ ss) zero zero = refl
claimed_at-cleared (s ∷ ss) zero (suc j) = rw (zero_apart j) refl
claimed_at-cleared (s ∷ ss) (suc k) zero = rw (apart_zero k) refl
claimed_at-cleared (s ∷ ss) (suc k) (suc j) = rw (suc_same k j) (claimed_at-cleared ss k j)

-- A change that sets the flag of a slot that is there.
pub claimed_at-taken :
    (pool : List Slot) (k j : ℕ) (s taken : Slot)
    → get_elem? pool k ≡ some s
    → taken.claimed ≡ true
    → claimed_at (update_slot pool k (λ old. taken)) j
      ≡ (if k == j then true else claimed_at pool j)
unfolding update_slot
claimed_at-taken [] k j s taken h set = absurd (cc h)
claimed_at-taken (x ∷ xs) zero zero s taken h set = set
claimed_at-taken (x ∷ xs) zero (suc j) s taken h set = rw (zero_apart j) refl
claimed_at-taken (x ∷ xs) (suc k) zero s taken h set = rw (apart_zero k) refl
claimed_at-taken (x ∷ xs) (suc k) (suc j) s taken h set =
    rw (suc_same k j) (claimed_at-taken xs k j s taken h set)

pub claimed_at-eq :
    (pool : List Slot) (k : ℕ) (s : Slot)
    → get_elem? pool k ≡ some s
    → claimed_at pool k ≡ s.claimed
claimed_at-eq [] k s h = absurd (cc h)
claimed_at-eq (x ∷ xs) zero s h = cc h
claimed_at-eq (x ∷ xs) (suc k) s h = claimed_at-eq xs k s h

-- A step that keeps the flags, and what its task holds.
pub Kept-IsExclusive :
    (s : System) (i : ℕ) (pool : List Slot) (t : Task)
    → IsExclusive s
    → held t ≡ held (s.tasks i)
    → ((k : ℕ) → claimed_at pool k ≡ claimed_at s.pool k)
    → IsExclusive (moved s i pool t)
Kept-IsExclusive s i pool t v same flags =
    let holds : (j : ℕ) → held (update s.tasks i t j) ≡ held (s.tasks j) = λ j.
      elim (Bool-cases (i == j)) [
        | inl e ↦ rw e (same ∙ ap (λ (n : ℕ). held (s.tasks n)) ((==_iff i j).0 e))
        | inr e ↦ rw e refl
      ] in
    record {
      one_holder = λ j m k p q. v.one_holder j m k (sym (holds j) ∙ p) (sym (holds m) ∙ q);
      held_flag = λ j k p. flags k ∙ v.held_flag j k (sym (holds j) ∙ p);
      flag_holder = λ k p. let (j, q) = v.flag_holder k (sym (flags k) ∙ p) in (j, holds j ∙ q);
    }

-- The task at an index after a move: the one that moved, or another one as it was.
pub moved-cases :
    (tasks : ℕ → Task) (i : ℕ) (t : Task) (j : ℕ)
    → ((i ≡ j) × (update tasks i t j ≡ t)) ⊎ ((i ≢ j) × (update tasks i t j ≡ tasks j))
moved-cases tasks i t j = elim (Bool-cases (i == j)) [
  | inl e ↦ inl ((==_iff i j).0 e, rw e refl)
  | inr e ↦ inr (λ same. ground (arith, e), rw e refl)
]

self_moved : (tasks : ℕ → Task) (i : ℕ) (t : Task) → update tasks i t i ≡ t
self_moved tasks i t = rw ((==_iff i i).1 refl) refl

-- A step that takes the flag of a free slot.
module _ (s : System) (i k : ℕ) (pool : List Slot) (t : Task) (v : IsExclusive s)
    (before : held (s.tasks i) ≡ none) (after : held t ≡ some k)
    (free : claimed_at s.pool k ≡ false)
    (flags : (j : ℕ) → claimed_at pool j ≡ (if k == j then true else claimed_at s.pool j)) where
  taken_holder :
      (j n : ℕ)
      → held (update s.tasks i t j) ≡ some n
      → ((i ≡ j) × (k ≡ n)) ⊎ ((held (s.tasks j) ≡ some n) × (k ≢ n))
  taken_holder j n p = elim (moved-cases s.tasks i t j) [
    | inl (e, now) ↦ inl (e, cc (p, now, after))
    | inr (apart, now) ↦
        let old : held (s.tasks j) ≡ some n = sym (ap held now) ∙ p in
        inr (old, λ same. cc (v.held_flag j n old, same, free))
  ]

  pub Taken-IsExclusive : IsExclusive (moved s i pool t)
  Taken-IsExclusive = record {
    one_holder = λ j m n p q. elim (taken_holder j n p) [
      | inl (e, same) ↦ elim (taken_holder m n q) [
        | inl (f, _) ↦ sym e ∙ f
        | inr (_, apart) ↦ absurd (apart same)
      ]
      | inr (old, apart) ↦ elim (taken_holder m n q) [
        | inl (f, same) ↦ absurd (apart same)
        | inr (other, _) ↦ v.one_holder j m n old other
      ]
    ];
    held_flag = λ j n p. elim (taken_holder j n p) [
      | inl (e, same) ↦ flags n ∙ rw ((==_iff k n).1 same) refl
      | inr (old, apart) ↦
          let differs : (k == n) ≡ false = ground (arith, apart) in
          flags n ∙ rw differs (v.held_flag j n old)
    ];
    flag_holder = λ n p. elim (Bool-cases (k == n)) [
      | inl e ↦
          (i, ap held (self_moved s.tasks i t) ∙ after ∙ ap (λ (m : ℕ). some m) ((==_iff k n).0 e))
      | inr e ↦
          let old : claimed_at s.pool n ≡ true = (rw e at (sym (flags n) ∙ p)) in
          let (j, q) = v.flag_holder n old in
          elim (moved-cases s.tasks i t j) [
            | inl (same, _) ↦ absurd (cc (before, same, q))
            | inr (_, now) ↦ (j, ap held now ∙ q)
          ]
    ];
  }

-- A step that clears the flag of the slot that its task holds.
module _ (s : System) (i k : ℕ) (pool : List Slot) (t : Task) (v : IsExclusive s)
    (before : held (s.tasks i) ≡ some k) (after : held t ≡ none)
    (flags : (j : ℕ) → claimed_at pool j ≡ (if k == j then false else claimed_at s.pool j)) where
  released_holder :
      (j n : ℕ) → held (update s.tasks i t j) ≡ some n → (held (s.tasks j) ≡ some n) × (i ≢ j)
  released_holder j n p = elim (moved-cases s.tasks i t j) [
    | inl (e, now) ↦ absurd (cc (p, now, after))
    | inr (apart, now) ↦ (sym (ap held now) ∙ p, apart)
  ]

  pub Released-IsExclusive : IsExclusive (moved s i pool t)
  Released-IsExclusive = record {
    one_holder =
        λ j m n p q. v.one_holder j m n (released_holder j n p).0 (released_holder m n q).0;
    held_flag = λ j n p.
        let (old, apart) = released_holder j n p in
        elim (Bool-cases (k == n)) [
          | inl e ↦
              let mine : held (s.tasks i) ≡ some n =
                before ∙ ap (λ (m : ℕ). some m) ((==_iff k n).0 e) in
              absurd (apart (v.one_holder i j n mine old))
          | inr e ↦ flags n ∙ rw e (v.held_flag j n old)
        ];
    flag_holder = λ n p. elim (Bool-cases (k == n)) [
      | inl e ↦ absurd (cc (rw e at (sym (flags n) ∙ p)))
      | inr e ↦
          let old : claimed_at s.pool n ≡ true = (rw e at (sym (flags n) ∙ p)) in
          let (j, q) = v.flag_holder n old in
          elim (moved-cases s.tasks i t j) [
            | inl (same, _) ↦ absurd (ground (arith, e, before, same, q))
            | inr (_, now) ↦ (j, ap held now ∙ q)
          ]
    ];
  }
