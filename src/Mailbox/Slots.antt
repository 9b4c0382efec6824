-- ===== src/Mailbox/Slots.antt =====
-- The slots of src/bare_metal_runtime/mailbox.rs keep their size.
use simple_someip.Prelude.{
  ℕ, zero, suc, ◌≤◌, ◌≡◌, ◌∙◌, arith, Bool-cases, inl, inr, ltb, ◌==◌, List, [], ◌∷◌, All, take,
  drop, length, length-append, length-take, length-drop, length-replicate,
}
use simple_someip.Mailbox.{RxSlot, new, filled, push, copied, take_next}
use simple_someip.Mailbox.Bag.{IsSlot}

module _ (cap : ℕ) where
  length-copied :
      (n : ℕ) (from into : List ℕ)
      → n ≤ length from
      → n ≤ length into
      → length (copied n from into) ≡ length into
  length-copied n from into h g =
      omega
        (arith, length-append (take n from) (drop n into), length-take n from, length-drop n into)

  filled-IsSlot :
      (local_port src_addr src_port : ℕ) (buf : List ℕ) (s : RxSlot)
      → IsSlot cap s
      → IsSlot cap (filled cap local_port src_addr src_port buf s)
  unfolding filled
  filled-IsSlot local_port src_addr src_port buf s (size, fits) =
      elim (Bool-cases (ltb (length buf) cap)) [
        | inl short ↦ rw short (
          length-copied (length buf) buf s.data_bytes (omega arith) (ground arith) ∙ size,
          ground arith,
        )
        | inr long ↦
            rw long
              (length-copied cap buf s.data_bytes (ground arith) (omega arith) ∙ size, omega arith)
      ]

  pub push-IsSlot :
      (slots : List RxSlot) (local_port src_addr src_port : ℕ) (buf : List ℕ)
      → All (IsSlot cap) slots
      → All (IsSlot cap) (push cap slots local_port src_addr src_port buf).1
  unfolding push filled
  push-IsSlot [] local_port src_addr src_port buf v = tt
  push-IsSlot (s ∷ ss) local_port src_addr src_port buf (one, rest) =
      elim (Bool-cases s.has_datagram) [
        | inl busy ↦ rw (busy, All) (one, push-IsSlot ss local_port src_addr src_port buf rest)
        | inr free ↦ rw (free, All) (filled-IsSlot local_port src_addr src_port buf s one, rest)
      ]

  pub take_next-IsSlot :
      (slots : List RxSlot) (port : ℕ) (out : List ℕ)
      → All (IsSlot cap) slots
      → All (IsSlot cap) (take_next slots port out).1
  unfolding take_next
  take_next-IsSlot [] port out v = tt
  take_next-IsSlot (s ∷ ss) port out (one, rest) =
      let later = take_next-IsSlot ss port out rest in
      elim (Bool-cases s.has_datagram) [
        | inr free ↦ rw (free, All) (one, later)
        | inl busy ↦ elim (Bool-cases (s.local_port == port)) [
          | inr other ↦ rw (busy, other, All) (one, later)
          | inl same ↦ rw (busy, same, All) (one, rest)
        ]
      ]

  pub new-IsSlot : (slots : ℕ) → All (IsSlot cap) (new slots cap)
  unfolding new
  new-IsSlot zero = tt
  new-IsSlot (suc slots) = ((length-replicate cap 0, omega arith), new-IsSlot slots)
