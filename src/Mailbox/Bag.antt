-- ===== src/Mailbox/Bag.antt =====
-- The mailbox of src/bare_metal_runtime/mailbox.rs as the datagrams that are pending in it.
use simple_someip.Prelude.{
  ℕ, zero, suc, ◌≤◌, ◌≡◌, ◌≢◌, ◌⊎◌, refl, sym, ap, ◌∙◌, arith, Bool, true, false, ltb, min, ◌==◌,
  ==_iff, if◌then◌else◌, Bool-cases, inl, inr, List, [], ◌∷◌, ◌++◌, All, take, drop, length,
  length-take, take-append_length, Option, none, some,
}
use simple_someip.NetEndpoint.{SocketAddrV4}
use simple_someip.Mailbox.{RxSlot, Taken, filled, push, copied, taken_from, take_next}

pub record Datagram : Type 0 where
  pub port : ℕ
  pub source : SocketAddrV4
  pub bytes : List ℕ

abbrev pub datagram_of : RxSlot → Datagram
datagram_of s = record {
  port = s.local_port;
  source = record { ip = s.src_addr; port = s.src_port };
  bytes = take s.len s.data_bytes;
}

-- The datagrams that are pending, in the order of the slots.
abbrev pub pending : List RxSlot → List Datagram
pending [] = []
pending (s ∷ ss) = if s.has_datagram then datagram_of s ∷ pending ss else pending ss

-- A datagram that comes in, cut to the size of a slot.
abbrev pub arrived : ℕ → ℕ → ℕ → ℕ → List ℕ → Datagram
arrived cap local_port src_addr src_port buf = record {
  port = local_port;
  source = record { ip = src_addr; port = src_port };
  bytes = take cap buf;
}

take-short : (n : ℕ) (bs : List ℕ) → length bs ≤ n → take n bs ≡ bs
take-short zero [] h = refl
take-short zero (b ∷ bs) h = absurd (omega arith)
take-short (suc n) [] h = refl
take-short (suc n) (b ∷ bs) h = ap (◌∷◌ b) (take-short n bs (omega arith))

take-twice :
    (n : ℕ) (bs : List ℕ) (rest : List ℕ) → n ≤ length bs → take n (take n bs ++ rest) ≡ take n bs
take-twice n bs rest h = take-append_length (take n bs) rest n (omega (arith, length-take n bs))

datagram_of-filled :
    (cap local_port src_addr src_port : ℕ) (buf : List ℕ) (s : RxSlot)
    → datagram_of (filled cap local_port src_addr src_port buf s)
      ≡ arrived cap local_port src_addr src_port buf
unfolding filled
datagram_of-filled cap local_port src_addr src_port buf s =
    ap
      (λ (bs : List ℕ). record {
        port = local_port;
        source = record { ip = src_addr; port = src_port };
        bytes = bs;
      })
      same
  where
    same :
        take
          (if ltb (length buf) cap then length buf else cap)
          (copied (if ltb (length buf) cap then length buf else cap) buf s.data_bytes)
        ≡ take cap buf
    same = elim (Bool-cases (ltb (length buf) cap)) [
      | inl short ↦ rw short (
          take-twice (length buf) buf (drop (length buf) s.data_bytes) (omega arith)
          ∙ take-short (length buf) buf (omega arith)
          ∙ sym (take-short cap buf (ground arith)))
      | inr long ↦ rw long (take-twice cap buf (drop cap s.data_bytes) (ground arith))
    ]

-- What a push does to the datagrams that are pending.
abbrev pub Pushed : Datagram → List RxSlot → Bool × List RxSlot → Type 0
Pushed d slots result =
    ((result ≡ (false, slots)) × All (λ (s : RxSlot). s.has_datagram ≡ true) slots)
    ⊎ ((result.0 ≡ true)
        × ((front : List Datagram) × (back : List Datagram) × (pending slots ≡ front ++ back)
            × (pending result.1 ≡ front ++ (d ∷ back))))

-- A push drops the datagram when every slot is full, and then the mailbox is as it was; otherwise the
-- pending datagrams are those before and the new one, with its port and source and its bytes cut to
-- the size of a slot.
pub push-Pushed :
    (cap : ℕ) (slots : List RxSlot) (local_port src_addr src_port : ℕ) (buf : List ℕ)
    → Pushed
        (arrived cap local_port src_addr src_port buf)
        slots
        (push cap slots local_port src_addr src_port buf)
unfolding push
push-Pushed cap [] local_port src_addr src_port buf = inl (refl, tt)
push-Pushed cap (s ∷ ss) local_port src_addr src_port buf = elim (Bool-cases s.has_datagram) [
  | inr free ↦
      let put = filled cap local_port src_addr src_port buf s in
      let whole : push cap (s ∷ ss) local_port src_addr src_port buf ≡ (true, put ∷ ss) =
        rw free refl in
      let one : pending (put ∷ ss) ≡ arrived cap local_port src_addr src_port buf ∷ pending ss =
        unfold filled in
        ap (λ (d : Datagram). d ∷ pending ss)
          (datagram_of-filled cap local_port src_addr src_port buf s) in
      inr (
        ap (λ (x : Bool × List RxSlot). x.0) whole,
        ([], pending ss, rw free refl, ap (λ (x : Bool × List RxSlot). pending x.1) whole ∙ one),
      )
  | inl busy ↦ elim (push-Pushed cap ss local_port src_addr src_port buf) [
    | inl (e, full) ↦ inl (rw (busy, e) refl, (busy, full))
    | inr (done, (front, back, before, after)) ↦
        inr (
          rw busy done,
          (datagram_of s ∷ front, back, rw (busy, before) refl, rw (busy, after) refl),
        )
  ]
]

-- A slot whose length is one of its bytes.
abbrev pub IsSlot : ℕ → RxSlot → Type 0
IsSlot cap s = (length s.data_bytes ≡ cap) × (s.len ≤ cap)

take-take : (m n : ℕ) (bs : List ℕ) → m ≤ n → take m (take n bs) ≡ take m bs
take-take zero n bs h = refl
take-take (suc m) zero bs h = absurd (omega arith)
take-take (suc m) (suc n) [] h = refl
take-take (suc m) (suc n) (b ∷ bs) h = ap (◌∷◌ b) (take-take m n bs (omega arith))

-- What the consumer of a datagram is given.
abbrev pub delivered : Datagram → List ℕ → Taken × List ℕ
delivered d out =
    let n = min (length d.bytes) (length out) in
    (
      record { copied_len = n; source = d.source; truncated = ltb n (length d.bytes) },
      copied n d.bytes out,
    )

taken_from-delivered :
    (cap : ℕ) (s : RxSlot) (out : List ℕ)
    → IsSlot cap s
    → taken_from s out ≡ delivered (datagram_of s) out
unfolding taken_from
taken_from-delivered cap s out (size, fits) =
    let long : length (take s.len s.data_bytes) ≡ s.len =
      omega (arith, length-take s.len s.data_bytes) in
    rw (long, take-take (min s.len (length out)) s.len s.data_bytes (omega arith)) refl

-- What a take for a port does to the datagrams that are pending.
abbrev pub TakenFor : ℕ → List ℕ → List RxSlot → Option (Taken × List ℕ) × List RxSlot → Type 0
TakenFor port out slots result =
    ((result ≡ (none, slots)) × All (λ (d : Datagram). d.port ≢ port) (pending slots))
    ⊎ ((front : List Datagram) × (d : Datagram) × (back : List Datagram) × (pending slots
          ≡ front ++ (d ∷ back))
        × All (λ (d : Datagram). d.port ≢ port) front
        × (d.port ≡ port)
        × (result.0 ≡ some (delivered d out))
        × (pending result.1 ≡ front ++ back))

module _ (cap port : ℕ) (out : List ℕ) where
  -- A slot that the loop passes.
  passed :
      (s : RxSlot) (ss : List RxSlot)
      → take_next (s ∷ ss) port out ≡ ((take_next ss port out).0, s ∷ (take_next ss port out).1)
      → (s.has_datagram ≡ false) ⊎ ((s.has_datagram ≡ true) × ((s.local_port == port) ≡ false))
      → TakenFor port out ss (take_next ss port out)
      → TakenFor port out (s ∷ ss) (take_next (s ∷ ss) port out)
  passed s ss step (inl free) (inl (e, none_left)) =
      inl (step ∙ rw e refl, rw (free, All) none_left)
  passed s ss step (inl free) (inr (front, d, back, before, apart, same, given, after)) = inr (
    front,
    d,
    back,
    rw free before,
    apart,
    same,
    ap (λ (x : Option (Taken × List ℕ) × List RxSlot). x.0) step ∙ given,
    ap (λ (x : Option (Taken × List ℕ) × List RxSlot). pending x.1) step ∙ rw free after,
  )
  passed s ss step (inr (busy, other)) (inl (e, none_left)) =
      let differs : s.local_port ≢ port = λ same. cc ((==_iff s.local_port port).1 same, other) in
      inl (step ∙ rw e refl, rw (busy, All) (differs, none_left))
  passed s ss step (inr (busy, other)) (inr (front, d, back, before, apart, same, given, after)) =
      let differs : s.local_port ≢ port = λ same. cc ((==_iff s.local_port port).1 same, other) in
      inr (
        datagram_of s ∷ front,
        d,
        back,
        rw (busy, before) refl,
        (differs, apart),
        same,
        ap (λ (x : Option (Taken × List ℕ) × List RxSlot). x.0) step ∙ given,
        ap (λ (x : Option (Taken × List ℕ) × List RxSlot). pending x.1) step
            ∙ rw (busy, after) refl,
      )

  -- A take for a port finds a datagram exactly when one is pending for the port: then it gives the
  -- first of them in the order of the slots, with its source, as many of its bytes as fit in front of
  -- what the buffer held, and the flag that tells whether some did not fit, and the other pending
  -- datagrams stay; otherwise the mailbox is as it was.
  pub take_next-TakenFor :
      (slots : List RxSlot)
      → All (IsSlot cap) slots
      → TakenFor port out slots (take_next slots port out)
  unfolding take_next
  take_next-TakenFor [] v = inl (refl, tt)
  take_next-TakenFor (s ∷ ss) (one, rest) =
      let later = take_next-TakenFor ss rest in
      elim (Bool-cases s.has_datagram) [
        | inr free ↦ passed s ss (rw free refl) (inl free) later
        | inl busy ↦ elim (Bool-cases (s.local_port == port)) [
          | inr other ↦ passed s ss (rw (busy, other) refl) (inr (busy, other)) later
          | inl same ↦
              let whole : take_next (s ∷ ss) port out
                  ≡ (some (taken_from s out), record s { has_datagram = false } ∷ ss) =
                rw (busy, same) refl in
              inr (
                [],
                datagram_of s,
                pending ss,
                rw busy refl,
                tt,
                (==_iff s.local_port port).0 same,
                ap (λ (x : Option (Taken × List ℕ) × List RxSlot). x.0) whole
                    ∙ ap (λ (x : Taken × List ℕ). some x) (taken_from-delivered cap s out one),
                ap (λ (x : Option (Taken × List ℕ) × List RxSlot). pending x.1) whole,
              )
        ]
      ]
