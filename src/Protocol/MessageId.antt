-- ===== src/Protocol/MessageId.antt =====
-- src/protocol/message_id.rs. A `MessageId` is a `u32`: the service id above the method id.
use simple_someip.Prelude.{
  ℕ, ◌+◌, ◌*◌, ◌/◌, ◌%◌, ◌^◌, ◌≡◌, refl, ap, arith, bit_and, bit_or, Bool, not, ◌==◌, true, ◌↔◌,
  ◌≤◌,
}
use simple_someip.Bits.{bit_or_shl, bit_or_shl_right, bit_and_shl, bit_and_low}
use simple_someip.Bytes.{IsU16, IsU32}

pub record MessageId : Type 0 where
  pub raw : ℕ

-- `sd::MESSAGE_ID_VALUE`.
abbrev pub sd_message_id : MessageId
sd_message_id = record { raw = 0xffff8100 }

unfoldable pub new_from_service_and_method : ℕ → ℕ → MessageId
new_from_service_and_method service_id method_id = record {
  raw = bit_or (service_id * 2 ^ 16) method_id;
}

-- The cast `as u16` keeps the low 16 bits.
unfoldable pub service_id : MessageId → ℕ
service_id m = m.raw / 2 ^ 16 % 2 ^ 16

unfoldable pub set_service_id : MessageId → ℕ → MessageId
set_service_id m s = record { raw = bit_or (bit_and m.raw 0xffff) (s * 2 ^ 16) }

unfoldable pub method_id : MessageId → ℕ
method_id m = bit_and m.raw 0xffff % 2 ^ 16

unfoldable pub set_method_id : MessageId → ℕ → MessageId
set_method_id m e = record { raw = bit_or (bit_and m.raw 0xffff0000) e }

unfoldable pub is_event : MessageId → Bool
is_event m = not (bit_and (method_id m) 0x8000 == 0)

unfoldable pub is_sd : MessageId → Bool
is_sd m = m.raw == 0xffff8100

abbrev pub IsMessageId : MessageId → Type 0
IsMessageId m = IsU32 m.raw

pub raw-new : (s e : ℕ) → IsU16 e → (new_from_service_and_method s e).raw ≡ s * 65536 + e
unfolding new_from_service_and_method
raw-new s e h = bit_or_shl 16 s e h

-- A message id built from a 16-bit service id and a 16-bit method id fits 32 bits, and both ids
-- are read back.
pub parts-new :
    (s e : ℕ)
    → IsU16 s
    → IsU16 e
    → (service_id (new_from_service_and_method s e) ≡ s)
      × (method_id (new_from_service_and_method s e) ≡ e)
      × IsMessageId (new_from_service_and_method s e)
unfolding service_id method_id
parts-new s e p q = (
  omega (arith, raw-new s e q),
  omega (arith, raw-new s e q, bit_and_low 16 (new_from_service_and_method s e).raw 0xffff refl),
  omega (arith, raw-new s e q),
)

-- Every 32-bit message id is the one built from its service and method ids.
pub new-parts :
    (m : MessageId) → IsMessageId m → new_from_service_and_method (service_id m) (method_id m) ≡ m
unfolding service_id method_id
new-parts m h = ap (λ (r : ℕ). record { raw = r }) same
  where
    same : (new_from_service_and_method (service_id m) (method_id m)).raw ≡ m.raw
    same = omega (arith, raw-new (service_id m) (method_id m), bit_and_low 16 m.raw 0xffff refl)

-- Setting a 16-bit service id replaces the service id and keeps the method id.
pub set_service_id-parts :
    (m : MessageId) (s : ℕ)
    → IsU16 s
    → (service_id (set_service_id m s) ≡ s) × (method_id (set_service_id m s) ≡ method_id m)
unfolding set_service_id service_id method_id
set_service_id-parts m s p =
    let low = bit_and_low 16 m.raw 0xffff refl in
    let both = bit_or_shl_right 16 s (bit_and m.raw 0xffff) (omega (arith, low)) in
    (
      omega (arith, low, both),
      omega (arith, low, both, bit_and_low 16 (set_service_id m s).raw 0xffff refl),
    )

-- Setting a 16-bit method id replaces the method id and keeps the service id.
pub set_method_id-parts :
    (m : MessageId) (e : ℕ)
    → IsMessageId m
    → IsU16 e
    → (service_id (set_method_id m e) ≡ service_id m) × (method_id (set_method_id m e) ≡ e)
unfolding set_method_id service_id method_id
set_method_id-parts m e h p =
    let high = bit_and_shl 16 m.raw 0xffff in
    let top = bit_and_low 16 (m.raw / 65536) 0xffff refl in
    let both = bit_or_shl 16 (bit_and (m.raw / 65536) 0xffff) e p in
    let whole : (set_method_id m e).raw ≡ bit_and (m.raw / 65536) 0xffff * 65536 + e =
      rw high both in
    (
      omega (arith, top, whole),
      omega (arith, whole, bit_and_low 16 (set_method_id m e).raw 0xffff refl),
    )

-- An event id is a method id with the top bit set.
pub is_event_iff : (m : MessageId) → (is_event m ≡ true) ↔ (0x8000 ≤ method_id m)
unfolding is_event method_id
is_event_iff m =
    let top = bit_and_shl 15 (method_id m) 1 in
    let bit = bit_and_low 1 (method_id m / 32768) 1 refl in
    let e : bit_and (method_id m) 0x8000 ≡ method_id m / 32768 % 2 * 32768 =
      omega (arith, top, bit) in
    rw e (ground arith)
