-- ===== src/Protocol/MessageType.antt =====
-- src/protocol/message_type.rs. A `MessageTypeField` keeps the wire byte that was validated.
use simple_someip.Prelude.{
  ℕ, ◌-◌, ◌<◌, ◌≡◌, refl, arith, bit_and, bit_or, Bool, true, false, not, ◌==◌, if◌then◌else◌,
  Result, ok, err, panic, ◌>>◌, all_below, all_below_sound, ◌≢◌, ap,
}
use simple_someip.Protocol.Error.{Error, invalid_message_type_field}

pub data MessageType : Type 0 where
  request request_no_return notification response error : MessageType

-- `MESSAGE_TYPE_TP_FLAG`, and its complement as a `u8`.
abbrev pub tp_flag : ℕ
tp_flag = 0x20

-- The arms of `match value & !MESSAGE_TYPE_TP_FLAG`.
unfoldable pub type_try_from : ℕ → Result Error MessageType
type_try_from value =
    let base = bit_and value (255 - tp_flag) in
    if base == 0x00
    then ok request
    else if base == 0x01
    then ok request_no_return
    else if base == 0x02
    then ok notification
    else if base == 0x80
    then ok response
    else if base == 0x81
    then ok error
    else err (invalid_message_type_field value)

-- The match of `new`: the byte on the wire, without the flag.
unfoldable pub wire : MessageType → ℕ
wire request = 0x00
wire request_no_return = 0x01
wire notification = 0x02
wire response = 0x80
wire error = 0x81

pub record MessageTypeField : Type 0 where
  pub byte : ℕ

unfoldable pub field_try_from : ℕ → Result Error MessageTypeField
field_try_from value = type_try_from value >> ok (record { byte = value })

unfoldable pub new : MessageType → Bool → MessageTypeField
new t tp = let base = wire t in record { byte = if tp then bit_or base tp_flag else base }

unfoldable pub new_sd : MessageTypeField
unfolding new
new_sd = new notification false

-- The last arm is `unreachable!()`.
unfoldable pub message_type : MessageTypeField → Result Error MessageType
message_type f =
    let base = bit_and f.byte (255 - tp_flag) in
    if base == 0x00
    then ok request
    else if base == 0x01
    then ok request_no_return
    else if base == 0x02
    then ok notification
    else if base == 0x80
    then ok response
    else if base == 0x81
    then ok error
    else panic

unfoldable pub is_tp : MessageTypeField → Bool
is_tp f = not (bit_and f.byte tp_flag == 0)

-- A field that was built reads back as it was built, and its byte passes the validation.
pub message_type-new :
    (t : MessageType) (tp : Bool)
    → (message_type (new t tp) ≡ ok t)
      × (is_tp (new t tp) ≡ tp)
      × (field_try_from (new t tp).byte ≡ ok (new t tp))
      × ((new t tp).byte < 256)
unfolding new message_type is_tp field_try_from type_try_from wire
message_type-new request true = (refl, refl, refl, omega arith)
message_type-new request false = (refl, refl, refl, omega arith)
message_type-new _ false = (refl, refl, refl, omega arith)
message_type-new _ true = (refl, refl, refl, omega arith)

-- Rebuilding the field from its two parts gives back the byte.
rebuilds : ℕ → Bool
rebuilds v = elim (type_try_from v) [
  | ok t ↦ (new t (is_tp (record { byte = v }))).byte == v
  | err _ ↦ true
  | panic ↦ true
]

rebuilds_table : all_below 256 rebuilds ≡ true
unfolding all_below rebuilds new is_tp type_try_from wire
rebuilds_table = refl

rebuilds-eq :
    (v : ℕ) (t : MessageType)
    → type_try_from v ≡ ok t
    → rebuilds v ≡ true
    → v ≡ (new t (is_tp (record { byte = v }))).byte
unfolding rebuilds
rebuilds-eq v t e h = ground arith

type_try_from-message_type :
    (v : ℕ) (t : MessageType) → type_try_from v ≡ ok t → message_type (record { byte = v }) ≡ ok t
unfolding type_try_from message_type
type_try_from-message_type v t h = ground arith

try_from-new_of :
    (v : ℕ) (r : Result Error MessageType) (f : MessageTypeField)
    → type_try_from v ≡ r
    → v < 256
    → field_try_from v ≡ ok f
    → (f.byte ≡ v) × ((t : MessageType) × (message_type f ≡ ok t) × (f ≡ new t (is_tp f)))
unfolding field_try_from
try_from-new_of v (ok t) f e h p =
    let same : f ≡ record { byte = v } = cc (p, e) in
    let whole = all_below_sound 256 rebuilds v rebuilds_table h in
    (
      ap (λ (x : MessageTypeField). x.byte) same,
      (
        t,
        rw same (type_try_from-message_type v t e),
        rw same (ap (λ (b : ℕ). record { byte = b }) (rebuilds-eq v t e whole)),
      ),
    )
try_from-new_of v (err x) f e h p = cc (p, e)
try_from-new_of v panic f e h p = cc (p, e)

-- A byte that passes the validation is kept; the field never reaches `unreachable!()`, and it is
-- the field of its type and flag.
pub try_from-new :
    (v : ℕ) (f : MessageTypeField)
    → v < 256
    → field_try_from v ≡ ok f
    → (f.byte ≡ v) × ((t : MessageType) × (message_type f ≡ ok t) × (f ≡ new t (is_tp f)))
try_from-new v f h p = try_from-new_of v (type_try_from v) f refl h p

pub type_try_from-ne-panic : (v : ℕ) → type_try_from v ≢ panic
unfolding type_try_from
type_try_from-ne-panic v h = ground arith

pub field_try_from-ne-panic : (v : ℕ) → field_try_from v ≢ panic
unfolding field_try_from
field_try_from-ne-panic v h = ground (arith, type_try_from-ne-panic v)
