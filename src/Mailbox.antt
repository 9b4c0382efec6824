-- ===== src/Mailbox.antt =====
-- `RxMailbox` of src/bare_metal_runtime/mailbox.rs: slots that hold one datagram each. A call is one
-- run; the producer and the consumers share no slot at a time.
pub mod Bag
pub mod Slots
use simple_someip.Prelude.{
  ℕ, ◌≡◌, Bool, true, false, not, ltb, min, ◌==◌, if◌then◌else◌, List, [], ◌∷◌, ◌++◌, take, drop,
  length, replicate, Option, none, some,
}
use simple_someip.NetEndpoint.{SocketAddrV4}

pub record RxSlot : Type 0 where
  pub has_datagram : Bool
  pub local_port : ℕ
  pub src_addr : ℕ
  pub src_port : ℕ
  pub len : ℕ
  pub data_bytes : List ℕ

abbrev pub empty_slot : ℕ → RxSlot
empty_slot cap = record {
  has_datagram = false;
  local_port = 0;
  src_addr = 0;
  src_port = 0;
  len = 0;
  data_bytes = replicate cap 0;
}

unfoldable pub new : ℕ → ℕ → List RxSlot
new slots cap = replicate slots (empty_slot cap)

-- `copy_nonoverlapping` of the first `n` bytes.
abbrev pub copied : ℕ → List ℕ → List ℕ → List ℕ
copied n from into = take n from ++ drop n into

-- A slot with a datagram; the bytes are cut at `cap`.
unfoldable pub filled : ℕ → ℕ → ℕ → ℕ → List ℕ → RxSlot → RxSlot
filled cap local_port src_addr src_port buf s =
    let n = if ltb (length buf) cap then length buf else cap in
    record {
      has_datagram = true;
      local_port = local_port;
      src_addr = src_addr;
      src_port = src_port;
      len = n;
      data_bytes = copied n buf s.data_bytes;
    }

-- The loop of `push`: whether there was a free slot, and the slots.
unfoldable pub push : ℕ → List RxSlot → ℕ → ℕ → ℕ → List ℕ → Bool × List RxSlot
push cap [] local_port src_addr src_port buf = (false, [])
push cap (s ∷ ss) local_port src_addr src_port buf =
    let (done, rest) = push cap ss local_port src_addr src_port buf in
    if s.has_datagram
    then (done, s ∷ rest)
    else (true, filled cap local_port src_addr src_port buf s ∷ ss)

-- What `take` returns, beside the bytes in `out`.
pub record Taken : Type 0 where
  pub copied_len : ℕ
  pub source : SocketAddrV4
  pub truncated : Bool

unfoldable pub taken_from : RxSlot → List ℕ → Taken × List ℕ
taken_from s out =
    let copy_len = min s.len (length out) in
    (
      record {
        copied_len = copy_len;
        source = record { ip = s.src_addr; port = s.src_port };
        truncated = ltb copy_len s.len;
      },
      copied copy_len s.data_bytes out,
    )

-- The loop of `take`: the first slot with a datagram for the port.
unfoldable pub take_next : List RxSlot → ℕ → List ℕ → Option (Taken × List ℕ) × List RxSlot
take_next [] port out = (none, [])
take_next (s ∷ ss) port out =
    let (found, rest) = take_next ss port out in
    if not s.has_datagram
    then (found, s ∷ rest)
    else if not (s.local_port == port)
    then (found, s ∷ rest)
    else (some (taken_from s out), record s { has_datagram = false } ∷ ss)
