-- ===== src/Server/Publish.antt =====
-- `EventPublisher` of src/server/event_publisher.rs. The socket is a parameter: a send gives no
-- error or one, and the socket's next state. A call goes from the snapshot of the subscribers to
-- the last send in one run; logging is left out.
pub mod Datagram
pub mod Checked
pub mod Sent
use simple_someip.Prelude.{
  ℕ, ◌+◌, ◌-◌, ◌%◌, ◌||◌, Bool, not, true, false, List, [], ◌∷◌, ◌++◌, length, take, map, ltb, leb,
  ◌==◌, if◌then◌else◌, Option, none, some, Result, ok, err, panic, map_err, ◌>>=◌, ◌>>◌, fail_if,
  assert, expect,
}
use simple_someip.Prelude.Eq.{Eq}
use simple_someip.Maps.{IndexMap}
use simple_someip.Bytes.{to_be32, slice}
use simple_someip.Bytes.Copy.{copy_at}
use simple_someip.Bytes.Slice.{SliceWriter, encode_to_slice}
use simple_someip.Protocol.Error.{Error}
use simple_someip.Protocol.Header as Header
use simple_someip.Protocol.Header.Encode as HeaderEncode
use simple_someip.Protocol.Message.Encode as Message
use simple_someip.Traits.{PayloadWireFormat}
use simple_someip.E2e.{E2eError}
use simple_someip.E2e.Profile.{E2eKey, E2eProfile, E2eState, Crcs, from_message_id}
use simple_someip.E2e.Registry.{
  E2eRegistry, RxKey, registry_cap, rx_state_cap, contains_key, protect,
}
use simple_someip.Transport.{TransportError, unsupported}
use simple_someip.Server.Error.{ServerError, protocol, transport, capacity}
use simple_someip.Server.Subscriptions.{
  GroupKey, Subscriber, SubscribeError, get_subscribers, subscribe, unsubscribe, is_empty,
  any_address,
}

-- The two arms of the match on a send.
unfoldable pub counted : Option TransportError → ℕ → ℕ
counted none sent_count = sent_count + 1
counted (some e) sent_count = sent_count

unfoldable pub latest : Option TransportError → Option TransportError → Option TransportError
latest none last_err = last_err
latest (some e) last_err = some e

-- The loop that sends the datagram to each subscriber: how many sends had no error, the last error,
-- and the socket.
module _ {Addr Sock : Type 0} (send_to : Sock → List ℕ → Addr → Option TransportError × Sock) where
  unfoldable pub send_each :
      Sock → List ℕ → List Addr → ℕ → Option TransportError → (ℕ × Option TransportError) × Sock
  send_each sock datagram [] sent_count last_err = ((sent_count, last_err), sock)
  send_each sock datagram (addr ∷ addrs) sent_count last_err =
      let (failed, next) = send_to sock datagram addr in
      send_each next datagram addrs (counted failed sent_count) (latest failed last_err)

  abbrev pub unwrap_or_unsupported : Option TransportError → TransportError
  unwrap_or_unsupported none = unsupported
  unwrap_or_unsupported (some e) = e

  unfoldable pub sent_result : ℕ → Option TransportError → Result ServerError ℕ
  sent_result sent_count last_err =
      if sent_count == 0 then err (transport (unwrap_or_unsupported last_err)) else ok sent_count

  unfoldable pub send_all : Sock → List ℕ → List Addr → Result ServerError ℕ × Sock
  send_all sock datagram addrs =
      let ((sent_count, last_err), next) = send_each sock datagram addrs 0 none in
      (sent_result sent_count last_err, next)

  -- A datagram that was built is sent; an error is returned before any send.
  unfoldable pub send_built :
      Sock → Result ServerError (List ℕ) → List Addr → Result ServerError ℕ × Sock
  send_built sock (ok datagram) addrs = send_all sock datagram addrs
  send_built sock (err e) addrs = (err e, sock)
  send_built sock panic addrs = (panic, sock)

  -- The one send of `publish_raw_event_to_with_buffers`.
  unfoldable pub send_one : Sock → Result ServerError (List ℕ) → Addr → Result ServerError ℕ × Sock
  send_one sock (ok datagram) target =
      let (failed, next) = send_to sock datagram target in
      (elim failed [ none ↦ ok 1 | some e ↦ err (transport e) ], next)
  send_one sock (err e) target = (err e, sock)
  send_one sock panic target = (panic, sock)

module _ (sw : SliceWriter) where
  open sw use {wr}

  -- The datagram of a raw event. The second bound cannot be reached, since the payload is measured
  -- before; `checked_add` does not overflow.
  unfoldable pub raw_event_datagram :
      ℕ → ℕ → ℕ → ℕ → ℕ → List ℕ → List ℕ → Result ServerError (List ℕ)
  raw_event_datagram service_id event_id request_id protocol_version interface_version payload buf =
      do
        fail_if (ltb (length buf) 16) capacity
        fail_if (ltb (length buf - 16) (length payload)) capacity
        header ← expect (
            Header.new_event service_id event_id request_id protocol_version interface_version
              (length payload))
        (header_len, written) ←
            map_err protocol (encode_to_slice sw (HeaderEncode.encode wr header) buf)
        let total_len = header_len + length payload
        fail_if (ltb (length written) total_len) capacity
        out ← copy_at written header_len total_len payload
        slice out 0 total_len

  module _ (format : PayloadWireFormat wr) {Ip : Type 0} (ip : Eq Ip) (ke : Eq E2eKey)
      (re : Eq (RxKey Ip)) (profiles : IndexMap E2eKey E2eProfile ke registry_cap)
      (senders : IndexMap E2eKey E2eState ke registry_cap)
      (receivers : IndexMap (RxKey Ip) E2eState re rx_state_cap) (crcs : Crcs) where
    -- The protected payload takes the place of the payload, and the length field follows it.
    unfoldable pub replace_payload : List ℕ → ℕ → List ℕ → Result ServerError (List ℕ)
    replace_payload msg_buf protected_len protected_buf = do
      fail_if (ltb (length msg_buf) (16 + protected_len)) capacity
      let new_length = 8 + protected_len % 4294967296
      assert (leb new_length 4294967295)
      b₁ ← copy_at msg_buf 4 8 (to_be32 new_length)
      frame ← slice protected_buf 0 protected_len
      b₂ ← copy_at b₁ 16 (16 + protected_len) frame
      slice b₂ 0 (16 + protected_len)

    -- The match on what `protect` returns; `None` is `unreachable!`. The counter that a frame has
    -- taken is spent, also when the frame does not fit.
    unfoldable pub protected_datagram :
        Option (Result E2eError (ℕ × E2eRegistry ip ke re profiles senders receivers × List ℕ))
        → E2eRegistry ip ke re profiles senders receivers
        → List ℕ
        → Result ServerError (List ℕ) × E2eRegistry ip ke re profiles senders receivers
    protected_datagram (some (ok (protected_len, next, protected_buf))) reg msg_buf =
        (replace_payload msg_buf protected_len protected_buf, next)
    protected_datagram (some (err e)) reg msg_buf = (err capacity, reg)
    protected_datagram (some panic) reg msg_buf = (panic, reg)
    protected_datagram none reg msg_buf = (panic, reg)

    -- The two parts of the written message that `protect` takes.
    unfoldable pub protect_written :
        Result ServerError (List ℕ × List ℕ)
        → E2eRegistry ip ke re profiles senders receivers
        → E2eKey
        → List ℕ
        → List ℕ
        → Result ServerError (List ℕ) × E2eRegistry ip ke re profiles senders receivers
    protect_written (ok (upper_header, body)) reg key msg_buf protected_buf =
        protected_datagram
          (protect ip ke re profiles senders receivers crcs reg key body upper_header protected_buf)
          reg msg_buf
    protect_written (err e) reg key msg_buf protected_buf = (err e, reg)
    protect_written panic reg key msg_buf protected_buf = (panic, reg)

    unfoldable pub finish_datagram :
        Result ServerError (ℕ × List ℕ)
        → E2eRegistry ip ke re profiles senders receivers
        → E2eKey
        → List ℕ
        → Result ServerError (List ℕ) × E2eRegistry ip ke re profiles senders receivers
    finish_datagram (ok (message_length, msg_buf)) reg key protected_buf =
        let parts : Result ServerError (List ℕ × List ℕ) = (do
          upper_header ← slice msg_buf 8 16
          body ← slice msg_buf 16 message_length
          ok (upper_header, body)) in
        if contains_key ip ke re profiles senders receivers reg key
        then protect_written parts reg key msg_buf protected_buf
        else (slice msg_buf 0 message_length, reg)
    finish_datagram (err e) reg key protected_buf = (err e, reg)
    finish_datagram panic reg key protected_buf = (panic, reg)

    -- The datagram of a message, in `publish_event_with_buffers`.
    unfoldable pub event_datagram :
        E2eRegistry ip ke re profiles senders receivers
        → Message.Message format.P
        → List ℕ
        → List ℕ
        → Result ServerError (List ℕ) × E2eRegistry ip ke re profiles senders receivers
    event_datagram reg message msg_buf protected_buf =
        let written : Result ServerError (ℕ × List ℕ) = (do
          fail_if (ltb (length msg_buf) (Message.required_size wr format message)) capacity
          map_err protocol (encode_to_slice sw (Message.encode wr format message) msg_buf)) in
        finish_datagram written reg (from_message_id message.header.message_id) protected_buf

    module _ {Addr Sock : Type 0} (a : Eq Addr) (e : Eq GroupKey)
        (groups_cap subscribers_per_group : ℕ)
        (groups : IndexMap GroupKey (List (Subscriber Addr)) e groups_cap)
        (send_to : Sock → List ℕ → Addr → Option TransportError × Sock) where
      -- The addresses that fit the snapshot; a push beyond it is dropped.
      unfoldable pub snapshot : groups.M → GroupKey → List Addr
      snapshot m key = take subscribers_per_group (
          map (λ (s : Subscriber Addr). s.address)
            (get_subscribers a e groups_cap subscribers_per_group groups m key))

      unfoldable pub publish_event_with_buffers :
          groups.M
          → E2eRegistry ip ke re profiles senders receivers
          → Sock
          → GroupKey
          → Message.Message format.P
          → List ℕ
          → List ℕ
          → Result ServerError ℕ × Sock × E2eRegistry ip ke re profiles senders receivers
      publish_event_with_buffers m reg sock key message msg_buf protected_buf =
          let subscribers = snapshot m key in
          let (datagram, next) = event_datagram reg message msg_buf protected_buf in
          let (result, after) = send_built send_to sock datagram subscribers in
          if is_empty subscribers then (ok 0, sock, reg) else (result, after, next)

      unfoldable pub publish_raw_event_with_buffers :
          groups.M → Sock → GroupKey → ℕ → ℕ → ℕ → ℕ → List ℕ → List ℕ → Result ServerError ℕ × Sock
      publish_raw_event_with_buffers m sock key event_id request_id protocol_version
            interface_version payload buf =
          let subscribers = snapshot m key in
          if is_empty subscribers
          then (ok 0, sock)
          else send_built send_to sock
              (raw_event_datagram key.service_id event_id request_id protocol_version
                interface_version payload buf)
              subscribers

      unfoldable pub publish_raw_event_to_with_buffers :
          groups.M
          → Sock
          → Addr
          → GroupKey
          → ℕ
          → ℕ
          → ℕ
          → ℕ
          → List ℕ
          → List ℕ
          → Result ServerError ℕ × Sock
      publish_raw_event_to_with_buffers m sock target key event_id request_id protocol_version
            interface_version payload buf =
          if not (
            any_address a (get_subscribers a e groups_cap subscribers_per_group groups m key)
              target)
          then (ok 0, sock)
          else send_one send_to sock
              (raw_event_datagram key.service_id event_id request_id protocol_version
                interface_version payload buf)
              target

      -- The count that `for_each_subscriber` returns.
      unfoldable pub subscriber_count : groups.M → GroupKey → ℕ
      subscriber_count m key =
          length (get_subscribers a e groups_cap subscribers_per_group groups m key)

      unfoldable pub has_subscribers : groups.M → GroupKey → Bool
      has_subscribers m key = ltb 0 (subscriber_count m key)

      unfoldable pub register_subscriber :
          groups.M → GroupKey → Addr → Result SubscribeError (Unit {0}) × groups.M
      register_subscriber m key addr =
          subscribe a e groups_cap subscribers_per_group groups m key addr

      unfoldable pub remove_subscriber : groups.M → GroupKey → Addr → groups.M
      remove_subscriber m key addr =
          unsubscribe a e groups_cap subscribers_per_group groups m key addr
