-- ===== src/Sd/Entry/Encode.antt =====
-- The encoders of src/protocol/sd/entry.rs.
use mathlib.Core.Path.{fun_ext}
use simple_someip.Prelude.{
  ℕ, suc, ◌+◌, ◌≡◌, sym, List, [], ◌∷◌, ◌++◌, length, length-append, Result, ok, ◌>>=◌, >>=-assoc,
}
use simple_someip.Bytes.{to_be16, to_be24, to_be32}
use simple_someip.Bytes.Facts.{byte_order}
use simple_someip.Bytes.Writer.{
  Writer, write_bytes, write_u8, write_u16_be, write_u24_be, write_u32_be, write_bytes-append,
  Writes,
}
use simple_someip.Protocol.Error.{Error}
use simple_someip.Sd.Entry.Count.{count_to_u8}
use simple_someip.Sd.Entry.{
  Entry, ServiceEntry, EventGroupEntry, find_service_entry, offer_service_entry,
  stop_offer_service_entry, subscribe_event_group, subscribe_ack_event_group, type_to_u8,
  find_service, offer_service, stop_offer_service, subscribe, subscribe_ack, entry_type_of,
}

abbrev pub service_required_size : ServiceEntry → ℕ
service_required_size e = 16

abbrev pub event_group_required_size : EventGroupEntry → ℕ
event_group_required_size e = 16

unfoldable pub entry_required_size : Entry → ℕ
entry_required_size (find_service_entry e) = 1 + service_required_size e
entry_required_size (offer_service_entry e) = 1 + service_required_size e
entry_required_size (stop_offer_service_entry e) = 1 + service_required_size e
entry_required_size (subscribe_event_group e) = 1 + event_group_required_size e
entry_required_size (subscribe_ack_event_group e) = 1 + event_group_required_size e

-- The wire format: what stands behind the type byte, and the whole entry.
unfoldable pub service_bytes : ServiceEntry → List ℕ
service_bytes e =
    (e.index_first_options_run ∷ [])
    ++ ((e.index_second_options_run ∷ [])
        ++ ((count_to_u8 e.options_count ∷ [])
            ++ (to_be16 e.service_id
                ++ (to_be16 e.instance_id
                    ++ ((e.major_version ∷ []) ++ (to_be24 e.ttl ++ to_be32 e.minor_version))))))

unfoldable pub event_group_bytes : EventGroupEntry → List ℕ
event_group_bytes e =
    (e.index_first_options_run ∷ [])
    ++ ((e.index_second_options_run ∷ [])
        ++ ((count_to_u8 e.options_count ∷ [])
            ++ (to_be16 e.service_id
                ++ (to_be16 e.instance_id
                    ++ ((e.major_version ∷ [])
                        ++ (to_be24 e.ttl ++ (to_be16 e.counter ++ to_be16 e.event_group_id)))))))

abbrev pub body_bytes : Entry → List ℕ
body_bytes (find_service_entry e) = service_bytes e
body_bytes (offer_service_entry e) = service_bytes e
body_bytes (stop_offer_service_entry e) = service_bytes e
body_bytes (subscribe_event_group e) = event_group_bytes e
body_bytes (subscribe_ack_event_group e) = event_group_bytes e

unfoldable pub entry_bytes : Entry → List ℕ
entry_bytes e = type_to_u8 (entry_type_of e) ∷ body_bytes e

pub length-service_bytes : (e : ServiceEntry) → length (service_bytes e) ≡ 15
unfolding service_bytes
length-service_bytes e = simp (length-append, byte_order)

pub length-event_group_bytes : (e : EventGroupEntry) → length (event_group_bytes e) ≡ 15
unfolding event_group_bytes
length-event_group_bytes e = simp (length-append, byte_order)

pub length-entry_bytes : (e : Entry) → length (entry_bytes e) ≡ 16
unfolding entry_bytes
length-entry_bytes (find_service_entry e) = rw length-service_bytes
length-entry_bytes (offer_service_entry e) = rw length-service_bytes
length-entry_bytes (stop_offer_service_entry e) = rw length-service_bytes
length-entry_bytes (subscribe_event_group e) = rw length-event_group_bytes
length-entry_bytes (subscribe_ack_event_group e) = rw length-event_group_bytes

module _ (wr : Writer) where
  open wr use {W}

  unfoldable pub encode_service : ServiceEntry → W → Result Error (ℕ × W)
  encode_service e w₀ = do
    w₁ ← write_u8 wr w₀ e.index_first_options_run
    w₂ ← write_u8 wr w₁ e.index_second_options_run
    w₃ ← write_u8 wr w₂ (count_to_u8 e.options_count)
    w₄ ← write_u16_be wr w₃ e.service_id
    w₅ ← write_u16_be wr w₄ e.instance_id
    w₆ ← write_u8 wr w₅ e.major_version
    w₇ ← write_u24_be wr w₆ e.ttl
    w₈ ← write_u32_be wr w₇ e.minor_version
    ok (16, w₈)

  unfoldable pub encode_event_group : EventGroupEntry → W → Result Error (ℕ × W)
  encode_event_group e w₀ = do
    w₁ ← write_u8 wr w₀ e.index_first_options_run
    w₂ ← write_u8 wr w₁ e.index_second_options_run
    w₃ ← write_u8 wr w₂ (count_to_u8 e.options_count)
    w₄ ← write_u16_be wr w₃ e.service_id
    w₅ ← write_u16_be wr w₄ e.instance_id
    w₆ ← write_u8 wr w₅ e.major_version
    w₇ ← write_u24_be wr w₆ e.ttl
    w₈ ← write_u16_be wr w₇ e.counter
    w₉ ← write_u16_be wr w₈ e.event_group_id
    ok (16, w₉)

  unfoldable pub encode : Entry → W → Result Error (ℕ × W)
  encode (find_service_entry e) w = do
    w₁ ← write_u8 wr w (type_to_u8 find_service)
    encode_service e w₁
  encode (offer_service_entry e) w = do
    w₁ ← write_u8 wr w (type_to_u8 offer_service)
    encode_service e w₁
  encode (stop_offer_service_entry e) w = do
    w₁ ← write_u8 wr w (type_to_u8 stop_offer_service)
    encode_service e w₁
  encode (subscribe_event_group e) w = do
    w₁ ← write_u8 wr w (type_to_u8 subscribe)
    encode_event_group e w₁
  encode (subscribe_ack_event_group e) w = do
    w₁ ← write_u8 wr w (type_to_u8 subscribe_ack)
    encode_event_group e w₁

  -- A service entry is written as its 15 bytes behind the type byte, while the count that is
  -- returned is 16.
  pub encode_service-eq :
      (e : ServiceEntry) (w : W)
      → encode_service e w ≡ (write_bytes wr w (service_bytes e) >>= λ v. ok (16, v))
  unfolding encode_service service_bytes write_u8 write_u16_be write_u24_be write_u32_be
  encode_service-eq e w = simp (write_bytes-append, >>=-assoc)

  pub encode_event_group-eq :
      (e : EventGroupEntry) (w : W)
      → encode_event_group e w ≡ (write_bytes wr w (event_group_bytes e) >>= λ v. ok (16, v))
  unfolding encode_event_group event_group_bytes write_u8 write_u16_be write_u24_be
  encode_event_group-eq e w = simp (write_bytes-append, >>=-assoc)

  -- The type byte and then the body.
  type_then_body :
      (b : ℕ) (bs : List ℕ) (f : W → Result Error (ℕ × W)) (w : W)
      → length bs ≡ 15
      → ((v : W) → f v ≡ (write_bytes wr v bs >>= λ u. ok (16, u)))
      → (write_u8 wr w b >>= f) ≡ (write_bytes wr w (b ∷ bs) >>= λ u. ok (suc (length bs), u))
  unfolding write_u8
  type_then_body b bs f w len h =
      rw (fun_ext h, len, write_bytes-append wr w (b ∷ []) bs)
        (sym (>>=-assoc (write_bytes wr w (b ∷ [])) _ _))

  -- Every entry is written as its 16 bytes, and the count that is returned is their number.
  pub encode-entry_bytes : (e : Entry) → Writes wr (encode e) (entry_bytes e)
  unfolding encode entry_bytes
  encode-entry_bytes (find_service_entry e) w =
      type_then_body _ (service_bytes e) _ w (length-service_bytes e) (encode_service-eq e)
  encode-entry_bytes (offer_service_entry e) w =
      type_then_body _ (service_bytes e) _ w (length-service_bytes e) (encode_service-eq e)
  encode-entry_bytes (stop_offer_service_entry e) w =
      type_then_body _ (service_bytes e) _ w (length-service_bytes e) (encode_service-eq e)
  encode-entry_bytes (subscribe_event_group e) w =
      type_then_body _ (event_group_bytes e) _ w (length-event_group_bytes e)
        (encode_event_group-eq e)
  encode-entry_bytes (subscribe_ack_event_group e) w =
      type_then_body _ (event_group_bytes e) _ w (length-event_group_bytes e)
        (encode_event_group-eq e)
