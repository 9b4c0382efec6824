-- ===== src/SdCodec.antt =====
-- src/sd_codec.rs: datagrams of service discovery and of events, built into a caller's buffer and
-- parsed from one. A buffer after an error is not modelled.
pub mod Build
pub mod Built
pub mod Notify
pub mod Offers
pub mod Parse
pub mod Session
use simple_someip.Prelude.{ℕ}
use simple_someip.Bytes.{IsU8, IsU16, IsU24, IsU32}

abbrev pub someip_header_len : ℕ
someip_header_len = 16

pub record SubscribeEventgroupRequest : Type 0 where
  pub service_id : ℕ
  pub instance_id : ℕ
  pub major_version : ℕ
  pub event_group_id : ℕ
  pub ttl : ℕ
  pub local_ip : ℕ
  pub local_rx_port : ℕ

pub record OfferServiceRequest : Type 0 where
  pub service_id : ℕ
  pub instance_id : ℕ
  pub major_version : ℕ
  pub minor_version : ℕ
  pub ttl : ℕ
  pub local_ip : ℕ
  pub unicast_port : ℕ

pub record SubscribeAckRequest : Type 0 where
  pub service_id : ℕ
  pub instance_id : ℕ
  pub event_group_id : ℕ
  pub major_version : ℕ
  pub ttl : ℕ

pub data BuildError : Type 0 where
  buffer_too_small encode_failed : BuildError

-- The ranges that the types of the fields give, and the 24 bits of the ttl on the wire.
pub record IsSubscribe (r : SubscribeEventgroupRequest) : Type 0 where
  pub service : IsU16 r.service_id
  pub instance_range : IsU16 r.instance_id
  pub major : IsU8 r.major_version
  pub group : IsU16 r.event_group_id
  pub ttl_range : IsU24 r.ttl
  pub ip_range : IsU32 r.local_ip
  pub port_range : IsU16 r.local_rx_port

pub record IsOffer (r : OfferServiceRequest) : Type 0 where
  pub service : IsU16 r.service_id
  pub instance_range : IsU16 r.instance_id
  pub major : IsU8 r.major_version
  pub minor : IsU32 r.minor_version
  pub ttl_range : IsU24 r.ttl
  pub ip_range : IsU32 r.local_ip
  pub port_range : IsU16 r.unicast_port

pub record IsAck (r : SubscribeAckRequest) : Type 0 where
  pub service : IsU16 r.service_id
  pub instance_range : IsU16 r.instance_id
  pub group : IsU16 r.event_group_id
  pub major : IsU8 r.major_version
  pub ttl_range : IsU24 r.ttl
