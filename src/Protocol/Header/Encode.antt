-- ===== src/Protocol/Header/Encode.antt =====
-- `WireFormat for Header` of src/protocol/header.rs.
use simple_someip.Prelude.{
  ℕ, ◌≡◌, List, [], ◌∷◌, ◌++◌, length, length-append, Result, ok, ◌>>=◌, >>=-assoc,
}
use simple_someip.Bytes.{to_be32}
use simple_someip.Bytes.Facts.{byte_order}
use simple_someip.Bytes.Writer.{Writer, write_u8, write_u32_be, write_bytes-append, Writes}
use simple_someip.Protocol.Error.{Error}
use simple_someip.Protocol.ReturnCode.{as_u8}
use simple_someip.Protocol.Header.{Header}

abbrev pub required_size : Header → ℕ
required_size h = 16

-- The wire format: what stands in the 16 bytes.
unfoldable pub header_bytes : Header → List ℕ
header_bytes h =
    to_be32 h.message_id.raw
    ++ (to_be32 h.length_field
        ++ (to_be32 h.request_id
            ++ ((h.protocol_version ∷ [])
                ++ ((h.interface_version ∷ [])
                    ++ ((h.message_type.byte ∷ []) ++ (as_u8 h.return_code ∷ []))))))

pub length-header_bytes : (h : Header) → length (header_bytes h) ≡ 16
unfolding header_bytes
length-header_bytes h = simp (length-append, byte_order)

module _ (wr : Writer) where
  open wr use {W}

  unfoldable pub encode : Header → W → Result Error (ℕ × W)
  encode h w₀ = do
    w₁ ← write_u32_be wr w₀ h.message_id.raw
    w₂ ← write_u32_be wr w₁ h.length_field
    w₃ ← write_u32_be wr w₂ h.request_id
    w₄ ← write_u8 wr w₃ h.protocol_version
    w₅ ← write_u8 wr w₄ h.interface_version
    w₆ ← write_u8 wr w₅ h.message_type.byte
    w₇ ← write_u8 wr w₆ (as_u8 h.return_code)
    ok (16, w₇)

  -- A header is written as its 16 bytes, and the count that is returned is their number.
  pub encode-header_bytes : (h : Header) → Writes wr (encode h) (header_bytes h)
  unfolding encode header_bytes write_u32_be write_u8
  encode-header_bytes h w = simp (write_bytes-append, >>=-assoc, length-append, byte_order)
