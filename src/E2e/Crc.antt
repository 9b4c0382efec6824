-- ===== src/E2e/Crc.antt =====
-- src/e2e/crc.rs. The crate `crc` is a parameter: a digest that is fed and finalized.
use simple_someip.Prelude.{ℕ, ◌<◌, List, [], ◌∷◌}
use simple_someip.Bytes.{to_be16, to_be32, to_le16}

-- The checksum fits the width of its algorithm.
pub record Crc (bound : ℕ) : Type 1 where
  pub Digest : Type 0
  pub digest : Digest
  pub update : Digest → List ℕ → Digest
  pub finalize : Digest → ℕ
  pub finalize-lt : (d : Digest) → finalize d < bound

unfoldable pub compute_crc32_p4 : Crc 4294967296 → ℕ → ℕ → ℕ → List ℕ → ℕ
compute_crc32_p4 crc length counter data_id payload =
    let d₁ = crc.update crc.digest (to_be16 length) in
    let d₂ = crc.update d₁ (to_be16 counter) in
    let d₃ = crc.update d₂ (to_be32 data_id) in let d₄ = crc.update d₃ payload in crc.finalize d₄

unfoldable pub compute_crc16_p5 : Crc 65536 → ℕ → ℕ → List ℕ → ℕ
compute_crc16_p5 crc data_id counter payload =
    let d₁ = crc.update crc.digest (counter ∷ []) in
    let d₂ = crc.update d₁ payload in let d₃ = crc.update d₂ (to_le16 data_id) in crc.finalize d₃

unfoldable pub compute_crc16_p5_with_header : Crc 65536 → ℕ → ℕ → List ℕ → List ℕ → ℕ
compute_crc16_p5_with_header crc data_id counter payload upper_header =
    let d₁ = crc.update crc.digest upper_header in
    let d₂ = crc.update d₁ (counter ∷ []) in
    let d₃ = crc.update d₂ payload in let d₄ = crc.update d₃ (to_le16 data_id) in crc.finalize d₄

pub compute_crc32_p4-lt :
    (crc : Crc 4294967296) (length counter data_id : ℕ) (payload : List ℕ)
    → compute_crc32_p4 crc length counter data_id payload < 4294967296
unfolding compute_crc32_p4
compute_crc32_p4-lt crc length counter data_id payload = crc.finalize-lt _

pub compute_crc16_p5-lt :
    (crc : Crc 65536) (data_id counter : ℕ) (payload : List ℕ)
    → compute_crc16_p5 crc data_id counter payload < 65536
unfolding compute_crc16_p5
compute_crc16_p5-lt crc data_id counter payload = crc.finalize-lt _

pub compute_crc16_p5_with_header-lt :
    (crc : Crc 65536) (data_id counter : ℕ) (payload upper_header : List ℕ)
    → compute_crc16_p5_with_header crc data_id counter payload upper_header < 65536
unfolding compute_crc16_p5_with_header
compute_crc16_p5_with_header-lt crc data_id counter payload upper_header = crc.finalize-lt _
