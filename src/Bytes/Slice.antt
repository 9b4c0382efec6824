-- ===== src/Bytes/Slice.antt =====
-- `encode_to_slice` of src/traits.rs: an encoder writes into the front of a byte slice.
-- `embedded_io::Write for &mut [u8]` is a parameter: a writer that is opened on a slice overwrites
-- the front of it, and refuses what does not fit.
use simple_someip.Prelude.{ℕ, ◌≤◌, ◌<◌, ◌≡◌, refl, List, ◌++◌, length, drop, Result, ok, err, ◌>>=◌}
use simple_someip.Bytes.Writer.{Writer, write_bytes, Writes}
use simple_someip.Protocol.Error.{Error, io}

pub record SliceWriter : Type 1 where
  pub wr : Writer
  pub start : List ℕ → wr.W
  -- The slice that the writer was opened on, with what was written to it.
  pub slice_of : wr.W → List ℕ
  pub write_all-fits :
      (buf bs : List ℕ)
      → length bs ≤ length buf
      → (w : wr.W) × (wr.write_all (start buf) bs ≡ ok w)
        × (slice_of w ≡ bs ++ drop (length bs) buf)
  pub write_all-short :
      (buf bs : List ℕ) → length buf < length bs → (e : ℕ) × (wr.write_all (start buf) bs ≡ err e)

module _ (sw : SliceWriter) where
  open sw use {wr, start, slice_of, write_all-fits, write_all-short}

  unfoldable pub encode_to_slice :
      (wr.W → Result Error (ℕ × wr.W)) → List ℕ → Result Error (ℕ × List ℕ)
  encode_to_slice encode buf = do (n, w) ← encode (start buf); ok (n, slice_of w)

  module _ (encode : wr.W → Result Error (ℕ × wr.W)) (bs buf : List ℕ)
      (writes : Writes wr encode bs) where
    pub encode_to_slice-fits :
        length bs ≤ length buf
        → encode_to_slice encode buf ≡ ok (length bs, bs ++ drop (length bs) buf)
    unfolding encode_to_slice write_bytes
    encode_to_slice-fits fits =
        let (w, done, result) = write_all-fits buf bs fits in
        rw (writes (start buf), done, result) refl

    pub encode_to_slice-short :
        length buf < length bs → (e : Error) × (encode_to_slice encode buf ≡ err e)
    unfolding encode_to_slice write_bytes
    encode_to_slice-short short =
        let (e, refused) = write_all-short buf bs short in
        (io e, rw (writes (start buf), refused) refl)
