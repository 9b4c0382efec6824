-- ===== src/Bytes/Writer.antt =====
-- src/protocol/byte_order.rs, `WriteBytesExt`, and `encode_to_slice` of src/traits.rs.
-- `embedded_io::Write` is a parameter: a writer's state, `write_all`, and the two facts that the
-- encoders rely on. `W` is the state behind `&mut T`, and an error kind is a number.
use simple_someip.Prelude.{
  ℕ, ◌≡◌, refl, List, [], ◌∷◌, ◌++◌, length, Result, ok, err, panic, map_err, ◌>>=◌,
}
use simple_someip.Bytes.{to_be16, to_be24, to_be32}
use simple_someip.Protocol.Error.{Error, io}

-- `write_all` writes the whole list or fails.
pub record Writer : Type 1 where
  pub W : Type 0
  pub write_all : W → List ℕ → Result ℕ W
  pub write_all-nil : (w : W) → write_all w [] ≡ ok w
  pub write_all-append :
      (w : W) (xs ys : List ℕ) → write_all w (xs ++ ys) ≡ (write_all w xs >>= λ v. write_all v ys)

module _ (wr : Writer) where
  open wr use {W, write_all, write_all-append, write_all-nil}

  unfoldable pub write_bytes : W → List ℕ → Result Error W
  write_bytes w bs = map_err io (write_all w bs)

  unfoldable pub write_u8 : W → ℕ → Result Error W
  write_u8 w v = write_bytes w (v ∷ [])

  unfoldable pub write_u16_be : W → ℕ → Result Error W
  write_u16_be w v = write_bytes w (to_be16 v)

  unfoldable pub write_u24_be : W → ℕ → Result Error W
  write_u24_be w v = write_bytes w (to_be24 v)

  unfoldable pub write_u32_be : W → ℕ → Result Error W
  write_u32_be w v = write_bytes w (to_be32 v)

  pub write_bytes-nil : (w : W) → write_bytes w [] ≡ ok w
  unfolding write_bytes
  write_bytes-nil w = rw (write_all-nil w)

  map_err->>= :
      (m : Result ℕ W) (f : W → Result ℕ W)
      → map_err io (m >>= f) ≡ (map_err io m >>= λ v. map_err io (f v))
  map_err->>= (ok v) f = refl
  map_err->>= (err e) f = refl
  map_err->>= panic f = refl

  -- Two writes in a row are one write of both lists.
  pub write_bytes-append :
      (w : W) (xs ys : List ℕ)
      → write_bytes w (xs ++ ys) ≡ (write_bytes w xs >>= λ v. write_bytes v ys)
  unfolding write_bytes
  write_bytes-append w xs ys = rw (write_all-append w xs ys) (map_err->>= (write_all w xs) _)

  -- An encoder that writes the given bytes and returns their number: the shape of every theorem
  -- about an encoder. It fails exactly when the writer refuses those bytes.
  abbrev pub Writes : (W → Result Error (ℕ × W)) → List ℕ → Type 0
  Writes encode bs = (w : W) → encode w ≡ (write_bytes w bs >>= λ v. ok (length bs, v))
