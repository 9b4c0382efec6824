-- ===== src/Bytes/Copy.antt =====
-- `copy_from_slice` of Rust's standard library on a part of a buffer.
use simple_someip.Prelude.{
  ℕ, ◌+◌, ◌-◌, ◌≤◌, ◌≡◌, refl, sym, ap, ◌∙◌, arith, List, ◌++◌, length, length-append, length-drop,
  take, drop, drop-append, drop-drop, ◌==◌, ==_refl, ltb, le→ltb, not, ◌||◌, if◌then◌else◌, Result,
  ok, panic, append_assoc, take-append_length,
}

module _ {ℓ} {E : Type ℓ} where
  -- `output[lo..hi].copy_from_slice(bs)`, which panics when the range is out of bounds or has
  -- another length.
  unfoldable pub copy_at : List ℕ → ℕ → ℕ → List ℕ → Result E (List ℕ)
  copy_at output lo hi bs =
      if ltb hi lo || (ltb (length output) hi || not (hi - lo == length bs))
      then panic
      else ok (take lo output ++ (bs ++ drop hi output))

  -- Copying the next piece behind what has been copied.
  pub copy_at-append :
      (output done bs : List ℕ) (lo hi : ℕ)
      → lo ≡ length done
      → hi ≡ lo + length bs
      → hi ≤ length output
      → copy_at (done ++ drop lo output) lo hi bs ≡ ok ((done ++ bs) ++ drop hi output)
  unfolding copy_at
  copy_at-append output done bs lo hi p q fits =
      let rest = drop lo output in
      let front : take lo (done ++ rest) ≡ done = take-append_length done rest lo p in
      let back : drop hi (done ++ rest) ≡ drop hi output =
        drop-append done rest hi (length bs) (omega arith)
        ∙ (drop-drop (length bs) lo output ∙ ap (λ (k : ℕ). drop k output) (sym q)) in
      let size : hi - lo ≡ length bs = omega arith in
      rw
        (
          front,
          back,
          append_assoc done bs (drop hi output),
          le→ltb hi lo (omega arith),
          le→ltb (length (done ++ rest)) hi
              (omega (arith, length-append done rest, length-drop lo output)),
          size,
          ==_refl (length bs),
        )
        refl
