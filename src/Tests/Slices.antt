-- ===== src/Tests/Slices.antt =====
-- A writer over a slice: what is written so far, and what is left of the slice.
use simple_someip.Prelude.{
  ℕ, ◌≤◌, ◌≡◌, refl, arith, List, [], ◌++◌, length, length-append, length-drop, drop, drop-drop,
  append-nil, append_assoc, ltb, le→ltb, lt→ltb, ltb→lt, if◌then◌else◌, Bool-cases, inl, inr,
  Result, ok, err, ◌>>=◌,
}
use simple_someip.Bytes.Writer.{Writer}
use simple_someip.Bytes.Slice.{SliceWriter}

abbrev write_over : List ℕ × List ℕ → List ℕ → Result ℕ (List ℕ × List ℕ)
write_over (done, left) bs =
    if ltb (length left) (length bs) then err 0 else ok (done ++ bs, drop (length bs) left)

pub write_over-nil : (w : List ℕ × List ℕ) → write_over w [] ≡ ok w
write_over-nil (done, left) = rw (le→ltb (length left) 0 (omega arith), append-nil done) refl

pub write_over-append :
    (w : List ℕ × List ℕ) (xs ys : List ℕ)
    → write_over w (xs ++ ys) ≡ (write_over w xs >>= λ v. write_over v ys)
write_over-append (done, left) xs ys =
    let total = length-append xs ys in
    let cut = length-drop (length xs) left in
    elim (Bool-cases (ltb (length left) (length xs))) [
      | inl short ↦
          let less = ltb→lt (length left) (length xs) short in
          rw (short, lt→ltb (length left) (length (xs ++ ys)) (omega arith)) refl
      | inr room ↦
          let enough : length xs ≤ length left = ground arith in
          elim (Bool-cases (ltb (length left) (length (xs ++ ys)))) [
            | inl short ↦
                let less = ltb→lt (length left) (length (xs ++ ys)) short in
                rw (short, room, lt→ltb (length (drop (length xs) left)) (length ys) (omega arith))
                  refl
            | inr fits ↦
                let all : length (xs ++ ys) ≤ length left = ground arith in
                rw
                  (
                    fits,
                    room,
                    le→ltb (length (drop (length xs) left)) (length ys) (omega arith),
                    append_assoc done xs ys,
                    drop-drop (length ys) (length xs) left,
                    total,
                  )
                  refl
          ]
    ]

abbrev over : Writer
over = record {
  W = List ℕ × List ℕ;
  write_all = write_over;
  write_all-nil = write_over-nil;
  write_all-append = write_over-append;
}

abbrev pub slice_writer : SliceWriter
slice_writer = record {
  wr = over;
  start = λ buf. ([], buf);
  slice_of = λ w. w.0 ++ w.1;
  write_all-fits =
      λ buf bs h. ((bs, drop (length bs) buf), rw (le→ltb (length buf) (length bs) h) refl, refl);
  write_all-short = λ buf bs h. (0, rw (lt→ltb (length buf) (length bs) h) refl);
}
