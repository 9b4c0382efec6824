-- ===== src/Prelude/Results.antt =====
-- Results of fallible code. `panic` stands for a Rust panic: an index or a slice out of bounds,
-- a checked subtraction below zero, or a failed `assert!` or `expect`.
use mathlib.Core.Path.{◌≡◌, refl}
use mathlib.Core.Bool.{Bool, true, false}
use mathlib.Core.Option.{Option, none, some}
use mathlib.Core.Logic.{◌⊎◌, inl, inr}

pub data Result {ℓ κ} (E : Type ℓ) (A : Type κ) : Type (ℓ ⊔ κ) where
  ok : A → Result E A
  err : E → Result E A
  panic : Result E A

-- `map_err`.
abbrev pub map_err {ℓ κ μ} :
    {E : Type ℓ} {F : Type κ} {A : Type μ} → (E → F) → Result E A → Result F A
map_err f (ok a) = ok a
map_err f (err e) = err (f e)
map_err f panic = panic

-- The `?` operator.
infixl 5 ◌>>=◌ ◌>>◌
abbrev pub ◌>>=◌ {ℓ κ μ} :
    {E : Type ℓ} {A : Type κ} {B : Type μ} → Result E A → (A → Result E B) → Result E B
ok x >>= next = next x
panic >>= next = panic
err failure >>= next = err failure

abbrev pub ◌>>◌ {ℓ κ μ} :
    {E : Type ℓ} {A : Type κ} {B : Type μ} → Result E A → Result E B → Result E B
first >> second = first >>= λ done. second

-- An early `return Err(e)` when the test holds.
abbrev pub fail_if {ℓ} : {E : Type ℓ} → Bool → E → Result E (Unit {0})
fail_if false failure = ok tt
fail_if true failure = err failure

-- `assert!`.
abbrev pub assert {ℓ} : {E : Type ℓ} → Bool → Result E (Unit {0})
assert true = ok tt
assert false = panic

-- `expect` and `unwrap`.
abbrev pub expect {ℓ κ μ} : {E : Type ℓ} {F : Type κ} {A : Type μ} → Result F A → Result E A
expect (ok a) = ok a
expect (err e) = panic
expect panic = panic

-- `Result::ok`; a panic is no value, and stays apart.
abbrev pub to_option {ℓ κ} : {E : Type ℓ} {A : Type κ} → Result E A → Option A
to_option (ok a) = some a
to_option (err e) = none
to_option panic = none

module _ {ℓ κ} {E : Type ℓ} {A : Type κ} where
  pub Result-cases :
      (r : Result E A) → ((a : A) × (r ≡ ok a)) ⊎ ((e : E) × (r ≡ err e)) ⊎ (r ≡ panic)
  Result-cases (ok a) = inl (a, refl)
  Result-cases (err e) = inr (inl (e, refl))
  Result-cases panic = inr (inr refl)

  pub >>=-assoc {μ ν} :
      {B : Type μ} {C : Type ν} (m : Result E A) (f : A → Result E B) (g : B → Result E C)
      → (m >>= f >>= g) ≡ (m >>= λ a. f a >>= g)
  >>=-assoc (ok a) f g = refl
  >>=-assoc (err e) f g = refl
  >>=-assoc panic f g = refl

  -- A chain that succeeds has a first part that succeeds.
  pub >>=-eq-ok {μ} :
      {B : Type μ} (first : Result E A) (next : A → Result E B) {out : B}
      → (first >>= next) ≡ ok out
      → (x : A) × (first ≡ ok x) × (next x ≡ ok out)
  >>=-eq-ok panic next done = cc
  >>=-eq-ok (ok x) next done = (x, refl, done)
  >>=-eq-ok (err failure) next done = cc
