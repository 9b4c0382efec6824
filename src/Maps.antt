-- ===== src/Maps.antt =====
-- The interface of `heapless::index_map::FnvIndexMap` with `cap` slots, as far as it is used: a
-- parameter of the components that keep one.
use simple_someip.Prelude.{
  ℕ, ◌≡◌, Bool, true, false, ◌||◌, Option, none, some, is_some, ltb, if◌then◌else◌, List,
}
use simple_someip.Prelude.Eq.{Eq}

-- `insert` gives the map after it and whether it returned `Ok`: it replaces the value of a key that
-- is there, takes a free slot for a new key, and leaves a full map alone.
pub record IndexMap (K V : Type 0) (e : Eq K) (cap : ℕ) : Type 1 where
  pub M : Type 0
  pub empty : M
  pub get : M → K → Option V
  pub len : M → ℕ
  -- The values in the order of the iterator.
  pub values : M → List V
  pub insert : M → K → V → M × Bool
  -- Writing through the reference that `get_mut` gives for a key that is there.
  pub write : M → K → V → M
  pub remove : M → K → M
  -- `retain` with a test of the key.
  pub retain : M → (K → Bool) → M
  pub get-empty : (k : K) → get empty k ≡ none
  pub len-empty : len empty ≡ 0
  pub insert-accepts :
      (m : M) (k : K) (v : V) → (insert m k v).1 ≡ is_some (get m k) || ltb (len m) cap
  pub insert-full : (m : M) (k : K) (v : V) → (insert m k v).1 ≡ false → (insert m k v).0 ≡ m
  pub get-insert :
      (m : M) (k : K) (v : V) (other : K)
      → (insert m k v).1 ≡ true
      → get (insert m k v).0 other ≡ (if e.beq k other then some v else get m other)
  pub get-write :
      (m : M) (k : K) (v : V) (other : K)
      → is_some (get m k) ≡ true
      → get (write m k v) other ≡ (if e.beq k other then some v else get m other)
  pub get-remove :
      (m : M) (k other : K) → get (remove m k) other ≡ (if e.beq k other then none else get m other)
  pub get-retain :
      (m : M) (p : K → Bool) (k : K) → get (retain m p) k ≡ (if p k then get m k else none)
