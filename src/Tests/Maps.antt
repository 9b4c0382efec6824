-- ===== src/Tests/Maps.antt =====
-- A map that satisfies the interface of the index map: an association list. Keys for the runs.
use simple_someip.Prelude.{
  ℕ, ◌≡◌, ◌↔◌, refl, sym, ap, ◌∙◌, arith, Bool, true, false, ◌||◌, ◌&&◌, Bool-cases, inl, inr, ltb,
  if◌then◌else◌, Option, none, some, is_some, List, [], ◌∷◌, map, length, ◌==◌,
}
use simple_someip.Prelude.Eq.{Eq}
use simple_someip.Maps.{IndexMap}
use simple_someip.Server.Subscriptions.{GroupKey}
use simple_someip.Client.Session.{SessionKey, TransportKind, multicast, unicast}
use simple_someip.E2e.Profile.{E2eKey}
use simple_someip.E2e.Registry.{RxKey}

module _ {K : Type 0} (e : Eq K) where
  same_test : (j k other : K) → e.beq j k ≡ true → e.beq j other ≡ e.beq k other
  same_test j k other p = ap (λ (x : K). e.beq x other) ((e.beq_iff j k).0 p)

  other_test : (j k other : K) → e.beq j k ≡ false → e.beq j other ≡ true → e.beq k other ≡ false
  other_test j k other p q = elim (Bool-cases (e.beq k other)) [
    | inl r ↦
        let back : e.beq j k ≡ true =
          (e.beq_iff j k).1 ((e.beq_iff j other).0 q ∙ sym ((e.beq_iff k other).0 r)) in
        absurd (ground (arith, back, p))
    | inr r ↦ r
  ]

module _ {K V : Type 0} (e : Eq K) where
  unfoldable pub lookup : List (K × V) → K → Option V
  lookup [] k = none
  lookup ((j, w) ∷ rest) k = if e.beq j k then some w else lookup rest k

  unfoldable pub put : List (K × V) → K → V → List (K × V)
  put [] k v = (k, v) ∷ []
  put ((j, w) ∷ rest) k v =
      let others = put rest k v in if e.beq j k then (k, v) ∷ rest else (j, w) ∷ others

  unfoldable pub delete : List (K × V) → K → List (K × V)
  delete [] k = []
  delete ((j, w) ∷ rest) k =
      let others = delete rest k in if e.beq j k then others else (j, w) ∷ others

  pub lookup-put :
      (m : List (K × V)) (k : K) (v : V) (other : K)
      → lookup (put m k v) other ≡ (if e.beq k other then some v else lookup m other)
  unfolding lookup put
  lookup-put [] k v other = refl
  lookup-put ((j, w) ∷ rest) k v other = elim (Bool-cases (e.beq j k)) [
    | inl p ↦ elim (Bool-cases (e.beq k other)) [
      | inl y ↦ rw (p, y) refl
      | inr n ↦ rw (p, n, same_test e j k other p ∙ n) refl
    ]
    | inr p ↦ elim (Bool-cases (e.beq j other)) [
      | inl y ↦ rw (p, y, other_test e j k other p y) refl
      | inr n ↦ rw (p, n) (lookup-put rest k v other)
    ]
  ]

  pub lookup-delete :
      (m : List (K × V)) (k other : K)
      → lookup (delete m k) other ≡ (if e.beq k other then none else lookup m other)
  unfolding lookup delete
  lookup-delete [] k other = elim (Bool-cases (e.beq k other)) [
    | inl y ↦ rw y refl
    | inr n ↦ rw n refl
  ]
  lookup-delete ((j, w) ∷ rest) k other = elim (Bool-cases (e.beq j k)) [
    | inl p ↦ elim (Bool-cases (e.beq k other)) [
      | inl y ↦ rw (p, y) (lookup-delete rest k other ∙ rw y refl)
      | inr n ↦ rw (p, n, same_test e j k other p ∙ n) (lookup-delete rest k other ∙ rw n refl)
    ]
    | inr p ↦ elim (Bool-cases (e.beq j other)) [
      | inl y ↦ rw (p, y, other_test e j k other p y) refl
      | inr n ↦ rw (p, n) (lookup-delete rest k other)
    ]
  ]

  unfoldable pub keep : List (K × V) → (K → Bool) → List (K × V)
  keep [] p = []
  keep ((j, w) ∷ rest) p = let others = keep rest p in if p j then (j, w) ∷ others else others

  pub lookup-keep :
      (m : List (K × V)) (p : K → Bool) (k : K)
      → lookup (keep m p) k ≡ (if p k then lookup m k else none)
  unfolding lookup keep
  lookup-keep [] p k = elim (Bool-cases (p k)) [ inl y ↦ rw y refl | inr n ↦ rw n refl ]
  lookup-keep ((j, w) ∷ rest) p k = elim (Bool-cases (e.beq j k)) [
    | inl y ↦
        let same : p j ≡ p k = ap p ((e.beq_iff j k).0 y) in
        elim (Bool-cases (p k)) [
          | inl z ↦ rw (same ∙ z, z, y) refl
          | inr z ↦ rw (same ∙ z, z) (lookup-keep rest p k ∙ rw z refl)
        ]
    | inr n ↦ elim (Bool-cases (p j)) [
      | inl z ↦ rw (z, n) (lookup-keep rest p k)
      | inr z ↦ rw (z, n) (lookup-keep rest p k)
    ]
  ]

  accepting : ℕ → List (K × V) → K → Bool
  accepting cap m k = is_some (lookup m k) || ltb (length m) cap

  unfoldable pub insert_at : ℕ → List (K × V) → K → V → List (K × V) × Bool
  unfolding accepting
  insert_at cap m k v = ((if accepting cap m k then put m k v else m), accepting cap m k)

  pub accept-put :
      (cap : ℕ) (m : List (K × V)) (k : K) (v : V) (other : K)
      → (insert_at cap m k v).1 ≡ true
      → lookup (insert_at cap m k v).0 other ≡ (if e.beq k other then some v else lookup m other)
  unfolding insert_at
  accept-put cap m k v other h = rw h (lookup-put m k v other)

  pub refuse-put :
      (cap : ℕ) (m : List (K × V)) (k : K) (v : V)
      → (insert_at cap m k v).1 ≡ false
      → (insert_at cap m k v).0 ≡ m
  unfolding insert_at
  refuse-put cap m k v h = rw h refl

  pub accept-eq :
      (cap : ℕ) (m : List (K × V)) (k : K) (v : V)
      → (insert_at cap m k v).1 ≡ is_some (lookup m k) || ltb (length m) cap
  unfolding insert_at accepting
  accept-eq cap m k v = refl

  pub lookup-nil : (k : K) → lookup [] k ≡ none
  unfolding lookup
  lookup-nil k = refl

abbrev pub list_map : (K V : Type 0) (e : Eq K) (cap : ℕ) → IndexMap K V e cap
list_map K V e cap = record {
  M = List (K × V);
  empty = [];
  get = lookup e;
  len = length;
  values = map (λ p. p.1);
  insert = insert_at e cap;
  write = put e;
  remove = delete e;
  retain = keep e;
  get-empty = lookup-nil e;
  len-empty = refl;
  insert-accepts = accept-eq e cap;
  insert-full = refuse-put e cap;
  get-insert = accept-put e cap;
  get-write = λ m k v other present. lookup-put e m k v other;
  get-remove = lookup-delete e;
  get-retain = lookup-keep e;
}

abbrev pub transport_beq : TransportKind → TransportKind → Bool
transport_beq multicast multicast = true
transport_beq unicast unicast = true
transport_beq _ _ = false

transport_beq_iff : (s t : TransportKind) → (transport_beq s t ≡ true) ↔ (s ≡ t)
transport_beq_iff multicast multicast = ground arith
transport_beq_iff multicast unicast = ground arith
transport_beq_iff unicast multicast = ground arith
transport_beq_iff unicast unicast = ground arith

abbrev pub group_beq : GroupKey → GroupKey → Bool
group_beq a b =
    a.service_id == b.service_id
    && (a.instance_id == b.instance_id && a.event_group_id == b.event_group_id)

pub group_beq_iff : (a b : GroupKey) → (group_beq a b ≡ true) ↔ (a ≡ b)
group_beq_iff a b = ground arith

abbrev pub session_beq : SessionKey ℕ → SessionKey ℕ → Bool
session_beq a b =
    a.sender == b.sender
    && (transport_beq a.transport b.transport
        && (a.service_id == b.service_id && a.instance_id == b.instance_id))

pub session_beq_iff : (a b : SessionKey ℕ) → (session_beq a b ≡ true) ↔ (a ≡ b)
session_beq_iff a b = ground (arith, transport_beq_iff a.transport b.transport)

abbrev pub group_eq : Eq GroupKey
group_eq = record { beq = group_beq; beq_iff = group_beq_iff }

abbrev pub session_eq : Eq (SessionKey ℕ)
session_eq = record { beq = session_beq; beq_iff = session_beq_iff }

abbrev pub key_beq : E2eKey → E2eKey → Bool
key_beq a b = a.service_id == b.service_id && a.method_or_event_id == b.method_or_event_id

pub key_beq_iff : (a b : E2eKey) → (key_beq a b ≡ true) ↔ (a ≡ b)
key_beq_iff a b = ground arith

abbrev pub key_eq : Eq E2eKey
key_eq = record { beq = key_beq; beq_iff = key_beq_iff }

abbrev pub rx_beq : RxKey ℕ → RxKey ℕ → Bool
rx_beq a b = a.source == b.source && key_beq a.key b.key

pub rx_beq_iff : (a b : RxKey ℕ) → (rx_beq a b ≡ true) ↔ (a ≡ b)
rx_beq_iff a b = ground arith

abbrev pub rx_eq : Eq (RxKey ℕ)
rx_eq = record { beq = rx_beq; beq_iff = rx_beq_iff }
