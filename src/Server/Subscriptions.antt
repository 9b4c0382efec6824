-- ===== src/Server/Subscriptions.antt =====
-- `SubscriptionManager` of src/server/subscription_manager.rs: for each event group the list of its
-- subscribers. A `HeaplessVec` with `subscribers_per_group` slots is a list, and a push on a full one
-- fails. The capacities come from the environment of the build and are parameters. Logging is left
-- out.
use simple_someip.Prelude.{
  ℕ, ◌+◌, map, ◌≤◌, ◌≡◌, refl, sym, ap, ◌∙◌, arith, Bool, true, false, ◌||◌, Bool-cases, inl, inr,
  ltb, if◌then◌else◌, Option, none, some, List, [], ◌∷◌, ◌++◌, length, Result, ok, err,
}
use simple_someip.Prelude.Eq.{Eq, beq_refl}
use simple_someip.Maps.{IndexMap}

pub record GroupKey : Type 0 where
  pub service_id : ℕ
  pub instance_id : ℕ
  pub event_group_id : ℕ

pub record Subscriber (Addr : Type 0) : Type 0 where
  pub address : Addr
  pub service_id : ℕ
  pub instance_id : ℕ
  pub event_group_id : ℕ

pub data SubscribeError : Type 0 where
  subscribers_per_group_full event_groups_full : SubscribeError

module _ {Addr : Type 0} (a : Eq Addr) where
  unfoldable pub any_address : List (Subscriber Addr) → Addr → Bool
  any_address [] addr = false
  any_address (s ∷ ss) addr = a.beq s.address addr || any_address ss addr

  -- `retain(|s| s.address != subscriber_addr)`.
  unfoldable pub retain_others : List (Subscriber Addr) → Addr → List (Subscriber Addr)
  retain_others [] addr = []
  retain_others (s ∷ ss) addr =
      let rest = retain_others ss addr in if a.beq s.address addr then rest else s ∷ rest

abbrev pub new_subscriber : {Addr : Type 0} → Addr → GroupKey → Subscriber Addr
new_subscriber addr key = record {
  address = addr;
  service_id = key.service_id;
  instance_id = key.instance_id;
  event_group_id = key.event_group_id;
}

abbrev pub sum : List ℕ → ℕ
sum [] = 0
sum (n ∷ ns) = n + sum ns

abbrev pub is_empty : {A : Type 0} → List A → Bool
is_empty [] = true
is_empty (x ∷ xs) = false

module _ {Addr : Type 0} (a : Eq Addr) (e : Eq GroupKey) (groups_cap subscribers_per_group : ℕ)
    (maps : IndexMap GroupKey (List (Subscriber Addr)) e groups_cap) where
  open maps use {M, get, insert, write, remove}

  -- The result of the call and the map after it.
  unfoldable pub subscribe_to :
      Option (List (Subscriber Addr)) → M → GroupKey → Addr → Result SubscribeError (Unit {0}) × M
  subscribe_to (some subscribers) m key addr =
      if any_address a subscribers addr
      then (ok tt, m)
      else if ltb (length subscribers) subscribers_per_group
      then (ok tt, write m key (subscribers ++ (new_subscriber addr key ∷ [])))
      else (err subscribers_per_group_full, m)
  subscribe_to none m key addr =
      let (next, accepted) = insert m key (new_subscriber addr key ∷ []) in
      if accepted then (ok tt, next) else (err event_groups_full, next)

  unfoldable pub subscribe : M → GroupKey → Addr → Result SubscribeError (Unit {0}) × M
  subscribe m key addr = subscribe_to (get m key) m key addr

  unfoldable pub unsubscribe_from : Option (List (Subscriber Addr)) → M → GroupKey → Addr → M
  unsubscribe_from none m key addr = m
  unsubscribe_from (some subscribers) m key addr =
      let kept = retain_others a subscribers addr in
      let next = write m key kept in if is_empty kept then remove next key else next

  unfoldable pub unsubscribe : M → GroupKey → Addr → M
  unsubscribe m key addr = unsubscribe_from (get m key) m key addr

  -- `unwrap_or_default` of the copied list.
  unfoldable pub listed : Option (List (Subscriber Addr)) → List (Subscriber Addr)
  listed none = []
  listed (some subscribers) = subscribers

  unfoldable pub get_subscribers : M → GroupKey → List (Subscriber Addr)
  get_subscribers m key = listed (get m key)

  -- The sum over the lists.
  unfoldable pub subscription_count : M → ℕ
  subscription_count m = sum (map length (maps.values m))

  -- The list of a group after one more subscription.
  abbrev pub added : List (Subscriber Addr) → GroupKey → Addr → List (Subscriber Addr)
  added subscribers key addr =
      if any_address a subscribers addr
      then subscribers
      else subscribers ++ (new_subscriber addr key ∷ [])

  -- Rewriting the list of a group to itself.
  same_group :
      (m : M) (key other : GroupKey)
      → (if e.beq key other then listed (get m key) else listed (get m other))
        ≡ listed (get m other)
  same_group m key other = elim (Bool-cases (e.beq key other)) [
    | inl same ↦ rw same (ap (λ (k : GroupKey). listed (get m k)) ((e.beq_iff key other).0 same))
    | inr apart ↦ rw apart refl
  ]

  listed-if :
      (b : Bool) (found other : Option (List (Subscriber Addr)))
      → listed (if b then found else other) ≡ (if b then listed found else listed other)
  listed-if true found other = refl
  listed-if false found other = refl

  accepted_of :
      (o : Option (List (Subscriber Addr))) (m : M) (key : GroupKey) (addr : Addr)
      (other : GroupKey)
      → get m key ≡ o
      → (subscribe_to o m key addr).0 ≡ ok tt
      → listed (get (subscribe_to o m key addr).1 other)
        ≡ (if e.beq key other then added (listed o) key addr else listed (get m other))
  unfolding subscribe_to listed
  accepted_of none m key addr other g h =
      let accepts : (insert m key (new_subscriber addr key ∷ [])).1 ≡ true = ground (arith, h) in
      rw (accepts, maps.get-insert m key _ other accepts)
        (listed-if (e.beq key other) _ _ ∙ unfold any_address in refl)
  accepted_of (some subscribers) m key addr other g h =
      elim (Bool-cases (any_address a subscribers addr)) [
        | inl there ↦ rw there (sym (same_group m key other) ∙ rw g refl)
        | inr new ↦ elim (Bool-cases (ltb (length subscribers) subscribers_per_group)) [
          | inl free ↦
              rw (new, free, maps.get-write m key _ other (rw g refl))
                (listed-if (e.beq key other) _ _)
          | inr full ↦ absurd (ground (arith, new, full, h))
        ]
      ]

  -- Why a subscription is refused.
  abbrev pub Refused : M → GroupKey → Addr → SubscribeError → Type 0
  Refused m key addr subscribers_per_group_full =
      (subscribers_per_group ≤ length (listed (get m key)))
      × (any_address a (listed (get m key)) addr ≡ false)
  Refused m key addr event_groups_full = (groups_cap ≤ maps.len m) × (get m key ≡ none)

  subscribe_to-Refused :
      (o : Option (List (Subscriber Addr))) (m : M) (key : GroupKey) (addr : Addr)
      (reason : SubscribeError)
      → get m key ≡ o
      → (subscribe_to o m key addr).0 ≡ err reason
      → ((subscribe_to o m key addr).1 ≡ m) × Refused m key addr reason
  unfolding subscribe_to listed
  subscribe_to-Refused none m key addr event_groups_full g h =
      let refuses : (insert m key (new_subscriber addr key ∷ [])).1 ≡ false = ground (arith, h) in
      let full : ltb (maps.len m) groups_cap ≡ false =
        rw g at (sym (maps.insert-accepts m key (new_subscriber addr key ∷ [])) ∙ refuses) in
      (rw refuses (maps.insert-full m key _ refuses), (ground (arith, full), g))
  subscribe_to-Refused none m key addr subscribers_per_group_full g h = absurd (ground (arith, h))
  subscribe_to-Refused (some subscribers) m key addr event_groups_full g h =
      absurd (ground (arith, h))
  subscribe_to-Refused (some subscribers) m key addr subscribers_per_group_full g h =
      (ground (arith, h), rw g (ground (arith, h)))

  -- A subscription that is accepted adds the subscriber behind those of its group, unless its
  -- address is there, and leaves every other group alone.
  pub subscribe-accepted :
      (m : M) (key : GroupKey) (addr : Addr) (other : GroupKey)
      → (subscribe m key addr).0 ≡ ok tt
      → get_subscribers (subscribe m key addr).1 other ≡ (
          if e.beq key other
          then added (get_subscribers m key) key addr
          else get_subscribers m other)
  unfolding subscribe get_subscribers
  subscribe-accepted m key addr other h = accepted_of (get m key) m key addr other refl h

  -- A subscription that is refused changes nothing; either the group is full and does not have the
  -- address, or the group is new and there is no free slot for it.
  pub subscribe-Refused :
      (m : M) (key : GroupKey) (addr : Addr) (reason : SubscribeError)
      → (subscribe m key addr).0 ≡ err reason
      → ((subscribe m key addr).1 ≡ m) × Refused m key addr reason
  unfolding subscribe
  subscribe-Refused m key addr reason h = subscribe_to-Refused (get m key) m key addr reason refl h

  retained-any :
      (ss : List (Subscriber Addr)) (addr : Addr)
      → any_address a (retain_others a ss addr) addr ≡ false
  unfolding any_address retain_others
  retained-any [] addr = refl
  retained-any (s ∷ ss) addr = elim (Bool-cases (a.beq s.address addr)) [
    | inl same ↦ rw same (retained-any ss addr)
    | inr apart ↦ rw (apart, apart) (retained-any ss addr)
  ]

  unsubscribed_of :
      (o : Option (List (Subscriber Addr))) (m : M) (key : GroupKey) (addr : Addr)
      (other : GroupKey)
      → get m key ≡ o
      → listed (get (unsubscribe_from o m key addr) other)
        ≡ (if e.beq key other then retain_others a (listed o) addr else listed (get m other))
  unfolding unsubscribe_from listed
  unsubscribed_of none m key addr other g =
      sym (same_group m key other) ∙ rw g (unfold retain_others in refl)
  unsubscribed_of (some subscribers) m key addr other g =
      removed_of (retain_others a subscribers addr) refl
    where
      removed_of :
          (kept : List (Subscriber Addr))
          → retain_others a subscribers addr ≡ kept
          → listed (
              get (if is_empty kept then remove (write m key kept) key else write m key kept) other)
            ≡ (if e.beq key other then kept else listed (get m other))
      removed_of [] r =
          rw (maps.get-remove (write m key []) key other, maps.get-write m key [] other (rw g refl))
            (elim (Bool-cases (e.beq key other)) [
              | inl same ↦ rw same refl
              | inr apart ↦ rw apart refl
            ])
      removed_of (s ∷ ss) r =
          rw (maps.get-write m key (s ∷ ss) other (rw g refl)) (listed-if (e.beq key other) _ _)

  -- Unsubscribing takes the subscribers with the given address out of the group, keeps the others in
  -- order, and leaves every other group alone; the address is then no longer in the group.
  pub unsubscribe-subscribers :
      (m : M) (key : GroupKey) (addr : Addr) (other : GroupKey)
      → (get_subscribers (unsubscribe m key addr) other ≡ (
          if e.beq key other
          then retain_others a (get_subscribers m key) addr
          else get_subscribers m other))
        × (any_address a (get_subscribers (unsubscribe m key addr) key) addr ≡ false)
  unfolding unsubscribe get_subscribers
  unsubscribe-subscribers m key addr other = (
    unsubscribed_of (get m key) m key addr other refl,
    rw (unsubscribed_of (get m key) m key addr key refl, beq_refl e key)
        (retained-any (listed (get m key)) addr),
  )
