-- ===== src/E2e/Registry/Matched.antt =====
-- What holds of every registry that the operations of src/e2e/registry.rs reach: the states of a key
-- are of the kind of its profile.
use simple_someip.Prelude.{
  ℕ, ◌≡◌, ◌≢◌, refl, sym, ap, subst, ◌∙◌, arith, true, false, not, Bool-cases, inl, inr, Option,
  none, some, is_some, if◌then◌else◌, List, Result-cases, >>=-eq-ok, ok, panic,
}
use simple_someip.Prelude.Eq.{Eq, beq_refl}
use simple_someip.Maps.{IndexMap}
use simple_someip.E2e.{E2eCheckStatus}
use simple_someip.E2e.Profile.{
  E2eProfile, E2eState, E2eKey, Crcs, from_profile, e2e_check, e2e_protect, IsStateOf,
  from_profile-IsStateOf, e2e_protect-ne-panic, e2e_protect-IsStateOf, e2e_check-IsStateOf,
}
use simple_someip.E2e.Registry.{
  registry_cap, rx_state_cap, RxKey, E2eRegistry, new, without_key, register, unregister,
  reset_source, check, check_as, protect, protect_as,
}

module _ {Ip : Type 0} (ip : Eq Ip) (ke : Eq E2eKey) (re : Eq (RxKey Ip))
    (profiles : IndexMap E2eKey E2eProfile ke registry_cap)
    (senders : IndexMap E2eKey E2eState ke registry_cap)
    (receivers : IndexMap (RxKey Ip) E2eState re rx_state_cap) where
  -- Every state belongs to a key with a profile and is of the kind that this profile needs.
  pub record IsMatched (reg : E2eRegistry ip ke re profiles senders receivers) : Type 0 where
    pub tx_matched :
        (key : E2eKey) (st : E2eState)
        → senders.get reg.tx_states key ≡ some st
        → (p : E2eProfile) × (profiles.get reg.configs key ≡ some p) × IsStateOf p st
    pub rx_matched :
        (r : RxKey Ip) (st : E2eState)
        → receivers.get reg.rx_states r ≡ some st
        → (p : E2eProfile) × (profiles.get reg.configs r.key ≡ some p) × IsStateOf p st

  new-IsMatched : IsMatched (new ip ke re profiles senders receivers)
  new-IsMatched = record {
    tx_matched = λ key st h. absurd (ground (arith, senders.get-empty key, h));
    rx_matched = λ r st h. absurd (ground (arith, receivers.get-empty r, h));
  }

  -- What is left of the receivers' states belongs to other keys.
  without_key-get :
      (rx : receivers.M) (key : E2eKey) (r : RxKey Ip) (st : E2eState)
      → receivers.get (without_key ip ke re profiles senders receivers rx key) r ≡ some st
      → (ke.beq r.key key ≡ false) × (receivers.get rx r ≡ some st)
  without_key-get rx key r st h =
      ground (arith, receivers.get-retain rx (λ x. not (ke.beq x.key key)) r, h)

  beq_false_sym : (j k : E2eKey) → ke.beq j k ≡ false → ke.beq k j ≡ false
  beq_false_sym j k h = elim (Bool-cases (ke.beq k j)) [
    | inl y ↦ absurd (ground (arith, h, (ke.beq_iff j k).1 (sym ((ke.beq_iff k j).0 y))))
    | inr n ↦ n
  ]

  unregister-IsMatched :
      (reg : E2eRegistry ip ke re profiles senders receivers) (key : E2eKey)
      → IsMatched reg
      → IsMatched (unregister ip ke re profiles senders receivers reg key)
  unfolding unregister
  unregister-IsMatched reg key v = record {
    tx_matched = λ k st h.
        let (apart, old) : (ke.beq key k ≡ false) × (senders.get reg.tx_states k ≡ some st) =
          ground (arith, senders.get-remove reg.tx_states key k, h) in
        let (p, found, kind) = v.tx_matched k st old in
        (p, profiles.get-remove reg.configs key k ∙ rw apart found, kind);
    rx_matched = λ r st h.
        let (apart, old) = without_key-get reg.rx_states key r st h in
        let (p, found, kind) = v.rx_matched r st old in
        (
          p,
          profiles.get-remove reg.configs key r.key ∙ rw (beq_false_sym r.key key apart) found,
          kind,
        );
  }

  reset_source-IsMatched :
      (reg : E2eRegistry ip ke re profiles senders receivers) (source : Ip)
      → IsMatched reg
      → IsMatched (reset_source ip ke re profiles senders receivers reg source)
  unfolding reset_source
  reset_source-IsMatched reg source v = record {
    tx_matched = v.tx_matched;
    rx_matched = λ r st h. v.rx_matched r st (
        ground
          (arith, receivers.get-retain reg.rx_states (λ x. not (ip.beq x.source source)) r, h));
  }

  module _ (reg : E2eRegistry ip ke re profiles senders receivers) (key : E2eKey)
      (profile : E2eProfile) (v : IsMatched reg)
      (room : (profiles.insert reg.configs key profile).1 ≡ true) where
    abbrev registered : profiles.M
    registered = (profiles.insert reg.configs key profile).0

    abbrev fresh : E2eState
    fresh = from_profile profile

    -- The profile of another key is found after a registration as before.
    other_profile :
        (k : E2eKey) → ke.beq key k ≡ false → profiles.get registered k ≡ profiles.get reg.configs k
    other_profile k apart = profiles.get-insert reg.configs key profile k room ∙ rw apart refl

    old_tx :
        (k : E2eKey) (st : E2eState)
        → ke.beq key k ≡ false
        → senders.get reg.tx_states k ≡ some st
        → (p : E2eProfile) × (profiles.get registered k ≡ some p) × IsStateOf p st
    old_tx k st apart h =
        let (p, found, kind) = v.tx_matched k st h in (p, other_profile k apart ∙ found, kind)

    new_tx :
        (k : E2eKey) (st : E2eState)
        → ke.beq key k ≡ true
        → fresh ≡ st
        → (p : E2eProfile) × (profiles.get registered k ≡ some p) × IsStateOf p st
    new_tx k st same e = (
      profile,
      profiles.get-insert reg.configs key profile k room ∙ rw same refl,
      subst (IsStateOf profile) e (from_profile-IsStateOf profile),
    )

    registered_tx :
        (k : E2eKey) (st : E2eState)
        → senders.get (senders.insert reg.tx_states key fresh).0 k ≡ some st
        → (p : E2eProfile) × (profiles.get registered k ≡ some p) × IsStateOf p st
    registered_tx k st h = elim (Bool-cases (senders.insert reg.tx_states key fresh).1) [
      | inl taken ↦
          let found = sym (senders.get-insert reg.tx_states key fresh k taken) ∙ h in
          elim (Bool-cases (ke.beq key k)) [
            | inl same ↦ new_tx k st same (ground (arith, found, same))
            | inr apart ↦ old_tx k st apart (ground (arith, found, apart))
          ]
      | inr refused ↦
          let kept : senders.get reg.tx_states k ≡ some st =
            rw (senders.insert-full reg.tx_states key fresh refused) at h in
          elim (Bool-cases (ke.beq key k)) [
            | inl same ↦
                let here : senders.get reg.tx_states key ≡ some st =
                  rw ((ke.beq_iff key k).0 same) kept in
                absurd
                  (ground (arith, here, senders.insert-accepts reg.tx_states key fresh, refused))
            | inr apart ↦ old_tx k st apart kept
          ]
    ]

    registered_rx :
        (r : RxKey Ip) (st : E2eState)
        → receivers.get (without_key ip ke re profiles senders receivers reg.rx_states key) r
          ≡ some st
        → (p : E2eProfile) × (profiles.get registered r.key ≡ some p) × IsStateOf p st
    registered_rx r st h =
        let (apart, old) = without_key-get reg.rx_states key r st h in
        let (p, found, kind) = v.rx_matched r st old in
        (p, other_profile r.key (beq_false_sym r.key key apart) ∙ found, kind)

  register-IsMatched :
      (reg : E2eRegistry ip ke re profiles senders receivers) (key : E2eKey) (profile : E2eProfile)
      → IsMatched reg
      → IsMatched (register ip ke re profiles senders receivers reg key profile).1
  unfolding register
  register-IsMatched reg key profile v =
      elim (Bool-cases (profiles.insert reg.configs key profile).1) [
        | inr no_room ↦ rw (no_room, profiles.insert-full reg.configs key profile no_room) v
        | inl yes_room ↦ rw yes_room (record {
          tx_matched = registered_tx reg key profile v yes_room;
          rx_matched = registered_rx reg key profile v yes_room;
        })
      ]

  -- A sender's state written back.
  write-IsMatched :
      (reg : E2eRegistry ip ke re profiles senders receivers) (key : E2eKey) (profile : E2eProfile)
      (old next : E2eState)
      → profiles.get reg.configs key ≡ some profile
      → senders.get reg.tx_states key ≡ some old
      → IsStateOf profile next
      → IsMatched reg
      → IsMatched (record reg { tx_states = senders.write reg.tx_states key next })
  write-IsMatched reg key profile old next config held kind v = record {
    tx_matched = λ k st h.
        let found = sym (senders.get-write reg.tx_states key next k (rw held refl)) ∙ h in
        elim (Bool-cases (ke.beq key k)) [
          | inl same ↦
              let e : next ≡ st = ground (arith, found, same) in
              (
                profile,
                ap (λ (j : E2eKey). profiles.get reg.configs j) (sym ((ke.beq_iff key k).0 same))
                    ∙ config,
                subst (IsStateOf profile) e kind,
              )
          | inr apart ↦ v.tx_matched k st (ground (arith, found, apart))
        ];
    rx_matched = v.rx_matched;
  }

  -- In a registry whose states match, protecting never reaches the arm that is unreachable, and
  -- the registry after it is matched again.
  protect_as-IsMatched :
      (config : Option E2eProfile) (held : Option E2eState) (crcs : Crcs)
      (reg : E2eRegistry ip ke re profiles senders receivers) (key : E2eKey)
      → (payload upper_header output : List ℕ) → profiles.get reg.configs key ≡ config
      → senders.get reg.tx_states key ≡ held
      → IsMatched reg
      → (protect_as ip ke re profiles senders receivers config held crcs reg key payload
            upper_header output
          ≢ some panic)
        × ((n : ℕ) (next : E2eRegistry ip ke re profiles senders receivers) (written : List ℕ)
            → protect_as ip ke re profiles senders receivers config held crcs reg key payload
                upper_header output
              ≡ some (ok (n, next, written))
            → IsMatched next)
  unfolding protect_as
  protect_as-IsMatched none held crcs reg key payload upper_header output c t v =
      (λ h. ground (arith, h), λ n next written h. absurd (ground (arith, h)))
  protect_as-IsMatched (some profile) none crcs reg key payload upper_header output c t v =
      (λ h. ground (arith, h), λ n next written h. absurd (ground (arith, h)))
  protect_as-IsMatched (some profile) (some state) crcs reg key payload upper_header output c t v =
      let (p, found, kind) = v.tx_matched key state t in
      let same : p ≡ profile = ground (arith, found, c) in
      let fits : IsStateOf profile state =
        subst (λ (q : E2eProfile). IsStateOf q state) same kind in
      (
        λ h.
            ground
              (arith, h, e2e_protect-ne-panic crcs profile state payload upper_header output fits),
        λ n next written h.
            elim (Result-cases (e2e_protect crcs profile state payload upper_header output)) [
              | inl ((m, st, out), e) ↦
                  let same_next : next
                      ≡ record reg { tx_states = senders.write reg.tx_states key st } =
                    ground (arith, h, e) in
                  let kept =
                    e2e_protect-IsStateOf crcs profile state st payload upper_header output out m
                      fits e in
                  subst IsMatched (sym same_next)
                    (write-IsMatched reg key profile state st c t kept v)
              | inr (inl (x, e)) ↦ absurd (ground (arith, h, e))
              | inr (inr e) ↦ absurd (ground (arith, h, e))
            ],
      )

  -- A receiver's state stored under its source and key.
  stored-IsMatched :
      (reg : E2eRegistry ip ke re profiles senders receivers) (rx : receivers.M) (r : RxKey Ip)
      (profile : E2eProfile) (next : E2eState)
      → ((other : RxKey Ip)
          → receivers.get rx other
            ≡ (if re.beq r other then some next else receivers.get reg.rx_states other))
      → profiles.get reg.configs r.key ≡ some profile
      → IsStateOf profile next
      → IsMatched reg
      → IsMatched (record reg { rx_states = rx })
  stored-IsMatched reg rx r profile next law config kind v = record {
    tx_matched = v.tx_matched;
    rx_matched = λ other st h.
        let found = sym (law other) ∙ h in
        elim (Bool-cases (re.beq r other)) [
          | inl same ↦
              let e : next ≡ st = ground (arith, found, same) in
              (
                profile,
                ap (λ (x : RxKey Ip). profiles.get reg.configs x.key)
                      (sym ((re.beq_iff r other).0 same))
                    ∙ config,
                subst (IsStateOf profile) e kind,
              )
          | inr apart ↦ v.rx_matched other st (ground (arith, found, apart))
        ];
  }

  inserted-law :
      (rx : receivers.M) (r : RxKey Ip) (fresh next : E2eState)
      → (receivers.insert rx r fresh).1 ≡ true
      → (other : RxKey Ip)
      → receivers.get (receivers.write (receivers.insert rx r fresh).0 r next) other
        ≡ (if re.beq r other then some next else receivers.get rx other)
  inserted-law rx r fresh next taken other =
      let here : is_some (receivers.get (receivers.insert rx r fresh).0 r) ≡ true =
        rw (receivers.get-insert rx r fresh r taken, beq_refl re r) refl in
      receivers.get-write (receivers.insert rx r fresh).0 r next other here
      ∙ elim (Bool-cases (re.beq r other)) [
        | inl same ↦ rw same refl
        | inr apart ↦ rw apart (receivers.get-insert rx r fresh other taken ∙ rw apart refl)
      ]

  check_as-IsMatched :
      (config : Option E2eProfile) (held : Option E2eState) (crcs : Crcs)
      (reg : E2eRegistry ip ke re profiles senders receivers) (r : RxKey Ip)
      → (payload upper_header : List ℕ) (found : Option (E2eCheckStatus × List ℕ))
        (next : E2eRegistry ip ke re profiles senders receivers)
      → profiles.get reg.configs r.key ≡ config
      → receivers.get reg.rx_states r ≡ held
      → IsMatched reg
      → check_as ip ke re profiles senders receivers config held crcs reg r payload upper_header
        ≡ ok (found, next)
      → IsMatched next
  unfolding check_as
  check_as-IsMatched none held crcs reg r payload upper_header found next c t v h =
      let same : next ≡ reg = ground (arith, h) in subst IsMatched (sym same) v
  check_as-IsMatched (some profile) (some state) crcs reg r payload upper_header found next c t v
        h =
      let (p, config, kind) = v.rx_matched r state t in
      let same : p ≡ profile = ground (arith, config, c) in
      let fits : IsStateOf profile state =
        subst (λ (q : E2eProfile). IsStateOf q state) same kind in
      let ((seen, st), e, last) =
        >>=-eq-ok (e2e_check crcs profile state payload upper_header) _ h in
      let after : next ≡ record reg { rx_states = receivers.write reg.rx_states r st } =
        ground (arith, last) in
      let kept = e2e_check-IsStateOf crcs profile state st payload upper_header seen fits e in
      subst IsMatched (sym after) (
        stored-IsMatched reg _ r profile st
          (λ other. receivers.get-write reg.rx_states r st other (rw t refl)) c kept v)
  check_as-IsMatched (some profile) none crcs reg r payload upper_header found next c t v h =
      let fresh = from_profile profile in
      let ((seen, st), e, last) =
        >>=-eq-ok (e2e_check crcs profile fresh payload upper_header) _ h in
      let kept =
        e2e_check-IsStateOf crcs profile fresh st payload upper_header seen
          (from_profile-IsStateOf profile) e in
      elim (Bool-cases (receivers.insert reg.rx_states r fresh).1) [
        | inl taken ↦
            let after : next ≡ record reg {
              rx_states = receivers.write (receivers.insert reg.rx_states r fresh).0 r st;
            } =
              ground (arith, last, taken) in
            subst IsMatched (sym after) (
              stored-IsMatched reg _ r profile st (inserted-law reg.rx_states r fresh st taken) c
                kept v)
        | inr refused ↦
            let after : next ≡ record reg { rx_saturation_warned = true } =
              ground (arith, last, refused, receivers.insert-full reg.rx_states r fresh) in
            subst IsMatched (sym after)
              (record { tx_matched = v.tx_matched; rx_matched = v.rx_matched })
      ]

  -- The registries that the public operations reach from an empty one. An error of `protect` leaves
  -- the registry alone.
  pub data Reach : E2eRegistry ip ke re profiles senders receivers → Type 1 where
    starts : Reach (new ip ke re profiles senders receivers)
    registers :
        {reg : E2eRegistry ip ke re profiles senders receivers} (key : E2eKey)
        (profile : E2eProfile)
        → Reach reg
        → Reach (register ip ke re profiles senders receivers reg key profile).1
    unregisters :
        {reg : E2eRegistry ip ke re profiles senders receivers} (key : E2eKey)
        → Reach reg
        → Reach (unregister ip ke re profiles senders receivers reg key)
    resets :
        {reg : E2eRegistry ip ke re profiles senders receivers} (source : Ip)
        → Reach reg
        → Reach (reset_source ip ke re profiles senders receivers reg source)
    checks :
        {reg next : E2eRegistry ip ke re profiles senders receivers} (crcs : Crcs) (source : Ip)
        (key : E2eKey) (payload upper_header : List ℕ)
        → (found : Option (E2eCheckStatus × List ℕ))
        → check ip ke re profiles senders receivers crcs reg source key payload upper_header
          ≡ ok (found, next)
        → Reach reg
        → Reach next
    protects :
        {reg next : E2eRegistry ip ke re profiles senders receivers} (crcs : Crcs) (key : E2eKey)
        (payload upper_header output written : List ℕ)
        → (n : ℕ)
        → protect ip ke re profiles senders receivers crcs reg key payload upper_header output
          ≡ some (ok (n, next, written))
        → Reach reg
        → Reach next

  -- In every registry that is reached, each state belongs to a registered key and is of the kind of
  -- its profile.
  pub Reach-IsMatched :
      (reg : E2eRegistry ip ke re profiles senders receivers) → Reach reg → IsMatched reg
  unfolding check protect
  Reach-IsMatched _ starts = new-IsMatched
  Reach-IsMatched _ (registers key profile before) =
      register-IsMatched _ key profile (Reach-IsMatched _ before)
  Reach-IsMatched _ (unregisters key before) = unregister-IsMatched _ key (Reach-IsMatched _ before)
  Reach-IsMatched _ (resets source before) =
      reset_source-IsMatched _ source (Reach-IsMatched _ before)
  Reach-IsMatched next (checks {reg} crcs source key payload upper_header found h before) =
      check_as-IsMatched _ _ crcs reg (record { source = source; key = key }) payload upper_header
        found next refl refl (Reach-IsMatched reg before) h
  Reach-IsMatched next (protects {reg} crcs key payload upper_header output written n h before) =
      (protect_as-IsMatched _ _ crcs reg key payload upper_header output refl refl
          (Reach-IsMatched reg before)).1
        n next written h

  -- Whatever operations led to a registry, protecting a payload in it never panics: the arm for a
  -- state of another kind than its profile, which the source calls unreachable, is.
  pub protect-ne-panic :
      (reg : E2eRegistry ip ke re profiles senders receivers) (crcs : Crcs) (key : E2eKey)
      (payload upper_header output : List ℕ)
      → Reach reg
      → protect ip ke re profiles senders receivers crcs reg key payload upper_header output
        ≢ some panic
  unfolding protect
  protect-ne-panic reg crcs key payload upper_header output reached =
      (protect_as-IsMatched _ _ crcs reg key payload upper_header output refl refl
        (Reach-IsMatched reg reached)).0
