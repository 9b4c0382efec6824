-- ===== src/Client/ServiceRegistry.antt =====
-- src/client/service_registry.rs over the index map as an interface; its capacity comes from the
-- environment of the build and is a parameter.
use simple_someip.Prelude.{
  ℕ, ◌≡◌, ◌⊎◌, refl, sym, ◌∙◌, Bool, true, false, Bool-cases, inl, inr, ◌||◌, ltb, is_some,
  if◌then◌else◌, Option, some, Result, ok, err,
}
use simple_someip.Prelude.Eq.{Eq}
use simple_someip.Maps.{IndexMap}
use simple_someip.NetEndpoint as NetEndpoint
use simple_someip.NetEndpoint.{NetEndpoint, SocketAddr}

pub record ServiceEndpointKey : Type 0 where
  pub service_id : ℕ
  pub endpoint : NetEndpoint

abbrev pub new : ℕ → NetEndpoint → ServiceEndpointKey
new service_id endpoint = record { service_id = service_id; endpoint = endpoint }

abbrev pub udp : ℕ → SocketAddr → ServiceEndpointKey
udp service_id addr = new service_id (NetEndpoint.udp addr)

pub record ServiceEndpointInfo : Type 0 where
  pub instance_id : ℕ
  pub local_port : ℕ
  pub major_version : ℕ
  pub minor_version : ℕ

pub data ServiceRegistryFull : Type 0 where
  full : ServiceRegistryFull

module _ (e : Eq ServiceEndpointKey) (cap : ℕ)
    (endpoints : IndexMap ServiceEndpointKey ServiceEndpointInfo e cap) where
  unfoldable pub insert :
      endpoints.M
      → ServiceEndpointKey
      → ServiceEndpointInfo
      → Result ServiceRegistryFull (Unit {0}) × endpoints.M
  insert reg key info =
      let (next, accepted) = endpoints.insert reg key info in
      ((if accepted then ok tt else err full), next)

  -- `swap_remove` gives the value that it takes out.
  unfoldable pub remove :
      endpoints.M → ServiceEndpointKey → Option ServiceEndpointInfo × endpoints.M
  remove reg key = (endpoints.get reg key, endpoints.remove reg key)

  unfoldable pub get : endpoints.M → ServiceEndpointKey → Option ServiceEndpointInfo
  get reg key = endpoints.get reg key

  -- What an insertion does: it is refused for a new key when no slot is free, and the registry is as
  -- it was; otherwise the key has the new value and every other key has what it had.
  abbrev pub Inserted : endpoints.M → ServiceEndpointKey → ServiceEndpointInfo → Type 0
  Inserted reg key info =
      ((is_some (get reg key) ≡ false)
        × (ltb (endpoints.len reg) cap ≡ false)
        × (insert reg key info ≡ (err full, reg)))
      ⊎ (((insert reg key info).0 ≡ ok tt)
          × ((other : ServiceEndpointKey)
              → get (insert reg key info).1 other
                ≡ (if e.beq key other then some info else get reg other)))

  pub insert-Inserted :
      (reg : endpoints.M) (key : ServiceEndpointKey) (info : ServiceEndpointInfo)
      → Inserted reg key info
  unfolding insert get
  insert-Inserted reg key info = elim (Bool-cases (endpoints.insert reg key info).1) [
    | inl accepted ↦
        inr (rw accepted refl, λ other. endpoints.get-insert reg key info other accepted)
    | inr refused ↦
        let both : is_some (endpoints.get reg key) || ltb (endpoints.len reg) cap ≡ false =
          sym (endpoints.insert-accepts reg key info) ∙ refused in
        let (absent, no_room) =
          or-false (is_some (endpoints.get reg key)) (ltb (endpoints.len reg) cap) both in
        inl (absent, no_room, rw (refused, endpoints.insert-full reg key info refused) refl)
  ]
    where
      or-false : (a b : Bool) → (a || b) ≡ false → (a ≡ false) × (b ≡ false)
      or-false true b h = absurd (cc h)
      or-false false b h = (refl, h)
