-- ===== src/Server/Config.antt =====
-- `ServerConfig` of src/server/mod.rs. The two capacities come from the environment of the build and
-- are parameters; a `heapless::Vec` is the list of its elements.
use simple_someip.Prelude.{
  ℕ, Bool, true, false, ◌&&◌, ◌||◌, List, [], ◌∷◌, ◌++◌, length, ltb, leb, ◌==◌, if◌then◌else◌,
  Option, none, some, Result, ok, err, expect,
}

pub record AcceptedOffer : Type 0 where
  pub service_id : ℕ
  pub instance_id : ℕ
  pub major_version : ℕ
  pub event_group_id : ℕ

pub record ServerConfig : Type 0 where
  pub interface : ℕ
  pub local_port : ℕ
  pub service_id : ℕ
  pub instance_id : ℕ
  pub major_version : ℕ
  pub minor_version : ℕ
  pub ttl : ℕ
  pub event_group_ids : List ℕ
  pub announce : Bool
  pub accepted_offers : List AcceptedOffer

unfoldable pub new : ℕ → ℕ → ServerConfig
new service_id instance_id = record {
  interface = 0;
  local_port = 0;
  service_id = service_id;
  instance_id = instance_id;
  major_version = 1;
  minor_version = 0;
  ttl = 3;
  event_group_ids = [];
  announce = true;
  accepted_offers = [];
}

unfoldable pub contains : List ℕ → ℕ → Bool
contains [] id = false
contains (x ∷ xs) id = x == id || contains xs id

abbrev pub no_ids : List ℕ → Bool
no_ids [] = true
no_ids (x ∷ xs) = false

unfoldable pub accepts_event_group : ServerConfig → ℕ → Bool
accepts_event_group c event_group_id =
    no_ids c.event_group_ids || contains c.event_group_ids event_group_id

unfoldable pub offers : List AcceptedOffer → ℕ → ℕ → ℕ → ℕ → Bool
offers [] service_id instance_id major_version event_group_id = false
offers (o ∷ os) service_id instance_id major_version event_group_id =
    o.service_id == service_id
      && (o.instance_id == instance_id
          && (o.major_version == major_version && o.event_group_id == event_group_id))
    || offers os service_id instance_id major_version event_group_id

unfoldable pub accepts_offer : ServerConfig → ℕ → ℕ → ℕ → ℕ → Bool
accepts_offer c = offers c.accepted_offers

unfoldable pub with_interface : ServerConfig → ℕ → ServerConfig
with_interface c interface = record c { interface = interface }

unfoldable pub with_local_port : ServerConfig → ℕ → ServerConfig
with_local_port c local_port = record c { local_port = local_port }

unfoldable pub with_major_version : ServerConfig → ℕ → ServerConfig
with_major_version c major_version = record c { major_version = major_version }

unfoldable pub with_minor_version : ServerConfig → ℕ → ServerConfig
with_minor_version c minor_version = record c { minor_version = minor_version }

unfoldable pub with_announce : ServerConfig → Bool → ServerConfig
with_announce c announce = record c { announce = announce }

-- `u32::try_from(ttl.as_secs()).unwrap_or(u32::MAX)`.
unfoldable pub with_ttl : ServerConfig → ℕ → ServerConfig
with_ttl c seconds = record c { ttl = (if leb seconds 4294967295 then seconds else 4294967295) }

-- `push`, which gives the element back when the vector is full.
abbrev pub push {ℓ} : {A : Type ℓ} → ℕ → List A → A → Option (List A)
push cap vec x = if ltb (length vec) cap then some (vec ++ (x ∷ [])) else none

unfoldable pub with_ids : ServerConfig → Option (List ℕ) → Result ServerConfig ServerConfig
with_ids c none = err c
with_ids c (some ids) = ok (record c { event_group_ids = ids })

unfoldable pub with_offers :
    ServerConfig → Option (List AcceptedOffer) → Result ServerConfig ServerConfig
with_offers c none = err c
with_offers c (some accepted) = ok (record c { accepted_offers = accepted })

module _ (event_group_ids_cap accepted_offers_cap : ℕ) where
  unfoldable pub try_with_event_group : ServerConfig → ℕ → Result ServerConfig ServerConfig
  try_with_event_group c event_group_id =
      with_ids c (push event_group_ids_cap c.event_group_ids event_group_id)

  -- The builder that panics when the vector is full.
  unfoldable pub with_event_group : ServerConfig → ℕ → Result ServerConfig ServerConfig
  with_event_group c event_group_id = expect (try_with_event_group c event_group_id)

  unfoldable pub try_with_accepted_offer :
      ServerConfig → ℕ → ℕ → ℕ → ℕ → Result ServerConfig ServerConfig
  try_with_accepted_offer c service_id instance_id major_version event_group_id = with_offers c (
      push accepted_offers_cap c.accepted_offers (record {
        service_id = service_id;
        instance_id = instance_id;
        major_version = major_version;
        event_group_id = event_group_id;
      }))

  unfoldable pub with_accepted_offer :
      ServerConfig → ℕ → ℕ → ℕ → ℕ → Result ServerConfig ServerConfig
  with_accepted_offer c service_id instance_id major_version event_group_id =
      expect (try_with_accepted_offer c service_id instance_id major_version event_group_id)
