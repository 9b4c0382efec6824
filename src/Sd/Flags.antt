-- ===== src/Sd/Flags.antt =====
-- src/protocol/sd/flags.rs.
use simple_someip.Prelude.{
  ℕ, ◌≡◌, ◌<◌, refl, bit_and, bit_or, Bool, true, false, not, ◌==◌, if◌then◌else◌,
}
use simple_someip.Prelude.{arith}

pub data RebootFlag : Type 0 where
  recently_rebooted continuous : RebootFlag

unfoldable pub reboot_from_bool : Bool → RebootFlag
reboot_from_bool b = if b then recently_rebooted else continuous

unfoldable pub reboot_to_bool : RebootFlag → Bool
reboot_to_bool recently_rebooted = true
reboot_to_bool continuous = false

pub record Flags : Type 0 where
  pub reboot : Bool
  pub unicast : Bool

unfoldable pub from_u8 : ℕ → Flags
from_u8 value = record {
  reboot = not (bit_and value 0x80 == 0);
  unicast = not (bit_and value 0x40 == 0);
}

-- The two `|=` in order.
unfoldable pub to_u8 : Flags → ℕ
to_u8 flags =
    let value = if flags.reboot then bit_or 0 0x80 else 0 in
    if flags.unicast then bit_or value 0x40 else value

unfoldable pub new_sd : RebootFlag → Flags
new_sd reboot = record { reboot = reboot_to_bool reboot; unicast = true }

unfoldable pub reboot_of : Flags → RebootFlag
reboot_of f = reboot_from_bool f.reboot

from-to :
    (r u : Bool)
    → from_u8 (to_u8 (record { reboot = r; unicast = u })) ≡ record { reboot = r; unicast = u }
unfolding from_u8 to_u8
from-to true true = refl
from-to true false = refl
from-to false true = refl
from-to false false = refl

-- The two flags survive the wire.
pub from_u8-to_u8 : (f : Flags) → from_u8 (to_u8 f) ≡ f
from_u8-to_u8 f = from-to f.reboot f.unicast

-- The flags of a message that is sent with a reboot flag are read with that reboot flag.
pub reboot_of-new_sd : (r : RebootFlag) → reboot_of (from_u8 (to_u8 (new_sd r))) ≡ r
unfolding reboot_of new_sd reboot_from_bool reboot_to_bool from_u8 to_u8
reboot_of-new_sd recently_rebooted = refl
reboot_of-new_sd continuous = refl

pub to_u8-lt : (f : Flags) → to_u8 f < 256
unfolding to_u8
to_u8-lt f = ground arith
