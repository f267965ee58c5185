-- ===== src/Updater/Host.antt =====
-- What the updater runs on: the Cloudflare API, the network of the address providers, the clock
-- and std's address texts, over one world.
use cirrusync.Prelude.{ℕ, ◌≡◌, Bool, Option, some}
use cirrusync.Prelude.Strings.{Text}
use cirrusync.PublicIp.{IpAddr, IpText, PublicIpError}
use cirrusync.PublicIp.Discover.{Timed, Network}
use cirrusync.Cloudflare.Client.{Api}

-- `overrun d w` is the world in which the deadline `d` has cut off the discovery that starts in
-- `w`, if it does. `stopped w` reads the `stop_requested` flag, which the daemon sets.
-- `show_discovery_error` is the display of a `PublicIpError`.
pub record Host : Type 1 where
  pub api : Api
  pub ip : IpText
  pub get : Text → ℕ → api.World → Timed × api.World
  pub origin : Text → Option Text
  pub overrun : ℕ → api.World → Option api.World
  pub stopped : api.World → Bool
  pub show_discovery_error : PublicIpError → Text

abbrev pub network : Host → Network
network h = record { World = h.api.World; now = h.api.now; get = h.get; origin = h.origin }

-- std prints an address so that it parses back.
pub record IsFaithful (t : IpText) : Type 0 where
  pub parse_show : (x : IpAddr) → t.parse_ip (t.show_ip x) ≡ some x
