-- ===== src/Channel.antt =====
-- The access channels of core/src/inventory.rs and the driver seam of core/src/channel.rs.
mod Tests
pub mod Drivers
pub mod Orchestration
use lychgate.Prelude.{ℕ, ◌↔◌, ◌≡◌, refl, Bool, true, false, ◌&&◌, List, [], ◌∷◌, arith, any, ◌==◌}

pub data Channel : Type 0 where
  ssh authorized_keys bmc vnc http mqtt serial device : Channel

pub Channel-discrete : Discrete Channel
Channel-discrete = hlevel

-- The derived order of `Channel` is the order of its declaration.
abbrev pub rank : Channel → ℕ
rank ssh = 0
rank authorized_keys = 1
rank bmc = 2
rank vnc = 3
rank http = 4
rank mqtt = 5
rank serial = 6
rank device = 7

unfoldable pub channel_eq : Channel → Channel → Bool
channel_eq a b = rank a == rank b

-- `Vec::contains`
abbrev pub member : Channel → List Channel → Bool
member c xs = any (λ x. channel_eq x c) xs

-- `==` of `Vec<Channel>`.
unfoldable pub channels_eq : List Channel → List Channel → Bool
unfolding channel_eq
channels_eq [] [] = true
channels_eq (a ∷ as') (b ∷ bs) = channel_eq a b && channels_eq as' bs
channels_eq _ _ = false

pub channel_eq_iff : (a b : Channel) → (channel_eq a b ≡ true) ↔ (a ≡ b)
unfolding channel_eq
channel_eq_iff a b = ground arith
