-- ===== src/Adapters/Fiber/Channels.antt =====
-- `getChannels` of bifrostd/src/adapters/fiber.ts.
use bitfrost.Base.{String, Option, none, some, List, [], ◌∷◌}
use bitfrost.Orders.Ports.{Result, ok}
use bitfrost.Rfq.Fallible.{◌>>=◌}
use bitfrost.Fnn.{decode_hex, decode_u128_hex}
use bitfrost.Api.Inventory.{FiberChannel}

-- A channel as the node lists it, with the name of its state.
pub record ListedChannel : Type 0 where
  pub state_name : String
  pub local_balance : String
  pub remote_balance : String
  pub offered_tlc_balance : Option String
  pub received_tlc_balance : Option String

abbrev or_zero : Option String → String
or_zero none = "0x0"
or_zero (some hex) = hex

-- What the rest of the program reads of a channel.
unfoldable pub channel_of : ListedChannel → Result FiberChannel
unfolding decode_hex ◌>>=◌
channel_of c = do
  local ← decode_u128_hex c.local_balance
  remote ← decode_u128_hex c.remote_balance
  offered ← decode_u128_hex (or_zero c.offered_tlc_balance)
  received ← decode_u128_hex (or_zero c.received_tlc_balance)
  ok (record { state = c.state_name; local_balance = local; offered_tlc_balance = offered })

unfoldable pub channels_of : List ListedChannel → Result (List FiberChannel)
unfolding channel_of ◌>>=◌
channels_of [] = ok []
channels_of (c ∷ cs) = do first ← channel_of c; rest ← channels_of cs; ok (first ∷ rest)

-- `getChannels`.
unfoldable pub get_channels : Result (List ListedChannel) → Result (List FiberChannel)
unfolding channels_of ◌>>=◌
get_channels answer = answer >>= channels_of
