-- ===== src/Adapters/Lightning/Channels.antt =====
-- `getChannels` of bifrostd/src/adapters/lightning.ts.
use bitfrost.Base.{String, Bool, Option, none, some, List, [], ◌∷◌}
use bitfrost.Base.Int.{ℤ, pos}
use bitfrost.Base.Decimal.{big_int}
use bitfrost.Sdk.Types.{syntax_error}
use bitfrost.Orders.Ports.{Result, ok}
use bitfrost.Rfq.Fallible.{◌>>=◌, attempt}
use bitfrost.Api.Inventory.{LightningChannel}

-- A channel as the node lists it; an answer without `channels` lists none.
pub record ListedChannel : Type 0 where
  pub active : Bool
  pub local_balance : Option String
  pub remote_balance : Option String
  pub local_chan_reserve_sat : Option String
  pub unsettled_balance : Option String

abbrev number_of : Option String → Result ℤ
number_of none = ok (pos 0)
number_of (some t) = attempt (big_int t) syntax_error

-- What the rest of the program reads of a channel.
unfoldable pub channel_of : ListedChannel → Result LightningChannel
unfolding big_int ◌>>=◌
channel_of c = do
  local ← number_of c.local_balance
  remote ← number_of c.remote_balance
  reserve ← number_of c.local_chan_reserve_sat
  unsettled ← number_of c.unsettled_balance
  ok (record {
    active = c.active;
    local_balance_sat = local;
    local_chan_reserve_sat = reserve;
    unsettled_balance_sat = unsettled;
  })

unfoldable pub channels_of : List ListedChannel → Result (List LightningChannel)
unfolding channel_of ◌>>=◌
channels_of [] = ok []
channels_of (c ∷ cs) = do first ← channel_of c; rest ← channels_of cs; ok (first ∷ rest)

-- `getChannels`.
unfoldable pub get_channels : Result (List ListedChannel) → Result (List LightningChannel)
unfolding channels_of ◌>>=◌
get_channels answer = answer >>= channels_of
