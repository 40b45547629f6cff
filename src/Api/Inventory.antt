-- ===== src/Api/Inventory.antt =====
-- bifrostd/src/api/inventory.ts: the spendable balance of a network. The channels are what the node
-- reports.
use bitfrost.Base.{
  ◌≡◌, refl, String, Bool, not, List, [], ◌∷◌, str_eq, if◌then◌else◌, arith, Bool-cases, inl, inr,
}
use bitfrost.Base.Int.{ℤ, pos, ◌+ℤ◌, ◌-ℤ◌, +ℤ_parts, -ℤ_parts, eq_of_parts}

pub record FiberChannel : Type 0 where
  pub state : String
  pub local_balance : ℤ
  pub offered_tlc_balance : ℤ

pub record LightningChannel : Type 0 where
  pub active : Bool
  pub local_balance_sat : ℤ
  pub local_chan_reserve_sat : ℤ
  pub unsettled_balance_sat : ℤ

pub record NetworkLiquidity : Type 0 where
  pub available : ℤ
  pub in_flight : ℤ

fiber_loop : List FiberChannel → NetworkLiquidity → NetworkLiquidity
fiber_loop [] l = l
fiber_loop (c ∷ cs) l =
    let counted = fiber_loop cs (record {
      available = l.available +ℤ (c.local_balance -ℤ c.offered_tlc_balance);
      in_flight = l.in_flight +ℤ c.offered_tlc_balance;
    }) in
    let skipped = fiber_loop cs l in
    if not (str_eq c.state "ChannelReady") then skipped else counted

unfoldable pub fiber_liquidity : List FiberChannel → NetworkLiquidity
unfolding fiber_loop
fiber_liquidity cs = fiber_loop cs (record { available = pos 0; in_flight = pos 0 })

lightning_loop : List LightningChannel → NetworkLiquidity → NetworkLiquidity
lightning_loop [] l = l
lightning_loop (c ∷ cs) l =
    let counted = lightning_loop cs (record {
      available =
          l.available
          +ℤ (c.local_balance_sat -ℤ c.local_chan_reserve_sat -ℤ c.unsettled_balance_sat);
      in_flight = l.in_flight +ℤ c.unsettled_balance_sat;
    }) in
    let skipped = lightning_loop cs l in if not c.active then skipped else counted

unfoldable pub lightning_liquidity : List LightningChannel → NetworkLiquidity
unfolding lightning_loop
lightning_liquidity cs = lightning_loop cs (record { available = pos 0; in_flight = pos 0 })

-- Summed over the channels that are ready.
unfoldable pub ready_total : (FiberChannel → ℤ) → List FiberChannel → ℤ → ℤ
ready_total f [] n = n
ready_total f (c ∷ cs) n =
    let counted = ready_total f cs (n +ℤ f c) in
    let skipped = ready_total f cs n in if str_eq c.state "ChannelReady" then counted else skipped

-- What the hub can send over a channel, what is locked in it, and both together.
abbrev pub spendable : FiberChannel → ℤ
spendable c = c.local_balance -ℤ c.offered_tlc_balance

abbrev pub locked : FiberChannel → ℤ
locked c = c.offered_tlc_balance

abbrev pub whole_balance : FiberChannel → ℤ
whole_balance c = c.local_balance

counted_once : (a f n b o : ℤ) → a +ℤ f ≡ n → a +ℤ (b -ℤ o) +ℤ (f +ℤ o) ≡ n +ℤ b
counted_once a f n b o h = rw (← h) (
    eq_of_parts _ _ (
      omega (
        arith,
        +ℤ_parts (a +ℤ (b -ℤ o)) (f +ℤ o),
        +ℤ_parts a (b -ℤ o),
        -ℤ_parts b o,
        +ℤ_parts f o,
        +ℤ_parts (a +ℤ f) b,
        +ℤ_parts a f,
      )))

loop_total :
    (cs : List FiberChannel) (l : NetworkLiquidity) (n : ℤ)
    → l.available +ℤ l.in_flight ≡ n
    → ((fiber_loop cs l).available ≡ ready_total spendable cs l.available)
      × ((fiber_loop cs l).in_flight ≡ ready_total locked cs l.in_flight)
      × ((fiber_loop cs l).available +ℤ (fiber_loop cs l).in_flight
          ≡ ready_total whole_balance cs n)
unfolding fiber_loop ready_total
loop_total [] l n h = (refl, refl, h)
loop_total (c ∷ cs) l n h = elim (Bool-cases (str_eq c.state "ChannelReady")) [
  | inl ready ↦ rw ready (
      loop_total cs _ (n +ℤ c.local_balance)
        (counted_once l.available l.in_flight n c.local_balance c.offered_tlc_balance h))
  | inr other ↦ rw other (loop_total cs l n h)
]

-- Of the channels that are ready, and of no others: what is available on Fiber is the sum of the local
-- balances less what is locked in outgoing payments, what is in flight is the sum of what is locked,
-- and together they add up to the local balances.
pub fiber_liquidity-total :
    (cs : List FiberChannel)
    → ((fiber_liquidity cs).available ≡ ready_total spendable cs (pos 0))
      × ((fiber_liquidity cs).in_flight ≡ ready_total locked cs (pos 0))
      × ((fiber_liquidity cs).available +ℤ (fiber_liquidity cs).in_flight
          ≡ ready_total whole_balance cs (pos 0))
unfolding fiber_liquidity
fiber_liquidity-total cs = loop_total cs _ (pos 0) (unfold ◌+ℤ◌ in refl)
