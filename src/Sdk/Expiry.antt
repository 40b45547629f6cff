-- ===== src/Sdk/Expiry.antt =====
-- sdk/src/expiry.ts: Lightning block heights as wall-clock milliseconds, converted in the
-- direction that shrinks the safety gap.
use bitfrost.Base.{ℕ, ◌+◌, ◌*◌, ◌≤◌, ◌≡◌, Bool, true, Option, none, some, arith, leb}

abbrev pub outgoing_ms_per_block : ℕ
outgoing_ms_per_block = 600_000

abbrev pub incoming_ms_per_block : ℕ
incoming_ms_per_block = 300_000

unfoldable pub outgoing_blocks_to_ms : ℕ → ℕ
outgoing_blocks_to_ms blocks = blocks * outgoing_ms_per_block

unfoldable pub incoming_blocks_to_ms : ℕ → ℕ
incoming_blocks_to_ms blocks = blocks * incoming_ms_per_block

pub record LegExpiryInput : Type 0 where
  pub tlc_expiry_at : Option ℕ
  pub blocks_from_now : Option ℕ

pub data LegSide : Type 0 where
  incoming outgoing : LegSide

abbrev ms_per_block : LegSide → ℕ
ms_per_block incoming = incoming_ms_per_block
ms_per_block outgoing = outgoing_ms_per_block

abbrev from_blocks : Option ℕ → LegSide → ℕ → Option ℕ
from_blocks none side now = none
from_blocks (some blocks) side now = some (now + blocks * ms_per_block side)

abbrev first_given : Option ℕ → Option ℕ → Option ℕ
first_given (some t) other = some t
first_given none other = other

-- `none` is the thrown "leg expiry requires tlcExpiryAt or blocksFromNow".
unfoldable pub normalize_leg_expiry : LegExpiryInput → LegSide → ℕ → Option ℕ
normalize_leg_expiry leg side now =
    first_given leg.tlc_expiry_at (from_blocks leg.blocks_from_now side now)

abbrev compare_expiry : Option ℕ → Option ℕ → ℕ → Option Bool
compare_expiry none o delta = none
compare_expiry (some i) none delta = none
compare_expiry (some i) (some o) delta = some (leb (o + delta) i)

unfoldable pub expiry_invariant_holds : LegExpiryInput → LegExpiryInput → ℕ → ℕ → Option Bool
unfolding normalize_leg_expiry
expiry_invariant_holds i o delta now =
    compare_expiry (normalize_leg_expiry i incoming now) (normalize_leg_expiry o outgoing now) delta

-- Legs that are given by wall-clock expiries.
abbrev pub at_ms : ℕ → LegExpiryInput
at_ms t = record { tlc_expiry_at = some t; blocks_from_now = none }

abbrev pub in_blocks : ℕ → LegExpiryInput
in_blocks n = record { tlc_expiry_at = none; blocks_from_now = some n }

accepted_blocks :
    (bi bo delta now : ℕ)
    → expiry_invariant_holds (in_blocks bi) (in_blocks bo) delta now ≡ some true
    → bo * outgoing_ms_per_block + delta ≤ bi * incoming_ms_per_block
unfolding expiry_invariant_holds
accepted_blocks bi bo delta now h = ground arith

mul_le_left : (k a b : ℕ) → a ≤ b → k * a ≤ k * b
mul_le_left k a b h = grind arith

-- For any real block time from 5 to 10 minutes, an incoming hold of `bi` blocks outlives an
-- outgoing lock of `bo` blocks by the safety delta, if the check accepts the two.
pub expiry_conservative :
    (bi bo real delta now : ℕ)
    → incoming_ms_per_block ≤ real
    → real ≤ outgoing_ms_per_block
    → expiry_invariant_holds (in_blocks bi) (in_blocks bo) delta now ≡ some true
    → now + bo * real + delta ≤ now + bi * real
expiry_conservative bi bo real delta now lo hi h = omega (
  arith,
  accepted_blocks bi bo delta now h,
  mul_le_left bo real outgoing_ms_per_block hi,
  mul_le_left bi incoming_ms_per_block real lo,
)
