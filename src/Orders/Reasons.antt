-- ===== src/Orders/Reasons.antt =====
-- The errors that bifrostd/src/orders/engine.ts records in an order.
use bitfrost.Base.{
  ℕ, String, Bool, true, false, not, ◌&&◌, ◌||◌, Option, none, some, List, [], ◌∷◌, ◌==◌,
  if◌then◌else◌,
}
use bitfrost.Base.Codes.{codes, lower}
use bitfrost.Sdk.Types.{ErrorCode, no_route, outgoing_failed, ProtocolError}

-- `failure` of engine.ts.
abbrev pub failure : ErrorCode → String → Bool → Option String → ProtocolError
failure code message retryable hint = record {
  code = code;
  message = message;
  hint = hint;
  retryable = retryable;
}

-- What follows `no` in a match of `/no.?route/i`.
abbrev is_route : List ℕ → Bool
is_route (r ∷ o ∷ u ∷ t ∷ e ∷ rest) =
    lower r == b'r'
    && (lower o == b'o' && (lower u == b'u' && (lower t == b't' && lower e == b'e')))
is_route _ = false

abbrev is_line_end : ℕ → Bool
is_line_end c = c == 10 || (c == 13 || (c == 0x2028 || c == 0x2029))

abbrev is_gap_route : List ℕ → Bool
is_gap_route [] = false
is_gap_route (c ∷ rest) = not (is_line_end c) && is_route rest

abbrev says_no_route : List ℕ → Bool
says_no_route (n ∷ o ∷ rest) =
    lower n == b'n' && lower o == b'o' && (is_route rest || is_gap_route rest)
    || says_no_route (o ∷ rest)
says_no_route _ = false

-- `/no.?route/i.test(reason)`.
unfoldable pub is_no_route : String → Bool
is_no_route reason = says_no_route (codes reason)

abbrev when_missing : Option String → String → String
when_missing none default = default
when_missing (some s) default = s

unfoldable pub outgoing_failure : Option String → ProtocolError
unfolding is_no_route
outgoing_failure reported =
    let reason = when_missing reported "outgoing payment failed" in
    failure (if is_no_route reason then no_route else outgoing_failed) reason true
      (some "the destination may be unreachable or lack inbound capacity")
