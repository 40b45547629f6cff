-- ===== src/Orders/Engine/Advances.antt =====
-- Each `mutate` argument of bifrostd/src/orders/engine.ts is a transition of the protocol, in the
-- states in which the engine uses it.
use bitfrost.Base.{ℕ, ◌≡◌, refl, ◌⊎◌, inl, inr, String, true, false, some, arith, str_eq}
use bitfrost.Sdk.Types.{
  Order, OrderState, pending, incoming_held, outgoing_in_flight, outgoing_settled, succeeded,
  refunding, Hash256, ProtocolError, is_terminal,
}
use bitfrost.Orders.Marks.{
  mark_invoice, mark_held, mark_dispatched, mark_outgoing_settled, mark_succeeded,
  mark_settled_by_node, mark_refunding, mark_failed,
}
use bitfrost.Orders.World.{Host}
use bitfrost.Orders.Engine.{matches}
use bitfrost.Orders.Protocol.{
  Advance, Moves, remain, take, shortcut, hold, dispatch, learn, claim, unwind, give_up,
}

fail_moves : (s : OrderState) → is_terminal s ≡ false → Moves s OrderState.failed
fail_moves pending h = take (give_up (inl refl) refl)
fail_moves incoming_held h = shortcut (inl refl) refl
fail_moves outgoing_in_flight h = shortcut (inr (inl refl)) refl
fail_moves outgoing_settled h = shortcut (inr (inr refl)) refl
fail_moves succeeded h = absurd (cc (h))
fail_moves refunding h = take (give_up (inr refl) refl)
fail_moves OrderState.failed h = absurd (cc (h))

module _ (host : Host) (o : Order) (t : ℕ) where
  pub mark_invoice-Advance : (invoice : String) → Advance host o (mark_invoice invoice t o)
  unfolding mark_invoice
  mark_invoice-Advance invoice = record {
    terms = ground arith;
    move = remain refl;
    final = λ e. record {
      state = refl;
      failure = refl;
      outgoing = refl;
      incoming_status = refl;
      incoming_preimage = refl;
    };
    sound = λ s. ground arith;
  }

  pub mark_held-Advance : o.state ≡ pending → Advance host o (mark_held t o)
  unfolding mark_held
  mark_held-Advance h = record {
    terms = ground arith;
    move = take (hold h refl);
    final = λ e. absurd (ground (arith, h, e));
    sound = λ s. ground arith;
  }

  pub mark_dispatched-Advance : o.state ≡ incoming_held → Advance host o (mark_dispatched t o)
  unfolding mark_dispatched
  mark_dispatched-Advance h = record {
    terms = ground arith;
    move = take (dispatch h refl);
    final = λ e. absurd (ground (arith, h, e));
    sound = λ s. ground arith;
  }

  pub mark_outgoing_settled-Advance :
      (p : Hash256)
      → o.state ≡ outgoing_in_flight
      → str_eq p "" ≡ false
      → matches host p o.payment_hash ≡ true
      → Advance host o (mark_outgoing_settled p t o)
  unfolding mark_outgoing_settled
  mark_outgoing_settled-Advance p h full m = record {
    terms = ground arith;
    move = take (learn h refl);
    final = λ e. absurd (ground (arith, h, e));
    sound = λ s. ground arith;
  }

  pub mark_succeeded-Advance :
      (p : Hash256)
      → o.state ≡ outgoing_settled
      → o.outgoing.preimage ≡ some p
      → Advance host o (mark_succeeded p t o)
  unfolding mark_succeeded
  mark_succeeded-Advance p h e = record {
    terms = ground arith;
    move = take (claim h refl);
    final = λ e. absurd (ground (arith, h, e));
    sound = λ s. ground arith;
  }

  pub mark_settled_by_node-Advance :
      o.state ≡ outgoing_settled → Advance host o (mark_settled_by_node t o)
  unfolding mark_settled_by_node
  mark_settled_by_node-Advance h = record {
    terms = ground arith;
    move = take (claim h refl);
    final = λ e. absurd (ground (arith, h, e));
    sound = λ s. ground arith;
  }

  pub mark_refunding-Advance :
      (why : ProtocolError)
      → (o.state ≡ incoming_held) ⊎ (o.state ≡ outgoing_in_flight)
      → Advance host o (mark_refunding why t o)
  unfolding mark_refunding
  mark_refunding-Advance why h = record {
    terms = ground arith;
    move = take (unwind h refl);
    final = λ e. absurd (ground (arith, h, e));
    sound = λ s. ground arith;
  }

  pub mark_failed-Advance :
      (why : ProtocolError) → is_terminal o.state ≡ false → Advance host o (mark_failed why t o)
  unfolding mark_failed
  mark_failed-Advance why h = record {
    terms = ground arith;
    move = fail_moves o.state h;
    final = λ e. absurd (cc (h, e));
    sound = λ s. ground arith;
  }
