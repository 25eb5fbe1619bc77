-- ===== src/Exchange/Validator.antt =====
-- src/exchange/validator.cpp.
use titan_engine.Prelude.{ℕ, Bool, true, false, ◌&&◌, List, ◌==◌, if◌then◌else◌, nat_eq}
use titan_engine.Prelude.Assoc.{contains}
use titan_engine.Core.{
  Order, OrderType, limit, market, RejectReason, accept, zero_quantity, zero_price,
  duplicate_order_id, unknown_order,
}

abbrev pub is_market : OrderType → Bool
is_market limit = false
is_market market = true

abbrev pub is_limit : OrderType → Bool
is_limit limit = true
is_limit market = false

unfoldable pub validate_new_order : Order → List ℕ → RejectReason
unfolding contains
validate_new_order o existing =
    if o.quantity == 0
    then zero_quantity
    else if is_limit o.type && (o.price == 0)
    then zero_price
    else if contains o.id existing
    then duplicate_order_id
    else accept

unfoldable pub validate_cancel : ℕ → List ℕ → RejectReason
unfolding contains
validate_cancel id existing = if contains id existing then accept else unknown_order
