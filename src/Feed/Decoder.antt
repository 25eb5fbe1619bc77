-- ===== src/Feed/Decoder.antt =====
-- `decodeMessage` of src/feed/itch/decoder.cpp. Bytes are numbers below 256, on which a shift by
-- eight and an `or` is a product and a sum.
use titan_engine.Prelude.{
  ℕ, suc, ◌+◌, ◌*◌, ◌<◌, ◌≡◌, ◌↔◌, refl, Bool, true, false, ◌&&◌, List, [], ◌∷◌, Option, none, some,
  ◌==◌, if◌then◌else◌, take, drop, length,
}
use titan_engine.Feed.Messages
use titan_engine.Feed.Messages.{
  Header, SystemEventMessage, StockDirectoryMessage, AddOrderMessage, AddOrderMpidMessage,
  OrderExecutedMessage, OrderExecutedWithPriceMessage, OrderCancelMessage, OrderDeleteMessage,
  OrderReplaceMessage, TimestampSecondsMessage, ItchMessage, system_event_message,
  stock_directory_message, add_order_message, add_order_mpid_message, order_executed_message,
  order_executed_with_price_message, order_cancel_message, order_delete_message,
  order_replace_message, timestamp_seconds_message,
}
pub mod Sizes
pub mod Bytes
pub mod Layout

-- The loops of `readU48BE` and `readU64BE`, from the value `v` on.
unfoldable pub read_be : ℕ → List ℕ → ℕ
read_be v [] = v
read_be v (b ∷ bs) = read_be (v * 256 + b) bs

-- `n` bytes from offset `i`.
abbrev pub bytes_at : ℕ → ℕ → List ℕ → List ℕ
bytes_at i n p = take n (drop i p)

unfoldable pub read_u8 : ℕ → List ℕ → ℕ
unfolding read_be
read_u8 i p = read_be 0 (bytes_at i 1 p)

unfoldable pub read_u16 : ℕ → List ℕ → ℕ
unfolding read_be
read_u16 i p = read_be 0 (bytes_at i 2 p)

unfoldable pub read_u32 : ℕ → List ℕ → ℕ
unfolding read_be
read_u32 i p = read_be 0 (bytes_at i 4 p)

unfoldable pub read_u48 : ℕ → List ℕ → ℕ
unfolding read_be
read_u48 i p = read_be 0 (bytes_at i 6 p)

unfoldable pub read_u64 : ℕ → List ℕ → ℕ
unfolding read_be
read_u64 i p = read_be 0 (bytes_at i 8 p)

abbrev pub header : List ℕ → Header
header p = record {
  stock_locate = read_u16 0 p;
  tracking_number = read_u16 2 p;
  timestamp = read_u48 4 p;
}

abbrev pub decode_system_event : List ℕ → SystemEventMessage
decode_system_event p = record { header = header p; event_code = read_u8 10 p }

abbrev pub decode_stock_directory : List ℕ → StockDirectoryMessage
decode_stock_directory p = record {
  header = header p;
  stock = bytes_at 10 8 p;
  market_category = read_u8 18 p;
  financial_status = read_u8 19 p;
  round_lot_size = read_u32 20 p;
  round_lots_only = read_u8 24 p;
  issue_classification = read_u8 25 p;
  issue_sub_type = bytes_at 26 2 p;
  authenticity = read_u8 28 p;
  short_sale_threshold = read_u8 29 p;
  ipo_flag = read_u8 30 p;
  luld_ref_price_tier = read_u8 31 p;
  etp_flag = read_u8 32 p;
  etp_leverage_factor = read_u32 33 p;
  inverse_indicator = read_u8 37 p;
}

abbrev pub decode_add_order : List ℕ → AddOrderMessage
decode_add_order p = record {
  header = header p;
  order_reference_number = read_u64 10 p;
  buy_sell_indicator = read_u8 18 p;
  shares = read_u32 19 p;
  stock = bytes_at 23 8 p;
  price = read_u32 31 p;
}

abbrev pub decode_order_executed : List ℕ → OrderExecutedMessage
decode_order_executed p = record {
  header = header p;
  order_reference_number = read_u64 10 p;
  executed_shares = read_u32 18 p;
  match_number = read_u64 22 p;
}

abbrev pub decode_order_cancel : List ℕ → OrderCancelMessage
decode_order_cancel p = record {
  header = header p;
  order_reference_number = read_u64 10 p;
  cancelled_shares = read_u32 18 p;
}

abbrev pub decode_order_delete : List ℕ → OrderDeleteMessage
decode_order_delete p = record { header = header p; order_reference_number = read_u64 10 p }

abbrev pub decode_order_replace : List ℕ → OrderReplaceMessage
decode_order_replace p = record {
  header = header p;
  original_order_reference_number = read_u64 10 p;
  new_order_reference_number = read_u64 18 p;
  shares = read_u32 26 p;
  price = read_u32 30 p;
}

-- A payload of `n` bytes is decoded, any other refused.
abbrev pub sized : ℕ → List ℕ → ItchMessage → Option ItchMessage
sized n p m = if length p == n then some m else none

-- The message of a payload of type `type`; `none` is `false`.
unfoldable pub decode_message : ℕ → List ℕ → Option ItchMessage
decode_message type p =
    if type == Messages.system_event
    then sized 11 p (system_event_message (decode_system_event p))
    else if type == Messages.stock_directory
    then sized 38 p (stock_directory_message (decode_stock_directory p))
    else if type == Messages.add_order
    then sized 35 p (add_order_message (decode_add_order p))
    else if type == Messages.add_order_mpid
    then sized 39 p (
        add_order_mpid_message
          (record { base = decode_add_order (take 35 p); attribution = bytes_at 35 4 p }))
    else if type == Messages.order_executed
    then sized 30 p (order_executed_message (decode_order_executed p))
    else if type == Messages.order_executed_with_price
    then sized 35 p (
        order_executed_with_price_message (record {
          base = decode_order_executed (take 30 p);
          printable = read_u8 30 p;
          execution_price = read_u32 31 p;
        }))
    else if type == Messages.order_cancel
    then sized 22 p (order_cancel_message (decode_order_cancel p))
    else if type == Messages.order_delete
    then sized 18 p (order_delete_message (decode_order_delete p))
    else if type == Messages.order_replace
    then sized 34 p (order_replace_message (decode_order_replace p))
    else if type == Messages.timestamp_seconds
    then sized 4 p (timestamp_seconds_message (record { seconds = read_u32 0 p }))
    else none
