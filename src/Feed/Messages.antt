-- ===== src/Feed/Messages.antt =====
-- The messages of include/titan/feed/itch/messages.hpp; a `char` is its byte.
use titan_engine.Prelude.{ℕ, List}

abbrev pub system_event : ℕ
system_event = 83

abbrev pub stock_directory : ℕ
stock_directory = 82

abbrev pub add_order : ℕ
add_order = 65

abbrev pub add_order_mpid : ℕ
add_order_mpid = 70

abbrev pub order_executed : ℕ
order_executed = 69

abbrev pub order_executed_with_price : ℕ
order_executed_with_price = 67

abbrev pub order_cancel : ℕ
order_cancel = 88

abbrev pub order_delete : ℕ
order_delete = 68

abbrev pub order_replace : ℕ
order_replace = 85

abbrev pub timestamp_seconds : ℕ
timestamp_seconds = 84

-- The first three fields of every message but the last kind.
pub record Header : Type 0 where
  pub stock_locate : ℕ
  pub tracking_number : ℕ
  pub timestamp : ℕ

pub record SystemEventMessage : Type 0 where
  pub header : Header
  pub event_code : ℕ

pub record StockDirectoryMessage : Type 0 where
  pub header : Header
  pub stock : List ℕ
  pub market_category : ℕ
  pub financial_status : ℕ
  pub round_lot_size : ℕ
  pub round_lots_only : ℕ
  pub issue_classification : ℕ
  pub issue_sub_type : List ℕ
  pub authenticity : ℕ
  pub short_sale_threshold : ℕ
  pub ipo_flag : ℕ
  pub luld_ref_price_tier : ℕ
  pub etp_flag : ℕ
  pub etp_leverage_factor : ℕ
  pub inverse_indicator : ℕ

pub record AddOrderMessage : Type 0 where
  pub header : Header
  pub order_reference_number : ℕ
  pub buy_sell_indicator : ℕ
  pub shares : ℕ
  pub stock : List ℕ
  pub price : ℕ

pub record AddOrderMpidMessage : Type 0 where
  pub base : AddOrderMessage
  pub attribution : List ℕ

pub record OrderExecutedMessage : Type 0 where
  pub header : Header
  pub order_reference_number : ℕ
  pub executed_shares : ℕ
  pub match_number : ℕ

pub record OrderExecutedWithPriceMessage : Type 0 where
  pub base : OrderExecutedMessage
  pub printable : ℕ
  pub execution_price : ℕ

pub record OrderCancelMessage : Type 0 where
  pub header : Header
  pub order_reference_number : ℕ
  pub cancelled_shares : ℕ

pub record OrderDeleteMessage : Type 0 where
  pub header : Header
  pub order_reference_number : ℕ

pub record OrderReplaceMessage : Type 0 where
  pub header : Header
  pub original_order_reference_number : ℕ
  pub new_order_reference_number : ℕ
  pub shares : ℕ
  pub price : ℕ

pub record TimestampSecondsMessage : Type 0 where
  pub seconds : ℕ

pub data ItchMessage : Type 0 where
  system_event_message : SystemEventMessage → ItchMessage
  stock_directory_message : StockDirectoryMessage → ItchMessage
  add_order_message : AddOrderMessage → ItchMessage
  add_order_mpid_message : AddOrderMpidMessage → ItchMessage
  order_executed_message : OrderExecutedMessage → ItchMessage
  order_executed_with_price_message : OrderExecutedWithPriceMessage → ItchMessage
  order_cancel_message : OrderCancelMessage → ItchMessage
  order_delete_message : OrderDeleteMessage → ItchMessage
  order_replace_message : OrderReplaceMessage → ItchMessage
  timestamp_seconds_message : TimestampSecondsMessage → ItchMessage
