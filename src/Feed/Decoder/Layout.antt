-- ===== src/Feed/Decoder/Layout.antt =====
-- The layout of the messages on the wire, and that `decodeMessage` reads every byte into its field.
use titan_engine.Prelude.{
  ℕ, ◌<◌, ◌≤◌, ◌≡◌, sym, ap, subst, ◌∙◌, List, [], ◌++◌, Option, none, some, ◌==◌, ==_iff,
  if◌then◌else◌, take, drop, length, All, arith, Bool-cases, inl, inr, append-nil,
}
use titan_engine.Feed.Messages.{
  Header, AddOrderMessage, OrderExecutedMessage, ItchMessage, system_event_message,
  stock_directory_message, add_order_message, add_order_mpid_message, order_executed_message,
  order_executed_with_price_message, order_cancel_message, order_delete_message,
  order_replace_message, timestamp_seconds_message,
}
use titan_engine.Feed.Decoder.{
  bytes_at, read_u8, read_u16, read_u32, read_u48, read_u64, decode_message, sized, header,
  decode_stock_directory, decode_add_order, decode_order_executed, decode_order_replace,
}
use titan_engine.Feed.Decoder.Bytes.{
  be, All-take, drop_all, text_next, number_next, length-bytes_at, take-drop,
}

-- The fields of each kind of message, as the format lists them.
abbrev pub with_header : Header → List ℕ → List ℕ
with_header h rest = be 2 h.stock_locate ++ (be 2 h.tracking_number ++ (be 6 h.timestamp ++ rest))

abbrev pub encode_add_order : AddOrderMessage → List ℕ
encode_add_order m = with_header m.header (
    be 8 m.order_reference_number
    ++ (be 1 m.buy_sell_indicator ++ (be 4 m.shares ++ (m.stock ++ (be 4 m.price ++ [])))))

abbrev pub encode_order_executed : OrderExecutedMessage → List ℕ
encode_order_executed m =
    with_header m.header
      (be 8 m.order_reference_number ++ (be 4 m.executed_shares ++ (be 8 m.match_number ++ [])))

abbrev pub encode : ItchMessage → List ℕ
encode (system_event_message m) = with_header m.header (be 1 m.event_code ++ [])
encode (stock_directory_message m) = with_header m.header (
    m.stock
    ++ (be 1 m.market_category
        ++ (be 1 m.financial_status
            ++ (be 4 m.round_lot_size
                ++ (be 1 m.round_lots_only
                    ++ (be 1 m.issue_classification
                        ++ (m.issue_sub_type
                            ++ (be 1 m.authenticity
                                ++ (be 1 m.short_sale_threshold
                                    ++ (be 1 m.ipo_flag
                                        ++ (be 1 m.luld_ref_price_tier
                                            ++ (be 1 m.etp_flag
                                                ++ (be 4 m.etp_leverage_factor
                                                    ++ (be 1 m.inverse_indicator ++ []))))))))))))))
encode (add_order_message m) = encode_add_order m
encode (add_order_mpid_message m) = encode_add_order m.base ++ m.attribution
encode (order_executed_message m) = encode_order_executed m
encode (order_executed_with_price_message m) =
    encode_order_executed m.base ++ (be 1 m.printable ++ be 4 m.execution_price)
encode (order_cancel_message m) =
    with_header m.header (be 8 m.order_reference_number ++ (be 4 m.cancelled_shares ++ []))
encode (order_delete_message m) = with_header m.header (be 8 m.order_reference_number ++ [])
encode (order_replace_message m) = with_header m.header (
    be 8 m.original_order_reference_number
    ++ (be 8 m.new_order_reference_number ++ (be 4 m.shares ++ (be 4 m.price ++ []))))
encode (timestamp_seconds_message m) = be 4 m.seconds

-- The letters of the kinds: S, R, A, F, E, C, X, D, U and T.
abbrev pub type_of : ItchMessage → ℕ
type_of (system_event_message m) = 83
type_of (stock_directory_message m) = 82
type_of (add_order_message m) = 65
type_of (add_order_mpid_message m) = 70
type_of (order_executed_message m) = 69
type_of (order_executed_with_price_message m) = 67
type_of (order_cancel_message m) = 88
type_of (order_delete_message m) = 68
type_of (order_replace_message m) = 85
type_of (timestamp_seconds_message m) = 84

module _ (p : List ℕ) (a : All (λ b. b < 256) p) where
  header_next : (rest : List ℕ) → 10 ≤ length p → rest ≡ drop 10 p → with_header (header p) rest ≡ p
  unfolding read_u16 read_u48
  header_next rest h e =
      number_next 0 2 p _ a (omega arith)
        (number_next 2 2 p _ a (omega arith) (number_next 4 6 p rest a (omega arith) e))

  encode-decode_add_order : length p ≡ 35 → encode_add_order (decode_add_order p) ≡ p
  unfolding read_u8 read_u32 read_u64
  encode-decode_add_order h = header_next _ (omega arith) (
      number_next 10 8 p _ a (omega arith) (
        number_next 18 1 p _ a (omega arith) (
          number_next 19 4 p _ a (omega arith)
            (text_next 23 8 p _ (number_next 31 4 p [] a (omega arith) (drop_all p 35 h))))))

  encode-decode_order_executed : length p ≡ 30 → encode_order_executed (decode_order_executed p) ≡ p
  unfolding read_u32 read_u64
  encode-decode_order_executed h = header_next _ (omega arith) (
      number_next 10 8 p _ a (omega arith) (
        number_next 18 4 p _ a (omega arith)
          (number_next 22 8 p [] a (omega arith) (drop_all p 30 h))))

  encode-decode_stock_directory :
      length p ≡ 38 → encode (stock_directory_message (decode_stock_directory p)) ≡ p
  unfolding read_u8 read_u32
  encode-decode_stock_directory h = header_next _ (omega arith) (
      text_next 10 8 p _ (
        number_next 18 1 p _ a (omega arith) (
          number_next 19 1 p _ a (omega arith) (
            number_next 20 4 p _ a (omega arith) (
              number_next 24 1 p _ a (omega arith) (
                number_next 25 1 p _ a (omega arith) (
                  text_next 26 2 p _ (
                    number_next 28 1 p _ a (omega arith) (
                      number_next 29 1 p _ a (omega arith) (
                        number_next 30 1 p _ a (omega arith) (
                          number_next 31 1 p _ a (omega arith) (
                            number_next 32 1 p _ a (omega arith) (
                              number_next 33 4 p _ a (omega arith) (
                                number_next 37 1 p [] a (omega arith)
                                  (drop_all p 38 h)))))))))))))))

  encode-decode_order_replace :
      length p ≡ 34 → encode (order_replace_message (decode_order_replace p)) ≡ p
  unfolding read_u32 read_u64
  encode-decode_order_replace h = header_next _ (omega arith) (
      number_next 10 8 p _ a (omega arith) (
        number_next 18 8 p _ a (omega arith) (
          number_next 26 4 p _ a (omega arith)
            (number_next 30 4 p [] a (omega arith) (drop_all p 34 h)))))

module _ (p : List ℕ) (a : All (λ b. b < 256) p) where
  encode-decode_add_order_mpid :
      length p ≡ 39
      → encode (
          add_order_mpid_message
            (record { base = decode_add_order (take 35 p); attribution = bytes_at 35 4 p }))
        ≡ p
  encode-decode_add_order_mpid h =
      let base =
        encode-decode_add_order (take 35 p) (All-take 35 p a)
          (length-bytes_at 0 35 p (omega arith)) in
      ap (λ xs. xs ++ bytes_at 35 4 p) base
      ∙ ap (λ xs. take 35 p ++ xs) (sym (append-nil _) ∙ text_next 35 4 p [] (drop_all p 39 h))
      ∙ take-drop 35 p

  encode-decode_order_executed_with_price :
      length p ≡ 35
      → encode (
          order_executed_with_price_message (record {
            base = decode_order_executed (take 30 p);
            printable = read_u8 30 p;
            execution_price = read_u32 31 p;
          }))
        ≡ p
  unfolding read_u8 read_u32
  encode-decode_order_executed_with_price h =
      let base =
        encode-decode_order_executed (take 30 p) (All-take 30 p a)
          (length-bytes_at 0 30 p (omega arith)) in
      ap (λ xs. xs ++ (be 1 (read_u8 30 p) ++ be 4 (read_u32 31 p))) base
      ∙ ap (λ xs. take 30 p ++ xs)
          (number_next 30 1 p _ a (omega arith)
            (sym (append-nil _) ∙ number_next 31 4 p [] a (omega arith) (drop_all p 35 h)))
      ∙ take-drop 30 p

  -- What a decoded message says of its bytes.
  abbrev IsEncoded : ℕ → Option ItchMessage → Type 0
  IsEncoded type none = Unit
  IsEncoded type (some m) = (type_of m ≡ type) × (encode m ≡ p)

  IsEncoded-if :
      (type k : ℕ) (x y : Option ItchMessage)
      → (k ≡ type → IsEncoded type x)
      → IsEncoded type y
      → IsEncoded type (if type == k then x else y)
  IsEncoded-if type k x y h g = elim (Bool-cases (type == k)) [
    | inl e ↦ rw e (h (sym ((==_iff type k).0 e)))
    | inr e ↦ rw e g
  ]

  IsEncoded-sized :
      (type n : ℕ) (m : ItchMessage)
      → type_of m ≡ type
      → (length p ≡ n → encode m ≡ p)
      → IsEncoded type (sized n p m)
  IsEncoded-sized type n m t h = elim (Bool-cases (length p == n)) [
    | inl e ↦ rw e (t, h ((==_iff (length p) n).0 e))
    | inr e ↦ rw e tt
  ]

  decode_message-IsEncoded : (type : ℕ) → IsEncoded type (decode_message type p)
  unfolding decode_message read_u8 read_u32 read_u64
  decode_message-IsEncoded type =
      IsEncoded-if type 83 _ _
        (λ k. IsEncoded-sized type 11 _ k (λ h.
          header_next p a _ (omega arith)
            (number_next 10 1 p [] a (omega arith) (drop_all p 11 h))))
        (IsEncoded-if type 82 _ _
          (λ k. IsEncoded-sized type 38 _ k (encode-decode_stock_directory p a))
          (IsEncoded-if type 65 _ _ (λ k. IsEncoded-sized type 35 _ k (encode-decode_add_order p a))
            (IsEncoded-if type 70 _ _
              (λ k. IsEncoded-sized type 39 _ k encode-decode_add_order_mpid)
              (IsEncoded-if type 69 _ _
                (λ k. IsEncoded-sized type 30 _ k (encode-decode_order_executed p a))
                (IsEncoded-if type 67 _ _
                  (λ k. IsEncoded-sized type 35 _ k encode-decode_order_executed_with_price)
                  (IsEncoded-if type 88 _ _
                    (λ k. IsEncoded-sized type 22 _ k (λ h. header_next p a _ (omega arith) (
                      number_next 10 8 p _ a (omega arith)
                        (number_next 18 4 p [] a (omega arith) (drop_all p 22 h)))))
                    (IsEncoded-if type 68 _ _
                      (λ k. IsEncoded-sized type 18 _ k (λ h.
                        header_next p a _ (omega arith)
                          (number_next 10 8 p [] a (omega arith) (drop_all p 18 h))))
                      (IsEncoded-if type 85 _ _
                        (λ k. IsEncoded-sized type 34 _ k (encode-decode_order_replace p a))
                        (IsEncoded-if type 84 _ _
                          (λ k. IsEncoded-sized type 4 _ k (λ h.
                            sym (append-nil _)
                            ∙ number_next 0 4 p [] a (omega arith) (drop_all p 4 h)))
                          tt)))))))))

-- A message that `decodeMessage` returns from a payload of bytes is of the kind of the type byte,
-- and its fields, written one after the other as the format lists them, numbers with the highest
-- byte first, are the payload again.
pub encode-decode_message :
    (type : ℕ) (p : List ℕ) (m : ItchMessage)
    → All (λ b. b < 256) p
    → decode_message type p ≡ some m
    → (type_of m ≡ type) × (encode m ≡ p)
encode-decode_message type p m a e =
    subst (IsEncoded p a type) e (decode_message-IsEncoded p a type)
