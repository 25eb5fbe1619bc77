-- ===== src/Feed/Parser.antt =====
-- `ItchParser` of src/feed/itch/parser.cpp: frames of a two-byte length, a type and a payload.
use titan_engine.Prelude.{
  ℕ, zero, suc, ◌+◌, ◌*◌, ◌-◌, ◌≡◌, Bool, true, false, ◌||◌, List, [], ◌∷◌, ◌++◌, Option, none,
  some, ltb, ◌==◌, if◌then◌else◌, length, take, drop,
}
use titan_engine.Feed.Messages.{ItchMessage}
use titan_engine.Feed.Decoder.{decode_message}
pub mod Chunks

-- `message` is `none` where `ok` is false.
pub record ItchParseResult : Type 0 where
  pub raw_type : ℕ
  pub message : Option ItchMessage

pub record ItchParser : Type 0 where
  pub buffer : List ℕ
  pub messages_decoded : ℕ
  pub messages_skipped : ℕ

abbrev pub max_message_size : ℕ
max_message_size = 8192

-- What a round of the loop of `feed` meets at the offset: too few bytes, a length to pass over
-- with the bytes behind it, or a message with the bytes behind it.
pub data Round : Type 0 where
  wait : Round
  skip : List ℕ → Round
  frame : (type : ℕ) (payload rest : List ℕ) → Round

unfoldable pub next : List ℕ → Round
next [] = wait
next (h ∷ []) = wait
next (h ∷ l ∷ bs) =
    let n = h * 256 + l in
    if n == 0 || ltb max_message_size n
    then skip bs
    else if ltb (length bs) n
    then wait
    else elim bs [ [] ↦ wait | type ∷ r ↦ frame type (take (n - 1) r) (drop (n - 1) r) ]

abbrev pub skipped : List ℕ → ItchParser → ItchParser
skipped rest p = record p { buffer = rest; messages_skipped = p.messages_skipped + 1 }

abbrev pub result : ℕ → List ℕ → ItchParseResult
result type payload = record { raw_type = type; message = decode_message type payload }

-- A message counts as decoded or as skipped.
abbrev pub counted : Option ItchMessage → List ℕ → ItchParser → ItchParser
counted none rest p = skipped rest p
counted (some m) rest p = record p { buffer = rest; messages_decoded = p.messages_decoded + 1 }

abbrev pub with_result :
    ItchParseResult
    → Option (ItchParser × List ItchParseResult)
    → Option (ItchParser × List ItchParseResult)
with_result r none = none
with_result r (some (p, rs)) = some (p, r ∷ rs)

-- The loop of `feed`; the buffer is what stands behind the offset. `none` is a loop that has not
-- ended.
unfoldable pub parse : ℕ → ItchParser → Option (ItchParser × List ItchParseResult)
parse zero p = none
parse (suc fuel) p = elim (next p.buffer) [
  | wait ↦ some (p, [])
  | skip rest ↦ parse fuel (skipped rest p)
  | frame type payload rest ↦
      with_result (result type payload) (parse fuel (counted (decode_message type payload) rest p))
]

unfoldable pub feed : List ℕ → ItchParser → Option (ItchParser × List ItchParseResult)
unfolding parse
feed data_ p =
    let buffer = p.buffer ++ data_ in parse (length buffer + 1) (record p { buffer = buffer })

unfoldable pub reset : ItchParser → ItchParser
reset p = record { buffer = []; messages_decoded = 0; messages_skipped = 0 }
