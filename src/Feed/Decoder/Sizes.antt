-- ===== src/Feed/Decoder/Sizes.antt =====
-- Which payloads `decodeMessage` takes.
use titan_engine.Prelude.{
  ℕ, ◌≡◌, refl, Bool, true, false, List, [], ◌∷◌, Option, none, some, ◌==◌, length, arith,
  Bool-cases, inl, inr, nat_eq,
}
use titan_engine.Prelude.Assoc.{lookup}
use titan_engine.Feed.Messages.{ItchMessage}
use titan_engine.Feed.Decoder.{decode_message, sized}

-- The payload sizes of the format, by type byte.
abbrev pub wire_sizes : List (ℕ × ℕ)
wire_sizes =
    (83, 11)
    ∷ (82, 38)
    ∷ (65, 35)
    ∷ (70, 39)
    ∷ (69, 30)
    ∷ (67, 35)
    ∷ (88, 22)
    ∷ (68, 18)
    ∷ (85, 34)
    ∷ (84, 4)
    ∷ []

abbrev pub is_decoded : Option ItchMessage → Bool
is_decoded none = false
is_decoded (some m) = true

abbrev pub fits : Option ℕ → ℕ → Bool
fits none n = false
fits (some k) n = n == k

is_decoded-sized :
    (n : ℕ) (p : List ℕ) (m : ItchMessage) → is_decoded (sized n p m) ≡ (length p == n)
is_decoded-sized n p m = elim (Bool-cases (length p == n)) [ inl e ↦ rw e refl | inr e ↦ rw e refl ]

-- `decodeMessage` decodes a payload exactly when its type is one of the ten known ones and its
-- size is the one that the table of the format gives for the type.
pub is_decoded-decode_message :
    (type : ℕ) (p : List ℕ)
    → is_decoded (decode_message type p) ≡ fits (lookup type wire_sizes) (length p)
unfolding decode_message lookup
is_decoded-decode_message type p = ground arith
