-- ===== src/Feed/Parser/Chunks.antt =====
-- The results of `feed` do not depend on how the stream is cut.
use titan_engine.Prelude.{
  ℕ, zero, suc, ◌+◌, ◌*◌, ◌-◌, ◌<◌, ◌≤◌, ◌≡◌, refl, sym, ap, ◌∙◌, false, ◌||◌, List, [], ◌∷◌, ◌++◌,
  append_assoc, Option, none, some, ltb, ◌==◌, length, length-drop, length-append, take-append,
  drop-append, arith, Bool-cases, inl, inr, ◌⊎◌, subst,
}
use titan_engine.Feed.Messages.{ItchMessage}
use titan_engine.Feed.Decoder.{decode_message}
use titan_engine.Feed.Parser.{
  ItchParseResult, ItchParser, Round, wait, skip, frame, next, skipped, result, counted,
  with_result, parse, feed, max_message_size,
}

-- A round leaves fewer bytes.
abbrev IsShorter : ℕ → Round → Type 0
IsShorter n wait = Unit
IsShorter n (skip rest) = length rest < n
IsShorter n (frame type payload rest) = length rest < n

-- More bytes change a round only where it waits.
abbrev extended : List ℕ → List ℕ → Round → Round
extended xs ys wait = next (xs ++ ys)
extended xs ys (skip rest) = skip (rest ++ ys)
extended xs ys (frame type payload rest) = frame type payload (rest ++ ys)

next-IsShorter : (xs : List ℕ) → IsShorter (length xs) (next xs)
unfolding next
next-IsShorter [] = tt
next-IsShorter (h ∷ []) = tt
next-IsShorter (h ∷ l ∷ []) = ground arith
next-IsShorter (h ∷ l ∷ t ∷ r) = ground (arith, length-drop (h * 256 + l - 1) r)

shorter : {r : Round} (p : ItchParser) → next p.buffer ≡ r → IsShorter (length p.buffer) r
shorter p e = subst (IsShorter (length p.buffer)) e (next-IsShorter p.buffer)

next-append : (xs ys : List ℕ) → next (xs ++ ys) ≡ extended xs ys (next xs)
unfolding next
next-append [] ys = refl
next-append (h ∷ []) ys = refl
next-append (h ∷ l ∷ []) ys = ground arith
next-append (h ∷ l ∷ t ∷ r) ys =
    let n = h * 256 + l in
    elim (Bool-cases (n == 0 || ltb max_message_size n)) [
      | inl e ↦ rw e refl
      | inr e ↦ elim (Bool-cases (ltb (suc (length r)) n)) [
        | inl f ↦ rw (e, f) (rw e refl)
        | inr f ↦
            let whole : n - 1 ≤ length r = ground arith in
            let more : ltb (suc (length (r ++ ys))) n ≡ false =
              ground (arith, length-append r ys) in
            rw (e, f, more, take-append (n - 1) r ys whole, drop-append (n - 1) r ys whole) refl
      ]
    ]

Round-cases :
    (r : Round)
    → (r ≡ wait)
      ⊎ ((rest : List ℕ) × (r ≡ skip rest))
      ⊎ ((type : ℕ) × (payload : List ℕ) × (rest : List ℕ) × (r ≡ frame type payload rest))
Round-cases wait = inl refl
Round-cases (skip rest) = inr (inl (rest, refl))
Round-cases (frame type payload rest) = inr (inr (type, payload, rest, refl))

-- The parser with more bytes behind its buffer.
abbrev pub received : List ℕ → ItchParser → ItchParser
received ys p = record p { buffer = p.buffer ++ ys }

abbrev pub after :
    List ItchParseResult
    → Option (ItchParser × List ItchParseResult)
    → Option (ItchParser × List ItchParseResult)
after rs none = none
after rs (some (p, us)) = some (p, rs ++ us)

buffer-counted :
    (m : Option ItchMessage) (rest : List ℕ) (p : ItchParser) → (counted m rest p).buffer ≡ rest
buffer-counted none rest p = refl
buffer-counted (some m) rest p = refl

counted-received :
    (m : Option ItchMessage) (rest ys : List ℕ) (p : ItchParser)
    → counted m (rest ++ ys) (received ys p) ≡ received ys (counted m rest p)
counted-received none rest ys p = refl
counted-received (some m) rest ys p = refl

with_result-after :
    (r : ItchParseResult) (rs : List ItchParseResult)
    (o : Option (ItchParser × List ItchParseResult))
    → with_result r (after rs o) ≡ after (r ∷ rs) o
with_result-after r rs none = refl
with_result-after r rs (some (p, us)) = refl

after-nil : (o : Option (ItchParser × List ItchParseResult)) → after [] o ≡ o
after-nil none = refl
after-nil (some (p, us)) = refl

-- Any fuel above the size of the buffer gives the same.
parse-fuel :
    (n m : ℕ) (p : ItchParser) → length p.buffer < n → length p.buffer < m → parse n p ≡ parse m p
unfolding parse
parse-fuel zero m p h k = absurd (omega arith)
parse-fuel (suc n) zero p h k = absurd (omega arith)
parse-fuel (suc n) (suc m) p h k = elim (Round-cases (next p.buffer)) [
  | inl e ↦ rw (parse, e) refl
  | inr (inl (rest, e)) ↦
      let short : length rest < length p.buffer = shorter p e in
      rw (parse, e) (parse-fuel n m (skipped rest p) (omega (arith, short)) (omega (arith, short)))
  | inr (inr (type, payload, rest, e)) ↦
      let short : length rest < length p.buffer = shorter p e in
      let p' = counted (decode_message type payload) rest p in
      let b : length p'.buffer ≡ length rest =
        ap length (buffer-counted (decode_message type payload) rest p) in
      rw (parse, e)
        (ap (with_result (result type payload))
          (parse-fuel n m p' (omega (arith, short, b)) (omega (arith, short, b))))
]

-- A parser that has met every byte it can, and what it does when more arrive.
record IsParsed (p p' : ItchParser) (rs : List ItchParseResult) : Type 0 where
  waits : next p'.buffer ≡ wait
  bounded : length p'.buffer ≤ length p.buffer
  more :
      (ys : List ℕ) (m : ℕ)
      → length p.buffer + length ys < m
      → parse m (received ys p) ≡ after rs (parse m (received ys p'))

module _ (p p' : ItchParser) where
  skip-more :
      (rest : List ℕ) (rs : List ItchParseResult)
      → next p.buffer ≡ skip rest
      → IsParsed (skipped rest p) p' rs
      → (ys : List ℕ) (m : ℕ) → length p.buffer + length ys < m
      → parse m (received ys p) ≡ after rs (parse m (received ys p'))
  unfolding parse
  skip-more rest rs e ok ys zero l = absurd (omega arith)
  skip-more rest rs e ok ys (suc k) l =
      let short : length rest < length p.buffer = shorter p e in
      let step : next (p.buffer ++ ys) ≡ skip (rest ++ ys) =
        next-append p.buffer ys ∙ ap (extended p.buffer ys) e in
      let small = length-append p'.buffer ys in
      let first : parse (suc k) (received ys p) ≡ parse k (received ys (skipped rest p)) =
        rw (parse, step) refl in
      first
      ∙ ok.more ys k (omega (arith, short))
      ∙ ap (after rs) (
          parse-fuel k (suc k) (received ys p') (omega (arith, short, small, ok.bounded))
            (omega (arith, short, small, ok.bounded)))

  frame-more :
      (type : ℕ) (payload rest : List ℕ) (rs : List ItchParseResult)
      → next p.buffer ≡ frame type payload rest
      → IsParsed (counted (decode_message type payload) rest p) p' rs
      → (ys : List ℕ) (m : ℕ) → length p.buffer + length ys < m
      → parse m (received ys p) ≡ after (result type payload ∷ rs) (parse m (received ys p'))
  unfolding parse
  frame-more type payload rest rs e ok ys zero l = absurd (omega arith)
  frame-more type payload rest rs e ok ys (suc k) l =
      let msg = decode_message type payload in
      let short : length rest < length p.buffer = shorter p e in
      let b : length (counted msg rest p).buffer ≡ length rest =
        ap length (buffer-counted msg rest p) in
      let step : next (p.buffer ++ ys) ≡ frame type payload (rest ++ ys) =
        next-append p.buffer ys ∙ ap (extended p.buffer ys) e in
      let small = length-append p'.buffer ys in
      let first : parse (suc k) (received ys p)
          ≡ with_result (result type payload) (parse k (received ys (counted msg rest p))) =
        rw (parse, step, counted-received msg rest ys p) refl in
      first
      ∙ ap (with_result (result type payload)) (ok.more ys k (omega (arith, short, b)))
      ∙ with_result-after (result type payload) rs (parse k (received ys p'))
      ∙ ap (after (result type payload ∷ rs)) (
          parse-fuel k (suc k) (received ys p') (omega (arith, short, b, small, ok.bounded))
            (omega (arith, short, b, small, ok.bounded)))

parse-IsParsed :
    (n : ℕ) (p : ItchParser)
    → length p.buffer < n
    → (p' : ItchParser) × (rs : List ItchParseResult) × (parse n p ≡ some (p', rs))
      × IsParsed p p' rs
unfolding parse
parse-IsParsed zero p h = absurd (omega arith)
parse-IsParsed (suc n) p h = elim (Round-cases (next p.buffer)) [
  | inl e ↦ (
    p,
    [],
    rw (parse, e) refl,
    record {
      waits = e;
      bounded = omega arith;
      more = λ ys m l. sym (after-nil (parse m (received ys p)));
    },
  )
  | inr (inl (rest, e)) ↦
      let short : length rest < length p.buffer = shorter p e in
      let (p', rs, run, ok) = parse-IsParsed n (skipped rest p) (omega (arith, short)) in
      (
        p',
        rs,
        rw (parse, e) run,
        record {
          waits = ok.waits;
          bounded = omega (arith, short, ok.bounded);
          more = skip-more p p' rest rs e ok;
        },
      )
  | inr (inr (type, payload, rest, e)) ↦
      let short : length rest < length p.buffer = shorter p e in
      let msg = decode_message type payload in
      let b : length (counted msg rest p).buffer ≡ length rest =
        ap length (buffer-counted msg rest p) in
      let (p', rs, run, ok) = parse-IsParsed n (counted msg rest p) (omega (arith, short, b)) in
      (
        p',
        result type payload ∷ rs,
        rw (parse, e, run) refl,
        record {
          waits = ok.waits;
          bounded = omega (arith, short, b, ok.bounded);
          more = frame-more p p' type payload rest rs e ok;
        },
      )
]

-- `ItchParser::feed` ends for every input, leaves a buffer at which its loop waits for more
-- bytes, and holds no more bytes than it held and was given.
pub feed-total :
    (xs : List ℕ) (p : ItchParser)
    → (p' : ItchParser) × (rs : List ItchParseResult) × (feed xs p ≡ some (p', rs))
      × (next p'.buffer ≡ wait)
      × (length p'.buffer ≤ length p.buffer + length xs)
unfolding feed
feed-total xs p =
    let (p', rs, run, ok) =
      parse-IsParsed (length (p.buffer ++ xs) + 1) (received xs p) (omega arith) in
    (p', rs, run, ok.waits, omega (arith, ok.bounded, length-append p.buffer xs))

-- `ItchParser::feed`, called on two pieces of a stream one after the other, ends each time,
-- returns together the results of one call on the whole, and leaves the same parser as that call.
pub feed-append :
    (xs ys : List ℕ) (p : ItchParser)
    → (p₁ p₂ : ItchParser) × (rs us : List ItchParseResult) × (feed xs p ≡ some (p₁, rs))
      × (feed ys p₁ ≡ some (p₂, us))
      × (feed (xs ++ ys) p ≡ some (p₂, rs ++ us))
unfolding feed
feed-append xs ys p =
    let (p₁, rs, run₁, ok₁) =
      parse-IsParsed (length (p.buffer ++ xs) + 1) (received xs p) (omega arith) in
    let (p₂, us, run₂, _) =
      parse-IsParsed (length (p₁.buffer ++ ys) + 1) (received ys p₁) (omega arith) in
    let m = length ((p.buffer ++ xs) ++ ys) + 1 in
    let whole : parse m (received ys (received xs p)) ≡ some (p₂, rs ++ us) =
      ok₁.more ys m (omega (arith, length-append (p.buffer ++ xs) ys))
      ∙ ap (after rs) (
          parse-fuel m (length (p₁.buffer ++ ys) + 1) (received ys p₁)
            (omega
              (arith, ok₁.bounded, length-append (p.buffer ++ xs) ys, length-append p₁.buffer ys))
            (omega arith)
          ∙ run₂) in
    (
      p₁,
      p₂,
      rs,
      us,
      run₁,
      run₂,
      subst (λ b. parse (length b + 1) (record p { buffer = b }) ≡ some (p₂, rs ++ us))
          (append_assoc p.buffer xs ys) whole,
    )
