-- ===== src/Feed/Decoder/Bytes.antt =====
-- Numbers of more than one byte, and the bytes of a payload one field after the other.
use titan_engine.Prelude.{
  ℕ, zero, suc, ◌+◌, ◌*◌, ◌/◌, ◌%◌, ◌<◌, ◌≤◌, ◌≡◌, refl, sym, ap, ◌∙◌, List, [], ◌∷◌, ◌++◌, take,
  drop, length, All, arith, append_assoc, append-nil,
}
use titan_engine.Feed.Decoder.{read_be, bytes_at}

-- A number in so many bytes, the highest first.
unfoldable pub be : ℕ → ℕ → List ℕ
be zero x = []
be (suc n) x = be n (x / 256) ++ x % 256 ∷ []

pub All-take : (n : ℕ) (xs : List ℕ) → All (λ b. b < 256) xs → All (λ b. b < 256) (take n xs)
All-take zero xs a = tt
All-take (suc n) [] a = tt
All-take (suc n) (x ∷ xs) a = (a.0, All-take n xs a.1)

All-drop : (n : ℕ) (xs : List ℕ) → All (λ b. b < 256) xs → All (λ b. b < 256) (drop n xs)
All-drop zero xs a = a
All-drop (suc n) [] a = tt
All-drop (suc n) (x ∷ xs) a = All-drop n xs a.1

-- Reading goes on from the bytes of the value so far.
be-read_be_from :
    (k v : ℕ) (bs : List ℕ)
    → All (λ b. b < 256) bs
    → be (k + length bs) (read_be v bs) ≡ be k v ++ bs
unfolding read_be be
be-read_be_from k v [] a =
    let size : k + 0 ≡ k = omega arith in ap (λ n. be n v) size ∙ sym (append-nil (be k v))
be-read_be_from k v (b ∷ bs) a =
    let quotient : (v * 256 + b) / 256 ≡ v = omega (arith, a.0) in
    let remainder : (v * 256 + b) % 256 ≡ b = omega (arith, a.0) in
    let size : k + suc (length bs) ≡ suc k + length bs = omega arith in
    ap (λ n. be n (read_be (v * 256 + b) bs)) size
    ∙ be-read_be_from (suc k) (v * 256 + b) bs a.1
    ∙ ap (λ xs. xs ++ bs)
        (ap (λ x. be k x ++ (v * 256 + b) % 256 ∷ []) quotient
          ∙ ap (λ x. be k v ++ x ∷ []) remainder)
    ∙ append_assoc (be k v) (b ∷ []) bs

pub length-bytes_at : (i n : ℕ) (p : List ℕ) → i + n ≤ length p → length (bytes_at i n p) ≡ n
length-bytes_at zero zero p h = refl
length-bytes_at zero (suc n) [] h = absurd (omega arith)
length-bytes_at zero (suc n) (x ∷ p) h = ap suc (length-bytes_at zero n p (omega arith))
length-bytes_at (suc i) n [] h = omega arith
length-bytes_at (suc i) n (x ∷ p) h = length-bytes_at i n p (omega arith)

pub take-drop : (n : ℕ) (p : List ℕ) → take n p ++ drop n p ≡ p
take-drop zero p = refl
take-drop (suc n) [] = refl
take-drop (suc n) (x ∷ p) = ap (λ xs. x ∷ xs) (take-drop n p)

drop-drop : (i n : ℕ) (p : List ℕ) → drop n (drop i p) ≡ drop (i + n) p
drop-drop zero n p = let size : n ≡ 0 + n = omega arith in ap (λ k. drop k p) size
drop-drop (suc i) zero [] = let size : suc i ≡ suc i + 0 = omega arith in ap (λ k. drop k []) size
drop-drop (suc i) (suc n) [] =
    let size : suc (i + suc n) ≡ suc i + suc n = omega arith in ap (λ k. drop k []) size
drop-drop (suc i) n (x ∷ p) =
    let size : suc (i + n) ≡ suc i + n = omega arith in
    drop-drop i n p ∙ ap (λ k. drop k (x ∷ p)) size

pub drop_all : (p : List ℕ) (n : ℕ) → length p ≡ n → [] ≡ drop n p
drop_all [] zero h = refl
drop_all [] (suc n) h = refl
drop_all (x ∷ p) zero h = absurd (omega arith)
drop_all (x ∷ p) (suc n) h = drop_all p n (omega arith)

-- The bytes of a field, and what stands behind them.
pub text_next :
    (i n : ℕ) (p rest : List ℕ) → rest ≡ drop (i + n) p → bytes_at i n p ++ rest ≡ drop i p
text_next i n p rest e =
    ap (λ xs. bytes_at i n p ++ xs) (e ∙ sym (drop-drop i n p)) ∙ take-drop n (drop i p)

pub number_next :
    (i n : ℕ) (p rest : List ℕ)
    → All (λ b. b < 256) p
    → i + n ≤ length p
    → rest ≡ drop (i + n) p
    → be n (read_be 0 (bytes_at i n p)) ++ rest ≡ drop i p
unfolding be
number_next i n p rest a h e =
    let bs = bytes_at i n p in
    let size : n ≡ 0 + length bs = omega (arith, length-bytes_at i n p h) in
    let again : be n (read_be 0 bs) ≡ bs =
      ap (λ k. be k (read_be 0 bs)) size
      ∙ be-read_be_from 0 0 bs (All-take n (drop i p) (All-drop i p a)) in
    ap (λ xs. xs ++ rest) again ∙ text_next i n p rest e
