-- ===== src/Sfs/Bytes.antt =====
-- The bytes of a block and its words.
use cse.Base.{
  ℕ, zero, suc, ◌+◌, ◌*◌, ◌/◌, ◌%◌, ◌^◌, ◌<◌, ◌≤◌, ◌≡◌, refl, sym, ◌∙◌, ap, List, [], ◌∷◌, ◌++◌,
  arith, length, take, drop,
}
use cse.Sfs.Io.{bytes_of, words_of}

abbrev pub Octets : List ℕ → Type 0
Octets [] = Unit {0}
Octets (b ∷ bs) = (b < 256) × Octets bs

word_bytes :
    (a b c d : ℕ)
    → a < 256
    → b < 256
    → c < 256
    → d < 256
    → let w = ((a * 2 ^ 8 + b) * 2 ^ 8 + c) * 2 ^ 8 + d in
      (w / 2 ^ 24 % 2 ^ 8 ≡ a)
      × (w / 2 ^ 16 % 2 ^ 8 ≡ b)
      × (w / 2 ^ 8 % 2 ^ 8 ≡ c)
      × (w % 2 ^ 8 ≡ d)
word_bytes a b c d ha hb hc hd = (omega arith, omega arith, omega arith, omega arith)

-- What is written as words is read as the same bytes.
pub bytes_of-words_of :
    (n : ℕ) (bs : List ℕ) → length bs ≡ n * 4 → Octets bs → bytes_of (words_of bs) ≡ bs
bytes_of-words_of zero [] e h = refl
bytes_of-words_of zero (a ∷ bs) e h = absurd (omega (arith, e))
bytes_of-words_of (suc n) (a ∷ b ∷ c ∷ d ∷ bs) e (ha, (hb, (hc, (hd, h)))) =
    let (ea, eb, ec, ed) = word_bytes a b c d ha hb hc hd in
    rw (ea, eb, ec, ed, bytes_of-words_of n bs (omega (arith, e)) h) refl
bytes_of-words_of (suc n) [] e h = absurd (omega (arith, e))
bytes_of-words_of (suc n) (a ∷ []) e h = absurd (omega (arith, e))
bytes_of-words_of (suc n) (a ∷ b ∷ []) e h = absurd (omega (arith, e))
bytes_of-words_of (suc n) (a ∷ b ∷ c ∷ []) e h = absurd (omega (arith, e))

pub Octets-bytes_of : (ws : List ℕ) → Octets (bytes_of ws)
Octets-bytes_of [] = tt
Octets-bytes_of (w ∷ ws) =
    (omega arith, (omega arith, (omega arith, (omega arith, Octets-bytes_of ws))))

pub length-bytes_of : (ws : List ℕ) → length (bytes_of ws) ≡ length ws * 4
length-bytes_of [] = refl
length-bytes_of (w ∷ ws) = omega (arith, length-bytes_of ws)

pub length-words_of : (n : ℕ) (bs : List ℕ) → length bs ≡ n * 4 → length (words_of bs) ≡ n
length-words_of zero [] e = refl
length-words_of zero (a ∷ bs) e = absurd (omega (arith, e))
length-words_of (suc n) (a ∷ b ∷ c ∷ d ∷ bs) e = ap suc (length-words_of n bs (omega (arith, e)))
length-words_of (suc n) [] e = absurd (omega (arith, e))
length-words_of (suc n) (a ∷ []) e = absurd (omega (arith, e))
length-words_of (suc n) (a ∷ b ∷ []) e = absurd (omega (arith, e))
length-words_of (suc n) (a ∷ b ∷ c ∷ []) e = absurd (omega (arith, e))

pub Octets-append : (xs ys : List ℕ) → Octets xs → Octets ys → Octets (xs ++ ys)
Octets-append [] ys hx hy = hy
Octets-append (x ∷ xs) ys (lt, hx) hy = (lt, Octets-append xs ys hx hy)

pub Octets-take : (n : ℕ) (xs : List ℕ) → Octets xs → Octets (take n xs)
Octets-take zero xs h = tt
Octets-take (suc n) [] h = tt
Octets-take (suc n) (x ∷ xs) (lt, h) = (lt, Octets-take n xs h)

pub Octets-drop : (n : ℕ) (xs : List ℕ) → Octets xs → Octets (drop n xs)
Octets-drop zero xs h = h
Octets-drop (suc n) [] h = tt
Octets-drop (suc n) (x ∷ xs) (lt, h) = Octets-drop n xs h

pub take_all : (xs : List ℕ) (n : ℕ) → length xs ≡ n → take n xs ≡ xs
take_all [] zero e = refl
take_all [] (suc n) e = refl
take_all (x ∷ xs) zero e = absurd (omega (arith, e))
take_all (x ∷ xs) (suc n) e = ap (λ l. x ∷ l) (take_all xs n (omega (arith, e)))

pub drop_all : (xs : List ℕ) (n : ℕ) → length xs ≡ n → drop n xs ≡ []
drop_all [] zero e = refl
drop_all [] (suc n) e = refl
drop_all (x ∷ xs) zero e = absurd (omega (arith, e))
drop_all (x ∷ xs) (suc n) e = drop_all xs n (omega (arith, e))

pub take-append : (xs ys : List ℕ) (n : ℕ) → length xs ≡ n → take n (xs ++ ys) ≡ xs
take-append [] ys zero e = refl
take-append [] ys (suc n) e = absurd (omega (arith, e))
take-append (x ∷ xs) ys zero e = absurd (omega (arith, e))
take-append (x ∷ xs) ys (suc n) e = ap (λ l. x ∷ l) (take-append xs ys n (omega (arith, e)))

pub drop-append : (xs ys : List ℕ) (n : ℕ) → length xs ≡ n → drop n (xs ++ ys) ≡ ys
drop-append [] ys zero e = refl
drop-append [] ys (suc n) e = absurd (omega (arith, e))
drop-append (x ∷ xs) ys zero e = absurd (omega (arith, e))
drop-append (x ∷ xs) ys (suc n) e = drop-append xs ys n (omega (arith, e))

drop_nil {ℓ} : {A : Type ℓ} (k : ℕ) → drop {A = A} k [] ≡ []
drop_nil zero = refl
drop_nil (suc k) = refl

pub drop-drop {ℓ} : {A : Type ℓ} (xs : List A) (i j : ℕ) → drop j (drop i xs) ≡ drop (i + j) xs
drop-drop xs zero j = ap (λ k. drop k xs) (omega arith)
drop-drop [] (suc i) j = drop_nil j ∙ sym (drop_nil (suc i + j))
drop-drop (x ∷ xs) (suc i) j =
    let e : suc i + j ≡ suc (i + j) = omega arith in rw e (drop-drop xs i j)

pub drop_past : (xs ys : List ℕ) (m j : ℕ) → length xs ≡ m → drop (m + j) (xs ++ ys) ≡ drop j ys
drop_past xs ys m j e = sym (drop-drop (xs ++ ys) m j) ∙ ap (drop j) (drop-append xs ys m e)

-- A piece before the end of a part is one of the list.
pub take_before {ℓ} :
    {A : Type ℓ} (xs ys : List A) (i n m : ℕ)
    → i + n ≤ m
    → m ≤ length xs
    → take n (drop i (take m xs ++ ys)) ≡ take n (drop i xs)
take_before xs ys i zero m before within = refl
take_before xs ys i (suc n) zero before within = absurd (omega arith)
take_before [] ys i (suc n) (suc m) before within = absurd (omega arith)
take_before (x ∷ xs) ys zero (suc n) (suc m) before within =
    ap (λ l. x ∷ l) (take_before xs ys zero n m (omega arith) (omega arith))
take_before (x ∷ xs) ys (suc i) (suc n) (suc m) before within =
    take_before xs ys i (suc n) m (omega arith) (omega arith)
