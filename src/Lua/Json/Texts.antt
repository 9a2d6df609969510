-- ===== src/Lua/Json/Texts.antt =====
-- engine.rs: reading back the texts and the numbers that `lua_value_to_json` writes.
use dgsw_class_pg_proxy.Prelude.{
  ℕ, zero, suc, ◌+◌, ◌/◌, ◌%◌, ◌≡◌, refl, ap, Bool, true, false, not, ◌&&◌, inl, inr, none, some,
  [], ◌∷◌, ◌++◌, All, all, leb, ltb, ◌==◌, Bool-cases, arith,
}
use dgsw_class_pg_proxy.Prelude.Text.{Bytes, decimal, decimal_from}
use dgsw_class_pg_proxy.Lua.Json.{ℤ, pos, negsuc, escape, integer_text}
use dgsw_class_pg_proxy.Lua.Json.Reader.{
  num, cons_first, read_chars, is_digit, is_number_char, unsigned, signed, is_number, span_number,
  read_number,
}

-- Neither a backslash nor a control character.
abbrev pub is_plain : ℕ → Bool
is_plain c = leb 0x20 c && not (c == b'\\')

pub read_chars-escape :
    (s rest : Bytes)
    → All (λ c. is_plain c ≡ true) s
    → read_chars (escape s ++ (b'"' ∷ rest)) ≡ some (s, rest)
unfolding escape read_chars
read_chars-escape [] rest h = refl
read_chars-escape (c ∷ s) rest (plain, h) = elim (Bool-cases (c == b'"')) [
  | inl quote ↦
      let same : c ≡ b'"' = ground arith in
      rw same (ap (cons_first b'"') (read_chars-escape s rest h))
  | inr other ↦
      let slash : (c == b'\\') ≡ false = ground arith in
      let control : ltb c 0x20 ≡ false = ground arith in
      rw other (rw (other, slash, control) (ap (cons_first c) (read_chars-escape s rest h)))
]

-- A backslash is written as it is, so a text that ends in one, and is plain up to there, runs into
-- the quote that should close it: what is written has no end.
read_chars-backslash :
    (s : Bytes)
    → All (λ c. is_plain c ≡ true) s
    → read_chars (escape (s ++ b'\\' ∷ []) ++ (b'"' ∷ [])) ≡ none
unfolding escape read_chars
read_chars-backslash [] h = refl
read_chars-backslash (c ∷ s) (plain, h) = elim (Bool-cases (c == b'"')) [
  | inl quote ↦
      let same : c ≡ b'"' = ground arith in
      rw same (ap (cons_first b'"') (read_chars-backslash s h))
  | inr other ↦
      let slash : (c == b'\\') ≡ false = ground arith in
      let control : ltb c 0x20 ≡ false = ground arith in
      rw other (rw (other, slash, control) (ap (cons_first c) (read_chars-backslash s h)))
]

all-append :
    (p : ℕ → Bool) (xs ys : Bytes) → all p xs ≡ true → all p ys ≡ true → all p (xs ++ ys) ≡ true
all-append p [] ys h k = k
all-append p (x ∷ xs) ys h k = ground (arith, all-append p xs ys)

decimal_from-digits : (fuel n : ℕ) → all is_digit (decimal_from fuel n) ≡ true
unfolding decimal_from
decimal_from-digits zero n = refl
decimal_from-digits (suc fuel) n = elim (Bool-cases (ltb n 10)) [
  | inl small ↦ rw small (ground arith)
  | inr big ↦ rw big (
      all-append is_digit (decimal_from fuel (n / 10)) ((48 + n % 10) ∷ [])
        (decimal_from-digits fuel (n / 10)) (ground arith))
]

append_last : (xs : Bytes) (x : ℕ) → (c : ℕ) × (cs : Bytes) × (xs ++ x ∷ [] ≡ c ∷ cs)
append_last [] x = (x, [], refl)
append_last (y ∷ xs) x = (y, xs ++ x ∷ [], refl)

-- The digits of a number: there is one at least.
decimal-cons : (n : ℕ) → (c : ℕ) × (cs : Bytes) × (decimal n ≡ c ∷ cs)
unfolding decimal decimal_from
decimal-cons n = elim (Bool-cases (ltb n 10)) [
  | inl small ↦ (48 + n, [], rw small)
  | inr big ↦ rw big (append_last (decimal_from n (n / 10)) (48 + n % 10))
]

unsigned_digits : (cs : Bytes) → all is_digit cs ≡ true → unsigned true cs ≡ true
unfolding unsigned
unsigned_digits [] h = refl
unsigned_digits (c ∷ cs) h = ground (arith, unsigned_digits cs)

digits_are_number_chars : (cs : Bytes) → all is_digit cs ≡ true → all is_number_char cs ≡ true
digits_are_number_chars [] h = refl
digits_are_number_chars (c ∷ cs) h = ground (arith, digits_are_number_chars cs)

unsigned-decimal : (n : ℕ) → (all is_digit (decimal n) ≡ true) × (unsigned false (decimal n) ≡ true)
unfolding unsigned
unsigned-decimal n =
    let (c, cs, e) = decimal-cons n in
    let digits : all is_digit (decimal n) ≡ true =
      unfold decimal in decimal_from-digits (suc n) n in
    let here : is_digit c && all is_digit cs ≡ true = rw e at digits in
    let rest = unsigned_digits cs in (digits, rw e (ground arith))

both : (a b : Bool) → a ≡ true → b ≡ true → (a && b) ≡ true
both a b h k = ground arith

unsigned-is_number :
    (c : ℕ) (cs : Bytes)
    → is_digit c && all is_digit cs ≡ true
    → unsigned false (c ∷ cs) ≡ true
    → is_number_char c && all is_number_char cs ≡ true
    → is_number (c ∷ cs) ≡ true
unfolding signed
unsigned-is_number c cs digits ok chars =
    let minus : (c == b'-') ≡ false = ground (arith, digits) in
    both (all is_number_char (c ∷ cs)) (signed (c ∷ cs)) chars (rw minus ok)

pub is_number-integer_text : (i : ℤ) → is_number (integer_text i) ≡ true
unfolding integer_text signed
is_number-integer_text (pos n) =
    let (digits, ok) = unsigned-decimal n in
    let (c, cs, e) = decimal-cons n in
    let chars = digits_are_number_chars (decimal n) digits in
    let digits' : is_digit c && all is_digit cs ≡ true = rw e at digits in
    let ok' : unsigned false (c ∷ cs) ≡ true = rw e at ok in
    let chars' : is_number_char c && all is_number_char cs ≡ true = rw e at chars in
    rw e (unsigned-is_number c cs digits' ok' chars')
is_number-integer_text (negsuc n) =
    let (digits, ok) = unsigned-decimal (n + 1) in
    ground (arith, digits_are_number_chars (decimal (n + 1)) digits)

-- What follows does not go on with a number.
abbrev pub goes_on : Bytes → Bool
goes_on [] = false
goes_on (c ∷ bs) = is_number_char c

span_number-append :
    (t rest : Bytes)
    → all is_number_char t ≡ true
    → goes_on rest ≡ false
    → span_number (t ++ rest) ≡ (t, rest)
unfolding span_number
span_number-append [] [] h k = refl
span_number-append [] (c ∷ rest) h k = rw k
span_number-append (c ∷ t) rest h k =
    let yes : is_number_char c ≡ true = ground (arith, h) in
    let more : all is_number_char t ≡ true = ground (arith, h) in
    rw yes (rw (span_number-append t rest more k))

pub read_number-append :
    (t rest : Bytes)
    → is_number t ≡ true
    → goes_on rest ≡ false
    → read_number (t ++ rest) ≡ some (num t, rest)
unfolding read_number
read_number-append t rest h k = let e = span_number-append t rest (ground arith) k in rw (e, h)
