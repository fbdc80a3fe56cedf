-- ===== src/Inverter/Parse/Digits.antt =====
-- packages/inverter-monitoring/src/parse.rs: a fixed-width integer field is exactly the decimal
-- digits of its value.
use nixos_test.Prelude.{
  ℕ, zero, suc, ◌+◌, ◌-◌, ◌*◌, ◌/◌, ◌%◌, ◌^◌, ◌<◌, ◌≤◌, ◌≡◌, refl, sym, ap, ◌∙◌, true, ◌&&◌,
  &&-eq_true, Option, some, [], ◌∷◌, Bytes, arith, All, leb, leb→le, le→leb, lt→ltb, ◌==◌, ==→eq,
  eq→==, length, slice,
}
use nixos_test.Prelude.Outcome.{ok, ok_or, >>=-eq-ok, require-eq_ok, ok_or-eq_ok, ok-injective}
use nixos_test.Inverter.Parse.{Std, is_digit, all, number_from, parse_i64, field, integer}
use native.Mathlib.Nat.{
  pow-suc, one-le-pow, mod-lt, mod-eq_of_lt, mul-add-mod_self_right, div-add-mod', div-eq_of_lt-le,
  add-mul, pow-le-pow_right, mul-le-mul_right, div-lt_iff_lt-mul,
}

-- The decimal digits of a number in a field of a width, an independent description.
unfoldable pub digits : ℕ → ℕ → Bytes
digits zero n = []
digits (suc width) n = (48 + n / 10 ^ width) ∷ digits width (n % 10 ^ width)

value : Bytes → ℕ
value [] = 0
value (b ∷ bytes) = (b - 48) * 10 ^ length bytes + value bytes

positive : (k : ℕ) → 0 < 10 ^ k
positive k = omega (arith, one-le-pow k 10)

number_from-value :
    (acc : ℕ) (bytes : Bytes) → number_from acc bytes ≡ acc * 10 ^ length bytes + value bytes
unfolding number_from value
number_from-value acc [] = omega arith
number_from-value acc (b ∷ bytes) =
    rw (number_from-value (acc * 10 + (b - 48)) bytes, pow-suc 10 (length bytes)) (omega arith)

value-bound : (bytes : Bytes) → all is_digit bytes ≡ true → value bytes < 10 ^ length bytes
unfolding value
value-bound [] h = omega arith
value-bound (b ∷ bytes) h =
    let (here, rest) = &&-eq_true (is_digit b) _ h in
    let (low, high) = &&-eq_true (leb 48 b) _ here in
    let most : (b - 48) * 10 ^ length bytes ≤ 9 * 10 ^ length bytes =
      mul-le-mul_right (10 ^ length bytes) (omega (arith, leb→le b 57 high)) in
    omega (arith, value-bound bytes rest, most, pow-suc 10 (length bytes))

quotient : (d p v : ℕ) → v < p → (d * p + v) / p ≡ d
quotient d p v h = div-eq_of_lt-le p (omega arith) (rw (add-mul d 1 p) (omega arith))

digits-value :
    (bytes : Bytes) → all is_digit bytes ≡ true → digits (length bytes) (value bytes) ≡ bytes
unfolding value digits
digits-value [] h = refl
digits-value (b ∷ bytes) h =
    let (here, rest) = &&-eq_true (is_digit b) _ h in
    let (low, high) = &&-eq_true (leb 48 b) _ here in
    let bound = value-bound bytes rest in
    rw
      (
        mul-add-mod_self_right (b - 48) (10 ^ length bytes) (value bytes),
        mod-eq_of_lt bound,
        digits-value bytes rest,
        quotient (b - 48) (10 ^ length bytes) (value bytes) bound,
      )
      (let e : 48 + (b - 48) ≡ b = omega (arith, leb→le 48 b low) in rw e refl)

length-digits : (width n : ℕ) → length (digits width n) ≡ width
unfolding digits
length-digits zero n = refl
length-digits (suc width) n = ap suc (length-digits width (n % 10 ^ width))

value-digits : (width n : ℕ) → n < 10 ^ width → value (digits width n) ≡ n
unfolding value digits
value-digits zero n h = omega arith
value-digits (suc width) n h =
    let e : 48 + n / 10 ^ width - 48 ≡ n / 10 ^ width = omega arith in
    rw
      (
        e,
        length-digits width (n % 10 ^ width),
        value-digits width (n % 10 ^ width) (mod-lt n (positive width)),
      )
      (div-add-mod' n (10 ^ width))

digits-all : (width n : ℕ) → n < 10 ^ width → all is_digit (digits width n) ≡ true
unfolding digits
digits-all zero n h = refl
digits-all (suc width) n h =
    let few : n / 10 ^ width < 10 =
      (div-lt_iff_lt-mul (positive width)).1 (omega (arith, pow-suc 10 width)) in
    rw
      (
        le→leb 48 (48 + n / 10 ^ width) (omega arith),
        le→leb (48 + n / 10 ^ width) 57 (omega (arith, few)),
      )
      (digits-all width (n % 10 ^ width) (mod-lt n (positive width)))

all-ascii : (bytes : Bytes) → all is_digit bytes ≡ true → All (λ b. b < 128) bytes
all-ascii [] h = tt
all-ascii (b ∷ bytes) h =
    let (here, rest) = &&-eq_true (is_digit b) _ h in
    let (low, high) = &&-eq_true (leb 48 b) _ here in
    (omega (arith, leb→le b 57 high), all-ascii bytes rest)

-- A text of one to eighteen digits is within `i64`.
parse_i64-value :
    (bytes : Bytes)
    → all is_digit bytes ≡ true
    → 0 < length bytes
    → length bytes ≤ 18
    → parse_i64 bytes ≡ some (value bytes)
unfolding parse_i64
parse_i64-value [] h k m = elim k [ ]
parse_i64-value (b ∷ bytes) h k m =
    let n : number_from 0 (b ∷ bytes) ≡ value (b ∷ bytes) =
      rw (number_from-value 0 (b ∷ bytes)) (omega arith) in
    let small : value (b ∷ bytes) < 2 ^ 63 =
      omega (arith, value-bound (b ∷ bytes) h, pow-le-pow_right {n = 10} (omega arith) m) in
    rw (n, lt→ltb (value (b ∷ bytes)) (2 ^ 63) small) refl

some-injective : {m n : ℕ} → ◌≡◌ {A = Option ℕ} (some m) (some n) → m ≡ n
some-injective h = cc h

module _ (std : Std) where
  open std use {is_utf8, is_utf8_ascii}

  -- For a width from 1 to 18, an integer that is read from a field is below 10 to the width, and the
  -- field is its decimal digits, padded with zeros to the width.
  pub integer_sound :
      (payload : Bytes) (offset width : ℕ) {n : ℕ}
      → 0 < width
      → width ≤ 18
      → integer std payload offset width ≡ ok n
      → (n < 10 ^ width) × (slice payload offset (offset + width) ≡ some (digits width n))
  unfolding integer field
  integer_sound payload offset width {n = n} wide narrow e =
      let (text, got, e1) = >>=-eq-ok (field std payload offset width) _ e in
      let (raw, cut, e2) = >>=-eq-ok (ok_or (slice payload offset (offset + width)) _) _ got in
      let (utf8, e3) = require-eq_ok (is_utf8 raw) _ e2 in
      let same : raw ≡ text = ok-injective raw text e3 in
      let (shape, e4) = require-eq_ok (length text == width && all is_digit text) _ e1 in
      let (size, digital) = &&-eq_true (length text == width) _ shape in
      let full : length text ≡ width = ==→eq (length text) width size in
      let number = ok_or-eq_ok (parse_i64 text) _ e4 in
      let parsed = parse_i64-value text digital (omega (arith, full)) (omega (arith, full)) in
      let is_value : n ≡ value text = some-injective (sym number ∙ parsed) in
      let spelled : digits width n ≡ text = rw (is_value, sym full) (digits-value text digital) in
      (
        rw (is_value, sym full) (value-bound text digital),
        rw spelled (ok_or-eq_ok (slice payload offset (offset + width)) _ cut ∙ ap some same),
      )

  -- For a width from 1 to 18, a field that holds the decimal digits of a number below 10 to the width
  -- is read as that number.
  pub integer-digits :
      (payload : Bytes) (offset width n : ℕ)
      → 0 < width
      → width ≤ 18
      → n < 10 ^ width
      → slice payload offset (offset + width) ≡ some (digits width n)
      → integer std payload offset width ≡ ok n
  unfolding integer field
  integer-digits payload offset width n wide narrow small e =
      let digital = digits-all width n small in
      let full = length-digits width n in
      rw
        (
          e,
          is_utf8_ascii (digits width n) (all-ascii (digits width n) digital),
          eq→== (length (digits width n)) width full,
          digital,
          parse_i64-value (digits width n) digital (omega (arith, full)) (omega (arith, full)),
          value-digits width n small,
        )
        refl
