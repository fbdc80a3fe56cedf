-- ===== src/Inverter/Parse/Warnings/RoundTrip.antt =====
-- packages/inverter-monitoring/src/parse.rs: the warnings against the characters of their payload.
use nixos_test.Prelude.{
  ℕ, suc, ◌≡◌, refl, sym, ap, ◌∙◌, Bool, true, false, some, List, [], ◌∷◌, ◌++◌, append_assoc,
  Bytes, arith, length, length-append, get_elem?, get_elem?-append, ◌==◌, ==→eq, eq→==, All,
  Bool-cases, inl, inr, ◌<◌,
}
use mathlib.Core.Path.{subst}
use nixos_test.Prelude.Outcome.{ok, >>=-eq-ok, require-eq_ok, ok-injective, ok-ne-err}
use nixos_test.Inverter.Parse.{Std, not_a_bit, bit, bit_of, expect_len}
use nixos_test.Inverter.Parse.Warnings.{
  Qpiws, warning_flags, read_bits, parse_qpiws, print_bits, count_set, asserted_count, asserted,
  asserted_from,
}

abbrev digit : Bool → ℕ
digit true = b'1'
digit false = b'0'

print_bits-cons : (b : Bool) (bits : List Bool) → print_bits (b ∷ bits) ≡ digit b ∷ print_bits bits
print_bits-cons true bits = refl
print_bits-cons false bits = refl

length-print_bits : (bits : List Bool) → length (print_bits bits) ≡ length bits
length-print_bits [] = refl
length-print_bits (true ∷ bits) = ap suc (length-print_bits bits)
length-print_bits (false ∷ bits) = ap suc (length-print_bits bits)

bit-digit :
    (before after : Bytes) (b : Bool) → bit (before ++ (digit b ∷ after)) (length before) ≡ ok b
unfolding bit bit_of
bit-digit before after true = rw (get_elem?-append before b'1' after) refl
bit-digit before after false = rw (get_elem?-append before b'0' after) refl

length-snoc : (before : Bytes) (b : ℕ) → length (before ++ (b ∷ [])) ≡ suc (length before)
length-snoc before b = omega (arith, length-append before (b ∷ []))

read_bits-print_bits :
    (before : Bytes) (bits : List Bool)
    → read_bits (length bits) (before ++ print_bits bits) (length before) ≡ ok bits
unfolding read_bits
read_bits-print_bits before [] = refl
read_bits-print_bits before (b ∷ bits) =
    let rest = read_bits-print_bits (before ++ (digit b ∷ [])) bits in
    rw (print_bits-cons b bits, bit-digit before (print_bits bits) b)
      (let later =
          rw (length-snoc before (digit b), append_assoc before (digit b ∷ []) (print_bits bits)) at
            rest in
        rw later refl)

bit_of_sound : (offset c : ℕ) {b : Bool} → bit_of offset (some c) ≡ ok b → c ≡ digit b
unfolding bit_of
bit_of_sound offset c {b = b} h = elim (Bool-cases (c == b'0')) [
  | inl is_zero ↦
      subst (λ (b : Bool). c ≡ digit b) (ok-injective false b (rw is_zero at h))
        (==→eq c b'0' is_zero)
  | inr other ↦ elim (Bool-cases (c == b'1')) [
    | inl is_one ↦
        subst (λ (b : Bool). c ≡ digit b) (ok-injective true b (rw (other, is_one) at h))
          (==→eq c b'1' is_one)
    | inr neither ↦ absurd (ok-ne-err b (not_a_bit offset c) (sym (rw (other, neither) at h)))
  ]
]

bit_sound :
    (before after : Bytes) (c : ℕ) {b : Bool}
    → bit (before ++ (c ∷ after)) (length before) ≡ ok b
    → c ≡ digit b
unfolding bit
bit_sound before after c h =
    let e = rw (get_elem?-append before c after) at h in bit_of_sound (length before) c e

read_bits_sound :
    (before rest : Bytes) {bits : List Bool}
    → read_bits (length rest) (before ++ rest) (length before) ≡ ok bits
    → rest ≡ print_bits bits
unfolding read_bits
read_bits_sound before [] h = let e = ok-injective [] _ h in ap print_bits e
read_bits_sound before (c ∷ rest) {bits = bits} h =
    let (b, here, h1) = >>=-eq-ok (bit (before ++ (c ∷ rest)) (length before)) _ h in
    let (more, later, h2) =
      >>=-eq-ok (read_bits (length rest) (before ++ (c ∷ rest)) (suc (length before))) _ h1 in
    let later' =
      rw (sym (length-snoc before c), sym (append_assoc before (c ∷ []) rest)) at later in
    rw (bit_sound before rest c here, read_bits_sound (before ++ (c ∷ [])) rest later')
      (sym (print_bits-cons b more) ∙ ap print_bits (ok-injective (b ∷ more) bits h2))

digits-ascii : (bits : List Bool) → All (λ b. b < 128) (print_bits bits)
digits-ascii [] = tt
digits-ascii (true ∷ bits) = (omega arith, digits-ascii bits)
digits-ascii (false ∷ bits) = (omega arith, digits-ascii bits)

module _ (std : Std) where
  open std use {is_utf8, is_utf8_ascii}

  -- Thirty-six bits, sent as the characters `0` and `1`, are read back, with the payload as it is.
  pub parse_qpiws-print_bits :
      (bits : List Bool)
      → length bits ≡ 36
      → parse_qpiws std (print_bits bits) ≡ ok (record { raw = print_bits bits; bits = bits })
  unfolding parse_qpiws expect_len warning_flags
  parse_qpiws-print_bits bits h =
      let read = rw h at (read_bits-print_bits [] bits) in
      rw
        (
          eq→== (length (print_bits bits)) 36 (length-print_bits bits ∙ h),
          read,
          is_utf8_ascii (print_bits bits) (digits-ascii bits),
        )
        refl

  -- A payload that is read as warnings is the characters of the 36 bits, and is kept as it is.
  pub parse_qpiws_sound :
      (payload : Bytes) {w : Qpiws}
      → parse_qpiws std payload ≡ ok w
      → (payload ≡ print_bits w.bits) × ((w.raw ≡ payload) × (length w.bits ≡ 36))
  unfolding parse_qpiws expect_len warning_flags
  parse_qpiws_sound payload {w = w} h =
      let (size, h1) = require-eq_ok (length payload == 36) _ h in
      let long = ==→eq (length payload) 36 size in
      let (bits, read, h2) = >>=-eq-ok (read_bits 36 payload 0) _ h1 in
      let (utf8, h3) = require-eq_ok (is_utf8 payload) _ h2 in
      let same = ok-injective (record { raw = payload; bits = bits }) w h3 in
      let printed = read_bits_sound [] payload (rw (sym long) at read) in
      subst
        (λ (w : Qpiws). (payload ≡ print_bits w.bits) × ((w.raw ≡ payload) × (length w.bits ≡ 36)))
        same (printed, (refl, sym (length-print_bits bits) ∙ (ap length (sym printed) ∙ long)))

asserted_from-count :
    (index : ℕ) (bits : List Bool) → length (asserted_from index bits) ≡ count_set bits
unfolding asserted_from count_set
asserted_from-count index [] = refl
asserted_from-count index (true ∷ bits) = ap suc (asserted_from-count (suc index) bits)
asserted_from-count index (false ∷ bits) = asserted_from-count (suc index) bits

-- The bit of each flag that is listed from an index on.
asserted_from-set :
    (before bits : List Bool)
    → All (λ p. get_elem? (before ++ bits) (p.0) ≡ some true) (asserted_from (length before) bits)
unfolding asserted_from
asserted_from-set before [] = tt
asserted_from-set before (true ∷ bits) =
    let e : length (before ++ (true ∷ [])) ≡ suc (length before) =
      omega (arith, length-append before (true ∷ [])) in
    (
      get_elem?-append before true bits,
      (rw (e, append_assoc before (true ∷ []) bits) at
          (asserted_from-set (before ++ (true ∷ [])) bits)),
    )
asserted_from-set before (false ∷ bits) =
    let e : length (before ++ (false ∷ [])) ≡ suc (length before) =
      omega (arith, length-append before (false ∷ [])) in
    rw (e, append_assoc before (false ∷ []) bits) at
      (asserted_from-set (before ++ (false ∷ [])) bits)

-- As many flags are listed as are counted, and the bit of each one that is listed is set.
pub asserted-asserted_count :
    (w : Qpiws)
    → (length (asserted w) ≡ asserted_count w)
      × All (λ p. get_elem? w.bits (p.0) ≡ some true) (asserted w)
unfolding asserted asserted_count
asserted-asserted_count w = (asserted_from-count 0 w.bits, asserted_from-set [] w.bits)
