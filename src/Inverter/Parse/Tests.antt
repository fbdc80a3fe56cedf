-- ===== src/Inverter/Parse/Tests.antt =====
-- packages/inverter-monitoring/src/parse.rs: runs of the parsers, and the theorems at them.
use nixos_test.Prelude.{
  ℕ, ◌+◌, ◌^◌, ◌<◌, ◌≡◌, refl, Bool, true, false, some, List, [], ◌∷◌, ◌++◌, Bytes, arith,
  replicate, length, slice,
}
use nixos_test.Prelude.Outcome.{ok, err}
use nixos_test.Inverter.Parse.{
  Std, bad_separator, expect_len, bit, bit_of, field, integer, number_from, parse_i64,
}
use nixos_test.Inverter.Parse.Status.{parse_qpigs2, check_separators}
use nixos_test.Inverter.Parse.Digits.{digits, integer_sound}
use nixos_test.Inverter.Parse.Warnings.{
  parse_qpiws, print_bits, read_bits, warning_flags, asserted, asserted_from,
}
use nixos_test.Inverter.Parse.Warnings.RoundTrip.{parse_qpiws_sound}
use nixos_test.Inverter.Parse.Identity.{
  parse_identity, IsTrimmed, parse_identity-IsTrimmed, trim_start, trim_end, keep_end, is_empty,
}

-- A decimal is kept as its text.
abbrev texts : Std
texts = record {
  Double = Bytes;
  of_int = λ n. n ∷ [];
  divide = λ a b. a;
  parse_f64 = λ text. some text;
  is_utf8 = λ bytes. true;
  is_utf8_ascii = λ bytes h. refl;
}

abbrev power : Bytes
power = b'0' ∷ b'3' ∷ b'4' ∷ b'0' ∷ []

integer_sound_example : (340 < 10 ^ 4) × (slice power 0 (0 + 4) ≡ some (digits 4 340))
unfolding integer field slice parse_i64 number_from
integer_sound_example = integer_sound texts power 0 4 (omega arith) (omega arith) refl

abbrev one_fault : List Bool
one_fault = false ∷ true ∷ replicate 34 false

parse_qpiws_sound_example :
    (print_bits one_fault ≡ print_bits one_fault)
    × ((print_bits one_fault ≡ print_bits one_fault) × (length one_fault ≡ 36))
unfolding parse_qpiws expect_len read_bits bit bit_of warning_flags
parse_qpiws_sound_example =
    parse_qpiws_sound texts (print_bits one_fault)
      {w = record { raw = print_bits one_fault; bits = one_fault }} refl

asserted-one_fault :
    asserted (record { raw = print_bits one_fault; bits = one_fault }) ≡ (1, "inverter_fault") ∷ []
unfolding asserted asserted_from warning_flags
asserted-one_fault = refl

abbrev trimmed : Bytes
trimmed = b'V' ∷ b' ' ∷ b'M' ∷ []

abbrev padded : Bytes
padded = b' ' ∷ b'V' ∷ b' ' ∷ b'M' ∷ b' ' ∷ []

padded_name : parse_identity padded ≡ ok trimmed
unfolding parse_identity is_empty trim_start trim_end keep_end
padded_name = refl

parse_identity-IsTrimmed_example :
    IsTrimmed trimmed
    × ((m : ℕ) × ((n : ℕ) × (padded ≡ replicate m b' ' ++ (trimmed ++ replicate n b' '))))
unfolding parse_identity is_empty trim_start trim_end keep_end
parse_identity-IsTrimmed_example = parse_identity-IsTrimmed padded refl

moved_separator : parse_qpigs2 texts (replicate 17 b'0') ≡ err (bad_separator 4)
unfolding parse_qpigs2 expect_len check_separators
moved_separator = refl
