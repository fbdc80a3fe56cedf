-- ===== src/Time/Nts/Ends.antt =====
-- packages/time-correction/src/nts.rs: the loops end on every message.
use nixos_test.Prelude.{
  ℕ, zero, suc, ◌+◌, ◌<◌, ◌≡◌, ◌≢◌, refl, ap, Bool, Option, none, some, Bytes, arith, ltb, leb,
  leb→le, ◌==◌, length, slice, be_u16, get_or, Bool-cases, inl, inr,
}
use nixos_test.Prelude.Outcome.{
  Result, ok, err, ◌>>=◌, ok_or, err-injective, >>=-ne-err, require-ne-err, ok_or-ne-err,
}
use nixos_test.Time.Nts
use nixos_test.Time.Nts.Records.{read_record-IsAt}
use Prim.Native.Nat.{bit_and}

u16_at-ne-out_of_fuel :
    (message : Bytes) (offset : ℕ) → Nts.u16_at message offset ≢ err Nts.out_of_fuel
unfolding Nts.u16_at
u16_at-ne-out_of_fuel message offset = elim (Bool-cases (leb (offset + 2) (length message))) [
  | inl fits ↦ rw fits (λ e. cc)
  | inr short ↦ rw short (λ e. cc)
]

read_record-ne-out_of_fuel :
    (message : Bytes) (offset : ℕ) → Nts.read_record message offset ≢ err Nts.out_of_fuel
unfolding Nts.read_record
read_record-ne-out_of_fuel message offset =
    >>=-ne-err (Nts.u16_at message offset) _ (u16_at-ne-out_of_fuel message offset) (λ header.
      >>=-ne-err (Nts.u16_at message (offset + 2)) _ (u16_at-ne-out_of_fuel message (offset + 2))
        (λ size.
          >>=-ne-err (ok_or (slice message (offset + 4) (offset + 4 + size)) _) _
            (ok_or-ne-err (slice message (offset + 4) (offset + 4 + size)) _ (λ e. cc))
            (λ body e. cc)))

complete_from-ne-none :
    (fuel : ℕ) (message : Bytes) (offset : ℕ)
    → length message < offset + fuel
    → 0 < fuel
    → Nts.complete_from fuel message offset ≢ none
unfolding Nts.complete_from
complete_from-ne-none zero message offset h k = elim k [ ]
complete_from-ne-none (suc fuel) message offset h k =
    let header = be_u16 (get_or message offset 0) (get_or message (offset + 1) 0) in
    let size = be_u16 (get_or message (offset + 2) 0) (get_or message (offset + 3) 0) in
    elim (Bool-cases (leb (offset + 4) (length message))) [
      | inr short ↦ rw short (λ e. cc)
      | inl fits ↦ elim (Bool-cases (bit_and header 0x7FFF == 0)) [
        | inl end ↦ rw (fits, end) (λ e. cc)
        | inr more ↦
            let inside = leb→le (offset + 4) (length message) fits in
            rw (fits, more)
              (complete_from-ne-none fuel message (offset + (4 + size)) (omega (arith, h))
                (omega (arith, h, inside)))
      ]
    ]

-- The scan for a terminator ends on every message.
pub response_complete-ne-none : (message : Bytes) → Nts.response_complete message ≢ none
unfolding Nts.response_complete
response_complete-ne-none message =
    complete_from-ne-none (length message + 1) message 0 (omega arith) (omega arith)

-- A chain fails with `e` only if one of its steps does, where the second one may use the first.
read-ne-err {ℓ κ μ} :
    {E : Type κ} {A : Type ℓ} {B : Type μ} (m : Result E A) (f : A → Result E B) {e : E}
    → ¬ (m ≡ err e)
    → ((a : A) → m ≡ ok a → ¬ (f a ≡ err e))
    → ¬ ((m >>= f) ≡ err e)
read-ne-err (ok a) f h k = k a refl
read-ne-err (err d) f h k = λ p. h (ap err (err-injective d _ p))

check_protocol-ne-out_of_fuel : (c : Option ℕ) → Nts.check_protocol c ≢ err Nts.out_of_fuel
unfolding Nts.check_protocol
check_protocol-ne-out_of_fuel none = λ e. cc
check_protocol-ne-out_of_fuel (some n) = elim (Bool-cases (n == 0)) [
  | inl same ↦ rw same (λ e. cc)
  | inr other ↦ rw other (λ e. cc)
]

check_aead-ne-out_of_fuel :
    (c : Option ℕ) (requested : ℕ) → Nts.check_aead c requested ≢ err Nts.out_of_fuel
unfolding Nts.check_aead
check_aead-ne-out_of_fuel none requested = λ e. cc
check_aead-ne-out_of_fuel (some n) requested = elim (Bool-cases (n == requested)) [
  | inl same ↦ rw same (λ e. cc)
  | inr other ↦ rw other (λ e. cc)
]

module _ (is_utf8 : Bytes → Bool) where
  gather-ne-out_of_fuel :
      (r : Nts.Header) (g : Nts.Gathered) → Nts.gather is_utf8 r g ≢ err Nts.out_of_fuel
  unfolding Nts.gather
  gather-ne-out_of_fuel r g = ground arith

  records_from-ne-out_of_fuel :
      (fuel : ℕ) (message : Bytes) (offset : ℕ) (g : Nts.Gathered)
      → length message < offset + fuel
      → 0 < fuel
      → Nts.records_from is_utf8 fuel message offset g ≢ err Nts.out_of_fuel
  unfolding Nts.records_from
  records_from-ne-out_of_fuel zero message offset g h k = elim k [ ]
  records_from-ne-out_of_fuel (suc fuel) message offset g h k =
      elim (Bool-cases (ltb offset (length message))) [
        | inr past ↦ rw past (λ e. cc)
        | inl inside ↦ rw inside (
            read-ne-err (Nts.read_record message offset) _
              (read_record-ne-out_of_fuel message offset)
              (λ r here.
                let (fits, (next, kind)) = read_record-IsAt message offset here in
                elim (Bool-cases (r.kind == 0)) [
                  | inl end ↦ rw end (λ e. cc)
                  | inr more ↦ rw more (
                      >>=-ne-err (Nts.gather is_utf8 r g) _ (gather-ne-out_of_fuel r g) (λ g'.
                        records_from-ne-out_of_fuel fuel message r.next g' (omega (arith, next))
                          (omega (arith, next))))
                ]))
      ]

  -- The parser ends on every message: it never stops for want of rounds.
  pub parse_response_ends :
      (message : Bytes) (requested : ℕ)
      → Nts.parse_response is_utf8 message requested ≢ err Nts.out_of_fuel
  unfolding Nts.parse_response
  parse_response_ends message requested =
      >>=-ne-err (Nts.records_from is_utf8 (length message + 1) message 0 _) _
        (records_from-ne-out_of_fuel (length message + 1) message 0 _ (omega arith) (omega arith))
        (λ read.
          require-ne-err (read.1) _ _ (λ e. cc)
            (>>=-ne-err (Nts.check_protocol (read.0).next_protocol) _
              (check_protocol-ne-out_of_fuel (read.0).next_protocol)
              (λ u.
                >>=-ne-err (Nts.check_aead (read.0).aead requested) _
                  (check_aead-ne-out_of_fuel (read.0).aead requested)
                  (λ v.
                    require-ne-err (Nts.has_cookies (read.0).cookies) _ _ (λ e. cc) (λ e. cc)))))
