-- ===== src/Time/Ntp/Fields.antt =====
-- packages/time-correction/src/ntp.rs: the walk over the extension fields ends, stays within the
-- packet, and finds fields that do not overlap.
use nixos_test.Prelude.{
  ℕ, zero, suc, ◌+◌, ◌-◌, ◌%◌, ◌≤◌, ◌<◌, ◌≡◌, ◌≢◌, refl, false, not, ◌||◌, List, [], ◌∷◌, Bytes,
  arith, ltb, leb, ◌==◌, Bool-cases, inl, inr, length, get_or, be_u16, All, ltb-false→le,
}
use nixos_test.Prelude.Outcome.{ok, err, >>=-eq-ok, >>=-ne-err, rejected-eq_ok, ok-injective}
use nixos_test.Time.Ntp.{out_of_fuel, header_length, Field, fields_from, extension_fields}
use mathlib.Core.Path.{subst}

-- The body of a field lies behind the fixed header and within the packet, and in front of it stand
-- its type and its size.
pub record IsInside (packet : Bytes) (f : Field) : Type 0 where
  pub behind_header : header_length + 4 ≤ f.start
  pub ordered : f.start ≤ f.stop
  pub inside : f.stop ≤ length packet
  pub tagged : f.kind ≡ be_u16 (get_or packet (f.start - 4) 0) (get_or packet (f.start - 3) 0)
  pub sized :
      f.stop + 4 ≡ f.start + be_u16 (get_or packet (f.start - 2) 0) (get_or packet (f.start - 1) 0)

long_enough : (n : ℕ) → (ltb n 4 || not (n % 4 == 0)) ≡ false → 4 ≤ n
long_enough n h = ground arith

fields_from-IsInside :
    (fuel : ℕ) (packet : Bytes) (offset : ℕ) (fields : List Field)
    → header_length ≤ offset
    → fields_from fuel packet offset ≡ ok fields
    → All (IsInside packet) fields
unfolding fields_from
fields_from-IsInside zero packet offset fields h e = cc
fields_from-IsInside (suc fuel) packet offset fields h e =
    let size = be_u16 (get_or packet (offset + 2) 0) (get_or packet (offset + 3) 0) in
    elim (Bool-cases (leb (offset + 4) (length packet))) [
      | inr short ↦ subst (All (IsInside packet)) (ok-injective [] fields (rw short at e)) tt
      | inl more ↦
          let (valid, e1) = rejected-eq_ok (ltb size 4 || not (size % 4 == 0)) _ (rw more at e) in
          let (fits, e2) = rejected-eq_ok (ltb (length packet) (offset + size)) _ e1 in
          let (rest, later, e3) = >>=-eq-ok (fields_from fuel packet (offset + size)) _ e2 in
          let here : Field = record {
            kind = be_u16 (get_or packet offset 0) (get_or packet (offset + 1) 0);
            start = offset + 4;
            stop = offset + size;
          } in
          let at0 : offset + 4 - 4 ≡ offset = omega arith in
          let at1 : offset + 4 - 3 ≡ offset + 1 = omega arith in
          let at2 : offset + 4 - 2 ≡ offset + 2 = omega arith in
          let at3 : offset + 4 - 1 ≡ offset + 3 = omega arith in
          let here_inside : IsInside packet here = record {
            behind_header = omega (arith, h);
            ordered = omega (arith, long_enough size valid);
            inside = ltb-false→le (length packet) (offset + size) fits;
            tagged = rw (at0, at1) refl;
            sized = rw (at2, at3) (omega arith);
          } in
          let rest_inside =
            fields_from-IsInside fuel packet (offset + size) rest (omega arith) later in
          subst (All (IsInside packet)) (ok-injective (here ∷ rest) fields e3)
            (here_inside, rest_inside)
    ]

-- Every field that `extension_fields` finds has its body behind the header and within the packet,
-- so no slice that is taken of it can fail.
pub extension_fields-IsInside :
    (packet : Bytes) (fields : List Field)
    → extension_fields packet ≡ ok fields
    → All (IsInside packet) fields
unfolding extension_fields
extension_fields-IsInside packet fields e =
    fields_from-IsInside (length packet + 1) packet header_length fields (omega arith) e

-- The fields follow one another, each behind its header of four bytes.
abbrev pub Spaced : ℕ → List Field → Type 0
Spaced offset [] = Unit
Spaced offset (f ∷ fields) = (f.start ≡ offset + 4) × ((f.start ≤ f.stop) × Spaced f.stop fields)

fields_from-Spaced :
    (fuel : ℕ) (packet : Bytes) (offset : ℕ) (fields : List Field)
    → fields_from fuel packet offset ≡ ok fields
    → Spaced offset fields
unfolding fields_from
fields_from-Spaced zero packet offset fields e = cc
fields_from-Spaced (suc fuel) packet offset fields e =
    let size = be_u16 (get_or packet (offset + 2) 0) (get_or packet (offset + 3) 0) in
    elim (Bool-cases (leb (offset + 4) (length packet))) [
      | inr short ↦ subst (Spaced offset) (ok-injective [] fields (rw short at e)) tt
      | inl more ↦
          let (valid, e1) = rejected-eq_ok (ltb size 4 || not (size % 4 == 0)) _ (rw more at e) in
          let (fits, e2) = rejected-eq_ok (ltb (length packet) (offset + size)) _ e1 in
          let (rest, later, e3) = >>=-eq-ok (fields_from fuel packet (offset + size)) _ e2 in
          let here : Field = record {
            kind = be_u16 (get_or packet offset 0) (get_or packet (offset + 1) 0);
            start = offset + 4;
            stop = offset + size;
          } in
          subst (Spaced offset) (ok-injective (here ∷ rest) fields e3) (
            refl,
            (
              omega (arith, long_enough size valid),
              fields_from-Spaced fuel packet (offset + size) rest later,
            ),
          )
    ]

pub extension_fields-Spaced :
    (packet : Bytes) (fields : List Field)
    → extension_fields packet ≡ ok fields
    → Spaced header_length fields
unfolding extension_fields
extension_fields-Spaced packet fields e =
    fields_from-Spaced (length packet + 1) packet header_length fields e

fields_from-ne-out_of_fuel :
    (fuel : ℕ) (packet : Bytes) (offset : ℕ)
    → 0 < fuel
    → length packet < offset + fuel
    → fields_from fuel packet offset ≢ err out_of_fuel
unfolding fields_from
fields_from-ne-out_of_fuel zero packet offset some_fuel h = elim some_fuel [ ]
fields_from-ne-out_of_fuel (suc fuel) packet offset some_fuel h =
    let size = be_u16 (get_or packet (offset + 2) 0) (get_or packet (offset + 3) 0) in
    elim (Bool-cases (leb (offset + 4) (length packet))) [
      | inr short ↦ rw short (λ e. cc)
      | inl more ↦ elim (Bool-cases (ltb size 4 || not (size % 4 == 0))) [
        | inl bad ↦ rw (more, bad) (λ e. cc)
        | inr valid ↦ elim (Bool-cases (ltb (length packet) (offset + size))) [
          | inl past ↦ rw (more, valid, past) (λ e. cc)
          | inr fits ↦
              let four = long_enough size valid in
              let within = ltb-false→le (length packet) (offset + size) fits in
              rw (more, valid, fits)
                (>>=-ne-err (fields_from fuel packet (offset + size)) _
                  (fields_from-ne-out_of_fuel fuel packet (offset + size)
                    (omega (arith, within, four, h)) (omega (arith, four, h)))
                  (λ fields e. cc))
        ]
      ]
    ]

-- The walk over the fields ends on every packet: a field of length zero cannot hold it up.
pub extension_fields-ne-out_of_fuel : (packet : Bytes) → extension_fields packet ≢ err out_of_fuel
unfolding extension_fields
extension_fields-ne-out_of_fuel packet =
    fields_from-ne-out_of_fuel (length packet + 1) packet header_length (omega arith) (omega arith)
