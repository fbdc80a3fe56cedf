-- ===== src/Time/Ntp/Timed.antt =====
-- packages/time-correction/src/ntp.rs: the times that a packet can carry fit an `i64`, and a request
-- is for the identifier that it was built with.
use nixos_test.Prelude.{
  ℕ, zero, suc, ◌+◌, ◌<◌, ◌≡◌, sym, ap, List, [], ◌∷◌, Bytes, IsByte, All, arith, Bool-cases, inl,
  inr, leb, ◌==◌, take, get_or, length,
}
use mathlib.Core.Path.{subst}
use nixos_test.Prelude.Int.{ℤ, sub_ℕ}
use nixos_test.Prelude.Outcome.{ok, ok_or, >>=-eq-ok, require-eq_ok, rejected-eq_ok, ok-injective}
use nixos_test.Time.Deferred.Accepted.{IsI64}
use nixos_test.Time.Ntp

pub take-All {ℓ κ} :
    {A : Type ℓ} (P : A → Type κ) (n : ℕ) (xs : List A) → All P xs → All P (take n xs)
take-All P zero xs h = tt
take-All P (suc n) [] h = tt
take-All P (suc n) (x ∷ xs) (p, h) = (p, take-All P n xs h)

get_or-IsByte : (bs : Bytes) (i : ℕ) → All IsByte bs → IsByte (get_or bs i 0)
get_or-IsByte [] i h = omega arith
get_or-IsByte (b ∷ bs) zero (p, h) = p
get_or-IsByte (b ∷ bs) (suc i) (p, h) = get_or-IsByte bs i h

pub build_request-unique_id :
    (siv : Ntp.Siv) (cookie c2s unique_id nonce : Bytes) {r : Ntp.Request}
    → Ntp.build_request siv cookie c2s unique_id nonce ≡ ok r
    → r.unique_id ≡ unique_id
unfolding Ntp.build_request
build_request-unique_id siv cookie c2s unique_id nonce {r = r} h =
    let (_, h1) = require-eq_ok _ _ h in
    let (ciphertext, _, h2) = >>=-eq-ok (ok_or (siv.encrypt c2s _ []) _) _ h1 in
    sym (ap (λ (r : Ntp.Request). r.unique_id) (ok-injective _ r h2))

-- The seconds of a 32-bit timestamp, in either era, are far inside of an `i64`.
read_timestamp-IsI64 :
    (era0 : ℕ) {t : ℤ} → era0 < 4294967296 → Ntp.read_timestamp era0 ≡ ok t → IsI64 t
unfolding Ntp.read_timestamp
read_timestamp-IsI64 era0 {t = t} h e =
    let (some_time, e1) = rejected-eq_ok (era0 == 0) _ e in
    elim (Bool-cases (leb 2147483648 era0)) [
      | inl first ↦ subst IsI64 (ok-injective _ t (rw first at e1)) (small era0 (omega arith))
      | inr second ↦
          subst IsI64 (ok-injective _ t (rw second at e1)) (small (era0 + 4294967296) (omega arith))
    ]
  where
    small : (n : ℕ) → n < 8589934592 → IsI64 (sub_ℕ n Ntp.ntp_to_unix)
    small n k = ground arith

pub transmit_timestamp-IsI64 :
    (packet : Bytes) {t : ℤ} → All IsByte packet → Ntp.transmit_timestamp packet ≡ ok t → IsI64 t
unfolding Ntp.transmit_timestamp
transmit_timestamp-IsI64 packet {t = t} h e = elim (Bool-cases (leb 44 (length packet))) [
  | inl long ↦
      read_timestamp-IsI64 _
        (omega (
          arith,
          get_or-IsByte packet 40 h,
          get_or-IsByte packet 41 h,
          get_or-IsByte packet 42 h,
          get_or-IsByte packet 43 h,
        ))
        (rw long at e)
  | inr short ↦ cc (e, short)
]
