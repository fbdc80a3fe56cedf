-- ===== src/Time/Ntp/Covered.antt =====
-- packages/time-correction/src/ntp.rs: a time that is returned was authenticated, together with the
-- identifier of the request that it answers.
use nixos_test.Prelude.{
  ℕ, ◌+◌, ◌-◌, ◌≤◌, ◌≡◌, ◌≢◌, sym, ap, ◌∙◌, false, some, List, [], ◌∷◌, Bytes, arith, ◌==◌,
  Bool-cases, inl, inr, ◌⊎◌, length, length-take, take, get_or, get_or-take, be_u16, round_up_4,
  ==→eq, slice, slice-take, bytes_eq, bytes_eq→eq, All, leb→le, le→leb,
}
use nixos_test.Prelude.Int.{ℤ}
use nixos_test.Prelude.Outcome.{
  ok, >>=-eq-ok, require-eq_ok, require_last-eq_ok, ok_or, ok_or-eq_ok,
}
use nixos_test.Time.Ntp.{
  Siv, header_length, ef_authenticator, ef_unique_identifier, Field, extension_fields, find_kind,
  transmit_timestamp, check_header, check_identifier, check_authenticator, parse_response,
}
use nixos_test.Time.Ntp.Fields.{
  IsInside, extension_fields-IsInside, Spaced, extension_fields-Spaced,
}
use mathlib.Core.Path.{subst}

find_kind-All {ℓ} :
    (P : Field → Type ℓ) (kind : ℕ) (fields : List Field) {f : Field}
    → All P fields
    → find_kind kind fields ≡ some f
    → P f
unfolding find_kind
find_kind-All P kind [] h e = cc
find_kind-All P kind (g ∷ fields) {f} (p, h) e = elim (Bool-cases (g.kind == kind)) [
  | inl here ↦ let same : g ≡ f = cc (rw here at e) in subst P same p
  | inr other ↦ find_kind-All P kind fields h (rw other at e)
]

-- The timestamp is read from the first 48 bytes alone.
transmit_timestamp-take :
    (packet : Bytes) (n : ℕ)
    → header_length ≤ n
    → n ≤ length packet
    → transmit_timestamp (take n packet) ≡ transmit_timestamp packet
unfolding transmit_timestamp
transmit_timestamp-take packet n h fits = rw (
  get_or-take n 40 packet 0 (omega arith),
  get_or-take n 41 packet 0 (omega arith),
  get_or-take n 42 packet 0 (omega arith),
  get_or-take n 43 packet 0 (omega arith),
  le→leb 44 (length packet) (omega arith),
  le→leb 44 (length (take n packet)) (omega (arith, length-take n packet)),
)

-- The first field of a type begins behind where the walk began.
find_kind-behind :
    (offset k : ℕ) (fields : List Field) {f : Field}
    → Spaced offset fields
    → find_kind k fields ≡ some f
    → offset + 4 ≤ f.start
unfolding find_kind
find_kind-behind offset k [] s h = cc
find_kind-behind offset k (g ∷ fields) {f} (start, (ordered, s)) h =
    elim (Bool-cases (g.kind == k)) [
      | inl here ↦
          let same : g ≡ f = cc (rw here at h) in
          subst (λ x. offset + 4 ≤ x.start) same (omega (arith, start))
      | inr other ↦
          let later = find_kind-behind g.stop k fields s (rw other at h) in
          omega (arith, later, start, ordered)
    ]

not_behind :
    (unique auth : Field)
    → unique.start ≤ unique.stop
    → auth.start ≤ auth.stop
    → unique.stop ≤ auth.start
    → (unique.stop + 4 ≤ auth.start) ⊎ (auth.stop + 4 ≤ unique.start)
    → unique.stop ≤ auth.start - 4
not_behind unique auth u a before (inl h) = omega arith
not_behind unique auth u a before (inr h) = absurd (omega arith)

-- Two fields of different types do not overlap, and the header of the second lies between them.
fields-apart :
    (offset k l : ℕ) (fields : List Field) {f g : Field}
    → Spaced offset fields
    → k ≢ l
    → find_kind k fields ≡ some f
    → find_kind l fields ≡ some g
    → (f.stop + 4 ≤ g.start) ⊎ (g.stop + 4 ≤ f.start)
unfolding find_kind
fields-apart offset k l [] s ne hf hg = cc
fields-apart offset k l (h ∷ fields) {f} {g} (start, (ordered, s)) ne hf hg =
    elim (Bool-cases (h.kind == k)) [
      | inl is_k ↦
          let f_here : h ≡ f = cc (rw is_k at hf) in
          let not_l : (h.kind == l) ≡ false = ground (arith, is_k, ne) in
          inl (
            subst (λ x. x.stop + 4 ≤ g.start) f_here
              (find_kind-behind h.stop l fields s (rw not_l at hg)))
      | inr not_k ↦ elim (Bool-cases (h.kind == l)) [
        | inl is_l ↦
            let g_here : h ≡ g = cc (rw is_l at hg) in
            inr (
              subst (λ x. x.stop + 4 ≤ f.start) g_here
                (find_kind-behind h.stop k fields s (rw not_k at hf)))
        | inr not_l ↦ fields-apart h.stop k l fields s ne (rw not_k at hf) (rw not_l at hg)
      ]
    ]

-- What the body of an authenticator holds: two lengths, the nonce, padded to four bytes, and the
-- ciphertext.
pub record Holds (body nonce sealed : Bytes) : Type 0 where
  pub nonce_at : slice body 4 (4 + be_u16 (get_or body 0 0) (get_or body 1 0)) ≡ some nonce
  pub sealed_at :
      slice body (4 + round_up_4 (be_u16 (get_or body 0 0) (get_or body 1 0))) (
        4
        + round_up_4 (be_u16 (get_or body 0 0) (get_or body 1 0))
        + be_u16 (get_or body 2 0) (get_or body 3 0))
      ≡ some sealed

-- The authenticator of a packet at an offset: a header with its type and its size, and the body that
-- holds a nonce and a ciphertext.
pub record IsAuthenticator (packet : Bytes) (offset : ℕ) (nonce sealed : Bytes) : Type 0 where
  pub tagged : be_u16 (get_or packet offset 0) (get_or packet (offset + 1) 0) ≡ ef_authenticator
  pub body : Bytes
  pub body_at :
      slice packet
        (offset + 4)
        (offset + be_u16 (get_or packet (offset + 2) 0) (get_or packet (offset + 3) 0))
      ≡ some body
  pub holds : Holds body nonce sealed

-- An answer that was vouched for: an authenticator stands in the packet, and in front of it, the fixed
-- header included, what it covers; the cipher opened the authenticator's own ciphertext under the key,
-- with its own nonce and what it covers; and the expected identifier and the time are read from what
-- it covers.
pub record Vouched (siv : Siv) (packet s2c expected : Bytes) (time : ℤ) : Type 0 where
  pub size : ℕ
  pub has_header : header_length ≤ size
  pub fits : size ≤ length packet
  pub nonce : Bytes
  pub sealed : Bytes
  pub plain : Bytes
  pub authenticator : IsAuthenticator packet size nonce sealed
  pub opened : siv.decrypt s2c (take size packet ∷ nonce ∷ []) sealed ≡ some plain
  pub identified : (from : ℕ) × (to : ℕ) × (slice (take size packet) from to ≡ some expected)
  pub timed : transmit_timestamp (take size packet) ≡ ok time

-- The parts of a successful `check_authenticator`.
check_authenticator-opened :
    (siv : Siv) (associated body s2c : Bytes)
    → check_authenticator siv associated body s2c ≡ ok tt
    → (nonce : Bytes) × (sealed : Bytes) × (plain : Bytes) × Holds body nonce sealed
      × (siv.decrypt s2c (associated ∷ nonce ∷ []) sealed ≡ some plain)
unfolding check_authenticator
check_authenticator-opened siv associated body s2c h =
    let (long, h1) = require-eq_ok _ _ h in
    let (nonce, nonce_at, h2) = >>=-eq-ok (ok_or (slice body 4 _) _) _ h1 in
    let (sealed, sealed_at, h3) = >>=-eq-ok (ok_or (slice body _ _) _) _ h2 in
    let (key, h4) = require-eq_ok _ _ h3 in
    let (plain, opened, h5) =
      >>=-eq-ok (ok_or (siv.decrypt s2c (associated ∷ nonce ∷ []) sealed) _) _ h4 in
    (
      nonce,
      sealed,
      plain,
      record { nonce_at = ok_or-eq_ok _ _ nonce_at; sealed_at = ok_or-eq_ok _ _ sealed_at },
      ok_or-eq_ok _ _ opened,
    )

find_kind-kind :
    (kind : ℕ) (fields : List Field) {f : Field} → find_kind kind fields ≡ some f → f.kind ≡ kind
unfolding find_kind
find_kind-kind kind [] e = cc
find_kind-kind kind (g ∷ fields) {f} e = elim (Bool-cases (g.kind == kind)) [
  | inl here ↦
      let same : g ≡ f = cc (rw here at e) in
      subst (λ (x : Field). x.kind ≡ kind) same (==→eq g.kind kind here)
  | inr other ↦ find_kind-kind kind fields (rw other at e)
]

-- A field of the authenticator's type is an authenticator at the header in front of its body.
field-IsAuthenticator :
    (packet body nonce sealed : Bytes) (f : Field)
    → IsInside packet f
    → f.kind ≡ ef_authenticator
    → slice packet f.start f.stop ≡ some body
    → Holds body nonce sealed
    → IsAuthenticator packet (f.start - 4) nonce sealed
field-IsAuthenticator packet body nonce sealed f inside kind at holds =
    let behind = inside.behind_header in
    let at1 : f.start - 4 + 1 ≡ f.start - 3 = omega arith in
    let at2 : f.start - 4 + 2 ≡ f.start - 2 = omega arith in
    let at3 : f.start - 4 + 3 ≡ f.start - 1 = omega arith in
    let at4 : f.start - 4 + 4 ≡ f.start = omega arith in
    let size = be_u16 (get_or packet (f.start - 2) 0) (get_or packet (f.start - 1) 0) in
    let end : f.start - 4 + size ≡ f.stop = omega (arith, inside.sized) in
    record {
      tagged = rw at1 (sym inside.tagged ∙ kind);
      body = body;
      body_at = rw (at2, at3, at4, end) at;
      holds = holds;
    }

check_identifier_sound :
    (packet expected : Bytes) (unique : Field) (auth_start : ℕ)
    → check_identifier packet unique auth_start expected ≡ ok tt
    → (unique.stop ≤ auth_start) × (slice packet unique.start unique.stop ≡ some expected)
unfolding check_identifier
check_identifier_sound packet expected unique auth_start h =
    let (covered, h1) = require-eq_ok _ _ h in
    let (own, own_at, h2) = >>=-eq-ok (ok_or (slice packet unique.start unique.stop) _) _ h1 in
    let same = require_last-eq_ok (bytes_eq own expected) _ h2 in
    (leb→le _ _ covered, ok_or-eq_ok _ _ own_at ∙ ap some (bytes_eq→eq own expected same))

-- For a time that `parse_response` returns, the packet has an authenticator: a field of that type,
-- whose ciphertext the cipher opened under the session's key, together with the nonce that stands in
-- the same field and all the bytes in front of the field. The time is read from those bytes, and among
-- them stands the identifier of the request.
pub parse_response-Vouched :
    (siv : Siv) (packet s2c expected : Bytes) (time : ℤ)
    → parse_response siv packet s2c expected ≡ ok time
    → Vouched siv packet s2c expected time
unfolding parse_response
parse_response-Vouched siv packet s2c expected time h =
    let (_, header, h1) = >>=-eq-ok (check_header packet) _ h in
    let (fields, found, h2) = >>=-eq-ok (extension_fields packet) _ h1 in
    let (auth, auth_at, h3) = >>=-eq-ok (ok_or (find_kind ef_authenticator fields) _) _ h2 in
    let (unique, unique_at, h4) =
      >>=-eq-ok (ok_or (find_kind ef_unique_identifier fields) _) _ h3 in
    let (_, checked, h5) = >>=-eq-ok (check_identifier packet unique auth.start expected) _ h4 in
    let (body, body_at, h6) = >>=-eq-ok (ok_or (slice packet auth.start auth.stop) _) _ h5 in
    let (_, opened, timed) =
      >>=-eq-ok (check_authenticator siv (take (auth.start - 4) packet) body s2c) _ h6 in
    let auth_found = ok_or-eq_ok _ _ auth_at in
    let unique_found = ok_or-eq_ok _ _ unique_at in
    let auth_in =
      find_kind-All (IsInside packet) ef_authenticator fields
        (extension_fields-IsInside packet fields found) auth_found in
    let unique_in =
      find_kind-All (IsInside packet) ef_unique_identifier fields
        (extension_fields-IsInside packet fields found) unique_found in
    let (before, identified) = check_identifier_sound packet expected unique auth.start checked in
    let (nonce, sealed, plain, holds, by_key) =
      check_authenticator-opened siv (take (auth.start - 4) packet) body s2c opened in
    let apart =
      fields-apart header_length ef_unique_identifier ef_authenticator fields
        (extension_fields-Spaced packet fields found) (omega arith) unique_found auth_found in
    let n = auth.start - 4 in
    let n_fits : n ≤ length packet = omega (arith, auth_in.ordered, auth_in.inside) in
    let covers : unique.stop ≤ n =
      not_behind unique auth unique_in.ordered auth_in.ordered before apart in
    record {
      size = n;
      has_header = omega (arith, auth_in.behind_header);
      fits = n_fits;
      nonce = nonce;
      sealed = sealed;
      plain = plain;
      authenticator =
          field-IsAuthenticator packet body nonce sealed auth auth_in
            (find_kind-kind ef_authenticator fields auth_found) (ok_or-eq_ok _ _ body_at) holds;
      opened = by_key;
      identified = (
        unique.start,
        unique.stop,
        slice-take packet n unique.start unique.stop covers n_fits ∙ identified,
      );
      timed =
          transmit_timestamp-take packet n (omega (arith, auth_in.behind_header)) n_fits ∙ timed;
    }
