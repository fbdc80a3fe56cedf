-- ===== src/Time/Dns/Answers.antt =====
-- packages/time-correction/src/dns.rs: what `parse_response` returns.
use nixos_test.Prelude.{
  ℕ, zero, suc, ◌+◌, ◌≡◌, ◌≢◌, refl, ap, ◌∙◌, false, not, Option, none, some, List, [], ◌∷◌, Bytes,
  arith, ltb, leb, ◌==◌, Bool-cases, inl, inr, length, slice, All, All-append, ==→eq,
}
use Prim.Native.Nat.{bit_and}
use mathlib.Core.Path.{subst}
use nixos_test.Prelude.Outcome.{
  Result, ok, err, >>=-eq-ok, >>=-ne-err, require-eq_ok, require-ne-err, ok_or, ok_or-ne-err,
  ok-injective, not-eq_true,
}
use nixos_test.Time.Dns.{
  DnsError, out_of_fuel, type_a, type_aaaa, IpAddr, v4, v6, u16_at, skip_name, skip_questions,
  address_of, with_address, read_answers, nonempty, parse_response,
}
use nixos_test.Time.Dns.Skip.{skip_name-Ends, u16_at-err}

-- An address is of the family that was asked for.
abbrev pub IsAnswer : ℕ → IpAddr → Type 0
IsAnswer qtype (v4 a b c d) = qtype ≡ type_a
IsAnswer qtype (v6 octets) = (qtype ≡ type_aaaa) × (length octets ≡ 16)

abbrev Contributes : ℕ → Result DnsError (Option IpAddr) → Type 0
Contributes qtype (ok none) = Unit
Contributes qtype (ok (some address)) = IsAnswer qtype address
Contributes qtype (err e) = e ≢ out_of_fuel

address_of-Contributes :
    (qtype rtype rclass : ℕ) (rdata : Bytes)
    → Contributes qtype (address_of qtype rtype rclass rdata)
unfolding address_of
address_of-Contributes qtype rtype rclass rdata = ground arith

with_address-IsAnswer :
    (qtype : ℕ) (address : Option IpAddr) (found : List IpAddr)
    → Contributes qtype (ok address)
    → All (IsAnswer qtype) found
    → All (IsAnswer qtype) (with_address address found)
unfolding with_address
with_address-IsAnswer qtype none found c h = h
with_address-IsAnswer qtype (some address) found c h =
    All-append (IsAnswer qtype) found (address ∷ []) h (c, tt)

read_answers-IsAnswer :
    (answers : ℕ) (message : Bytes) (qtype offset : ℕ) (found out : List IpAddr)
    → All (IsAnswer qtype) found
    → read_answers answers message qtype offset found ≡ ok out
    → All (IsAnswer qtype) out
unfolding read_answers
read_answers-IsAnswer zero message qtype offset found out h e =
    subst (All (IsAnswer qtype)) (ok-injective found out e) h
read_answers-IsAnswer (suc answers) message qtype offset found out h e =
    let (past, _, e1) = >>=-eq-ok (skip_name message offset) _ e in
    let (rtype, _, e2) = >>=-eq-ok (u16_at message past) _ e1 in
    let (rclass, _, e3) = >>=-eq-ok (u16_at message (past + 2)) _ e2 in
    let (rdlength, _, e4) = >>=-eq-ok (u16_at message (past + 8)) _ e3 in
    let (rdata, _, e5) =
      >>=-eq-ok (ok_or (slice message (past + 10) (past + 10 + rdlength)) _) _ e4 in
    let (address, given, e6) = >>=-eq-ok (address_of qtype rtype rclass rdata) _ e5 in
    read_answers-IsAnswer answers message qtype (past + 10 + rdlength) (with_address address found)
      out
      (with_address-IsAnswer qtype address found
        (rw given at (address_of-Contributes qtype rtype rclass rdata)) h)
      e6

-- The steps that cannot run out of fuel.
skip_name-ne-out_of_fuel : (message : Bytes) (start : ℕ) → skip_name message start ≢ err out_of_fuel
skip_name-ne-out_of_fuel message start e = (rw e at (skip_name-Ends message start)) refl

u16_at-ne-out_of_fuel : (message : Bytes) (offset : ℕ) → u16_at message offset ≢ err out_of_fuel
u16_at-ne-out_of_fuel message offset e = u16_at-err message offset e refl

address_of-ne-out_of_fuel :
    (qtype rtype rclass : ℕ) (rdata : Bytes) → address_of qtype rtype rclass rdata ≢ err out_of_fuel
address_of-ne-out_of_fuel qtype rtype rclass rdata e =
    (rw e at (address_of-Contributes qtype rtype rclass rdata)) refl

skip_questions-ne-out_of_fuel :
    (questions : ℕ) (message : Bytes) (offset : ℕ)
    → skip_questions questions message offset ≢ err out_of_fuel
unfolding skip_questions
skip_questions-ne-out_of_fuel zero message offset = λ e. cc
skip_questions-ne-out_of_fuel (suc questions) message offset =
    >>=-ne-err (skip_name message offset) _ (skip_name-ne-out_of_fuel message offset) λ past.
      elim (Bool-cases (ltb (length message) (past + 4))) [
        | inl outside ↦ rw outside (λ e. cc)
        | inr inside ↦ rw inside (skip_questions-ne-out_of_fuel questions message (past + 4))
      ]

read_answers-ne-out_of_fuel :
    (answers : ℕ) (message : Bytes) (qtype offset : ℕ) (found : List IpAddr)
    → read_answers answers message qtype offset found ≢ err out_of_fuel
unfolding read_answers
read_answers-ne-out_of_fuel zero message qtype offset found = λ e. cc
read_answers-ne-out_of_fuel (suc answers) message qtype offset found =
    >>=-ne-err (skip_name message offset) _ (skip_name-ne-out_of_fuel message offset) λ past.
      >>=-ne-err (u16_at message past) _ (u16_at-ne-out_of_fuel message past) λ rtype.
        >>=-ne-err (u16_at message (past + 2)) _ (u16_at-ne-out_of_fuel message (past + 2))
          λ rclass.
            >>=-ne-err (u16_at message (past + 8)) _ (u16_at-ne-out_of_fuel message (past + 8))
              λ size.
                >>=-ne-err (ok_or (slice message (past + 10) (past + 10 + size)) _) _
                  (ok_or-ne-err (slice message (past + 10) (past + 10 + size)) _ (λ e. cc))
                  λ rdata.
                    >>=-ne-err (address_of qtype rtype rclass rdata) _
                      (address_of-ne-out_of_fuel qtype rtype rclass rdata)
                      λ address.
                        read_answers-ne-out_of_fuel answers message qtype (past + 10 + size)
                          (with_address address found)

nonempty-ne-out_of_fuel : (found : List IpAddr) → nonempty found ≢ err out_of_fuel
unfolding nonempty
nonempty-ne-out_of_fuel [] = λ e. cc
nonempty-ne-out_of_fuel (a ∷ found) = λ e. cc

-- `parse_response` ends on every message: no loop in it runs out of its fuel.
pub parse_response-ne-out_of_fuel :
    (message : Bytes) (id qtype : ℕ) → parse_response message id qtype ≢ err out_of_fuel
unfolding parse_response
parse_response-ne-out_of_fuel message id qtype =
    require-ne-err (leb 12 (length message)) _ _ (λ e. cc)
      (>>=-ne-err (u16_at message 0) _ (u16_at-ne-out_of_fuel message 0) λ own_id.
        require-ne-err (own_id == id) _ _ (λ e. cc)
          (>>=-ne-err (u16_at message 2) _ (u16_at-ne-out_of_fuel message 2) λ flags.
            require-ne-err (not (bit_and flags 0x8000 == 0)) _ _ (λ e. cc)
              (require-ne-err (bit_and flags 0x0200 == 0) _ _ (λ e. cc)
                (require-ne-err (bit_and flags 0x000F == 0) _ _ (λ e. cc)
                  (>>=-ne-err (u16_at message 4) _ (u16_at-ne-out_of_fuel message 4) λ questions.
                    >>=-ne-err (u16_at message 6) _ (u16_at-ne-out_of_fuel message 6) λ answers.
                      >>=-ne-err (skip_questions questions message 12) _
                        (skip_questions-ne-out_of_fuel questions message 12)
                        λ offset.
                          >>=-ne-err (read_answers answers message qtype offset []) _
                            (read_answers-ne-out_of_fuel answers message qtype offset [])
                            nonempty-ne-out_of_fuel)))))

nonempty_sound : (found out : List IpAddr) → nonempty found ≡ ok out → (out ≡ found) × (out ≢ [])
unfolding nonempty
nonempty_sound [] out h = cc
nonempty_sound (a ∷ found) out h = ground arith

-- What the header must say for its answers to be used: the id of the query, the response bit, no
-- truncation, and no error code.
pub record HeaderAgrees (message : Bytes) (id : ℕ) : Type 0 where
  pub own_id : u16_at message 0 ≡ ok id
  pub flags : ℕ
  pub flags_read : u16_at message 2 ≡ ok flags
  pub is_response : (bit_and flags 0x8000 == 0) ≡ false
  pub whole : bit_and flags 0x0200 ≡ 0
  pub no_error : bit_and flags 0x000F ≡ 0

-- Addresses that `parse_response` returns come from a message whose header agrees with the query;
-- there is at least one, and each is of the family that was asked for.
pub parse_response-IsAnswer :
    (message : Bytes) (id qtype : ℕ) (out : List IpAddr)
    → parse_response message id qtype ≡ ok out
    → HeaderAgrees message id × (out ≢ []) × All (IsAnswer qtype) out
unfolding parse_response
parse_response-IsAnswer message id qtype out h =
    let (long, h1) = require-eq_ok _ _ h in
    let (own_id, own_id_read, h2) = >>=-eq-ok (u16_at message 0) _ h1 in
    let (same, h3) = require-eq_ok _ _ h2 in
    let (flags, flags_read, h4) = >>=-eq-ok (u16_at message 2) _ h3 in
    let (is_response, h5) = require-eq_ok _ _ h4 in
    let (whole, h6) = require-eq_ok _ _ h5 in
    let (no_error, h7) = require-eq_ok _ _ h6 in
    let (questions, _, h8) = >>=-eq-ok (u16_at message 4) _ h7 in
    let (answers, _, h9) = >>=-eq-ok (u16_at message 6) _ h8 in
    let (offset, _, h10) = >>=-eq-ok (skip_questions questions message 12) _ h9 in
    let (found, read, h11) = >>=-eq-ok (read_answers answers message qtype offset []) _ h10 in
    let (kept, some_found) = nonempty_sound found out h11 in
    (
      record {
        own_id = own_id_read ∙ ap ok (==→eq _ _ same);
        flags = flags;
        flags_read = flags_read;
        is_response = not-eq_true _ is_response;
        whole = ==→eq _ _ whole;
        no_error = ==→eq _ _ no_error;
      },
      some_found,
      rw kept (read_answers-IsAnswer answers message qtype offset [] found tt read),
    )
