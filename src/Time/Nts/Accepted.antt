-- ===== src/Time/Nts/Accepted.antt =====
-- packages/time-correction/src/nts.rs: what an accepted response promises.
use nixos_test.Prelude.{
  ℕ, zero, suc, ◌+◌, ◌<◌, ◌≡◌, ◌≢◌, refl, sym, ap, ◌∙◌, Bool, true, false, Option, none, some, List,
  [], ◌∷◌, Bytes, arith, ◌==◌, ==→eq, eq→==, le→leb, length, All,
}
use mathlib.Core.Path.{subst}
use nixos_test.Prelude.Outcome.{ok, >>=-eq-ok, require-eq_ok, require_last-eq_ok, ok-injective}
use nixos_test.Time.Nts
use nixos_test.Time.Nts.Records.{
  read_record-IsAt, Understood, last_of, last_body, cookies_of, Reads, records_from-IsGathered,
}

complete_from-Reads :
    (fuel : ℕ) (message : Bytes) (offset : ℕ) (rs : List Nts.Header)
    → Reads message offset rs
    → length message < offset + fuel
    → Nts.complete_from fuel message offset ≡ some true
unfolding Nts.complete_from
complete_from-Reads zero message offset [] (r, (here, end)) h =
    let (fits, _) = read_record-IsAt message offset here in absurd (omega arith)
complete_from-Reads zero message offset (r ∷ rs) (here, _) h =
    let (fits, _) = read_record-IsAt message offset here in absurd (omega arith)
complete_from-Reads (suc fuel) message offset [] (r, (here, end)) h =
    let (fits, (next, kind)) = read_record-IsAt message offset here in
    rw (le→leb (offset + 4) (length message) fits, eq→== _ 0 (sym kind ∙ end)) refl
complete_from-Reads (suc fuel) message offset (r ∷ rs) (here, (more, reads)) h =
    let (fits, (next, kind)) = read_record-IsAt message offset here in
    let rest = complete_from-Reads fuel message r.next rs reads (omega (arith, next)) in
    rw (le→leb (offset + 4) (length message) fits, unended _ (λ e. more (kind ∙ e)))
      (rw next at rest)
  where
    unended : (k : ℕ) → k ≢ 0 → (k == 0) ≡ false
    unended k h = ground (arith, h)

has_cookies-some : (cookies : List Bytes) → Nts.has_cookies cookies ≡ true → cookies ≢ []
unfolding Nts.has_cookies
has_cookies-some [] h e = cc
has_cookies-some (c ∷ cookies) h e = cc

check_protocol-ok : (chosen : Option ℕ) → Nts.check_protocol chosen ≡ ok tt → chosen ≡ some 0
unfolding Nts.check_protocol
check_protocol-ok none h = cc
check_protocol-ok (some n) h = ap some (==→eq n 0 (require_last-eq_ok (n == 0) _ h))

check_aead-ok :
    (chosen : Option ℕ) (requested : ℕ)
    → Nts.check_aead chosen requested ≡ ok tt
    → chosen ≡ some requested
unfolding Nts.check_aead
check_aead-ok none requested h = cc
check_aead-ok (some n) requested h =
    ap some (==→eq n requested (require_last-eq_ok (n == requested) _ h))

-- The records from the start of a message to its terminator, against what was agreed.
abbrev pub Agrees : (Bytes → Bool) → Bytes → ℕ → Nts.Agreement → List Nts.Header → Type 0
Agrees is_utf8 message requested a rs =
    Reads message 0 rs
    × (All (Understood is_utf8) rs
        × ((a.aead ≡ requested)
            × ((last_of 1 rs none ≡ some 0)
                × ((last_of 4 rs none ≡ some requested)
                    × ((a.cookies ≡ cookies_of rs)
                        × ((a.cookies ≢ [])
                            × ((a.port ≡ last_of 7 rs none)
                                × (a.server ≡ last_body 6 rs none))))))))

module _ (is_utf8 : Bytes → Bool) where
  -- An accepted response is complete for `response_complete`, and consists of records up to an
  -- end-of-message record among which is no error, no warning, no critical record of an unknown kind,
  -- no protocol, AEAD or port in other than two bytes, and no server's name that is not text. The last
  -- protocol chosen is NTPv4 and the last AEAD the requested one; the cookies are those of the records,
  -- in order, one at least; and the port and the server are the last ones given, if any.
  pub parse_response-Agrees :
      (message : Bytes) (requested : ℕ) {a : Nts.Agreement}
      → Nts.parse_response is_utf8 message requested ≡ ok a
      → (Nts.response_complete message ≡ some true)
        × ((rs : List Nts.Header) × Agrees is_utf8 message requested a rs)
  unfolding Nts.parse_response Nts.response_complete
  parse_response-Agrees message requested {a = a} h =
      let (read, got, h1) =
        >>=-eq-ok (Nts.records_from is_utf8 (length message + 1) message 0 _) _ h in
      let (ended, h2) = require-eq_ok (read.1) _ h1 in
      let (u, protocol, h3) = >>=-eq-ok (Nts.check_protocol (read.0).next_protocol) _ h2 in
      let (v, aead, h4) = >>=-eq-ok (Nts.check_aead (read.0).aead requested) _ h3 in
      let (fed, h5) = require-eq_ok (Nts.has_cookies (read.0).cookies) _ h4 in
      let whole : read ≡ (read.0, true) = ap (λ (b : Bool). (read.0, b)) ended in
      let (rs, (reads, (all, (cookies, (p, (e, (t, n))))))) =
        records_from-IsGathered is_utf8 (length message + 1) message 0 _ (read.0)
          (got ∙ ap ok whole) in
      (
        complete_from-Reads (length message + 1) message 0 rs reads (omega arith),
        (
          rs,
          subst (λ (a : Nts.Agreement). Agrees is_utf8 message requested a rs) (ok-injective _ a h5)
              (
                reads,
                (
                  all,
                  (
                    refl,
                    (
                      sym p ∙ check_protocol-ok _ protocol,
                      (
                        sym e ∙ check_aead-ok _ requested aead,
                        (cookies, (has_cookies-some _ fed, (t, n))),
                      ),
                    ),
                  ),
                ),
              ),
        ),
      )
