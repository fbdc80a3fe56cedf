-- ===== src/Inverter/Protocol/RoundTrip.antt =====
-- packages/inverter-monitoring/src/protocol.rs: a response is accepted exactly if a unit built it.
use nixos_test.Prelude.{
  ℕ, suc, ◌+◌, ◌-◌, ◌≤◌, ◌≡◌, refl, sym, ap, ◌∙◌, [], ◌∷◌, Bytes, arith, length, take, drop, get_or,
  last_three, get_or-append, take-append, length-append, &&-eq_true, ==→eq, ltb-false→le,
  le→ltb-false, eq→==,
}
use nixos_test.Prelude.Outcome.{ok, rejected-eq_ok, not-eq_false}
use nixos_test.Inverter.Crc.{frame_crc}
use nixos_test.Inverter.Protocol.{leading, cr, Response, classify, parse_response, build_response}

-- What `parse_response` checks of a frame before it looks at the payload.
record Accepted (frame : Bytes) : Type 0 where
  long : 4 ≤ length frame
  first : get_or frame 0 0 ≡ leading
  last : get_or frame (length frame - 1) 0 ≡ cr
  high : (frame_crc (take (length frame - 3) frame)).0 ≡ get_or frame (length frame - 3) 0
  low : (frame_crc (take (length frame - 3) frame)).1 ≡ get_or frame (length frame - 2) 0

parse_response-eq-classify :
    (frame : Bytes)
    → Accepted frame
    → parse_response frame ≡ ok (classify (drop 1 (take (length frame - 3) frame)))
unfolding parse_response
parse_response-eq-classify frame a = rw (
  le→ltb-false (length frame) 4 a.long,
  eq→== _ _ a.first,
  eq→== _ _ a.last,
  eq→== _ _ a.high,
  eq→== _ _ a.low,
)

parse_response-Accepted :
    (frame : Bytes) (r : Response)
    → parse_response frame ≡ ok r
    → Accepted frame × (r ≡ classify (drop 1 (take (length frame - 3) frame)))
unfolding parse_response
parse_response-Accepted frame r h =
    let (long, h1) = rejected-eq_ok _ _ h in
    let (first, h2) = rejected-eq_ok _ _ h1 in
    let (last, h3) = rejected-eq_ok _ _ h2 in
    let (same, h4) = rejected-eq_ok _ _ h3 in
    let (high, low) = &&-eq_true _ _ (not-eq_false _ same) in
    (
      record {
        long = ltb-false→le _ _ long;
        first = ==→eq _ _ (not-eq_false _ first);
        last = ==→eq _ _ (not-eq_false _ last);
        high = ==→eq _ _ high;
        low = ==→eq _ _ low;
      },
      unfold classify in cc h4,
    )

module _ (bytes : Bytes) where
  abbrev body : Bytes
  body = leading ∷ bytes

  abbrev tail : Bytes
  tail = (frame_crc body).0 ∷ (frame_crc body).1 ∷ cr ∷ []

  built_length : length (build_response bytes) ≡ length bytes + 4
  unfolding build_response
  built_length = omega (arith, length-append body tail)

  built_at : (i : ℕ) → get_or (build_response bytes) (length body + i) 0 ≡ get_or tail i 0
  unfolding build_response
  built_at i = get_or-append body tail i

  built_covered : take (length (build_response bytes) - 3) (build_response bytes) ≡ body
  unfolding build_response
  built_covered = take-append _ body tail (omega (arith, length-append body tail))

  built-Accepted : Accepted (build_response bytes)
  built-Accepted = record {
    long = omega (arith, built_length);
    first = unfold build_response in refl;
    last = at 2 (omega (arith, built_length));
    high = rw built_covered (sym (at 0 (omega (arith, built_length))));
    low = rw built_covered (sym (at 1 (omega (arith, built_length))));
  }
    where
      at :
          (i : ℕ) {j : ℕ}
          → j ≡ length body + i
          → get_or (build_response bytes) j 0 ≡ get_or tail i 0
      at i e = ap (λ (k : ℕ). get_or (build_response bytes) k 0) e ∙ built_at i

-- Every frame that a unit builds is accepted, and yields its payload, or NAK for that text.
pub parse_response-build_response :
    (bytes : Bytes) → parse_response (build_response bytes) ≡ ok (classify bytes)
parse_response-build_response bytes =
    parse_response-eq-classify _ (built-Accepted bytes)
    ∙ ap (λ (bs : Bytes). ok (classify (drop 1 bs))) (built_covered bytes)

-- What an accepted frame looks like in full, behind its first byte.
accepted_at :
    (m b : ℕ) (bs : Bytes)
    → length bs ≡ m + 3
    → b ≡ leading
    → get_or bs (suc (suc m)) 0 ≡ cr
    → (frame_crc (b ∷ take m bs)).0 ≡ get_or bs m 0
    → (frame_crc (b ∷ take m bs)).1 ≡ get_or bs (suc m) 0
    → b ∷ bs ≡ build_response (take m bs)
unfolding build_response
accepted_at m b bs h first last high low =
    ap (◌∷◌ b) (last_three m bs h) ∙ rw (← high, ← low, last, first)

Accepted-build_response :
    (frame : Bytes)
    → Accepted frame
    → frame ≡ build_response (drop 1 (take (length frame - 3) frame))
Accepted-build_response [] a = absurd (omega (arith, a.long))
Accepted-build_response (b ∷ bs) a =
    let m = length bs - 3 in
    let e : length (b ∷ bs) - 3 ≡ suc m = omega (arith, a.long) in
    let e2 : length (b ∷ bs) - 2 ≡ suc (suc m) = omega (arith, a.long) in
    let e1 : length (b ∷ bs) - 1 ≡ suc (suc (suc m)) = omega (arith, a.long) in
    rw e (
      accepted_at m b bs (omega (arith, a.long)) a.first (rw e1 at a.last) (rw e at a.high)
        (rw (e, e2) at a.low))

-- A frame that `parse_response` accepts is the one that a unit builds for the payload it stands
-- for: nothing else passes the length, the first byte, the terminator and the checksum.
pub parse_response_sound :
    (frame : Bytes) (r : Response)
    → parse_response frame ≡ ok r
    → (bytes : Bytes) × (frame ≡ build_response bytes) × (r ≡ classify bytes)
parse_response_sound frame r h =
    let (a, e) = parse_response-Accepted frame r h in
    (drop 1 (take (length frame - 3) frame), Accepted-build_response frame a, e)
