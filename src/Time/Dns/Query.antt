-- ===== src/Time/Dns/Query.antt =====
-- packages/time-correction/src/dns.rs: the walk over a name reads what `encode_query` wrote.
use nixos_test.Prelude.{
  ℕ, zero, suc, ◌+◌, ◌≤◌, ◌<◌, ◌≡◌, refl, sym, ap, ◌∙◌, true, false, none, List, [], ◌∷◌, ◌++◌,
  append_assoc, Bytes, arith, ◌==◌, length, length-append, get_elem?-append, ltb-false→le,
  le→ltb-false, ==→eq, to_be_u16,
}
use Prim.Native.Nat.{bit_and}
use nixos_test.Prelude.Tables.{holds_upto, holds_upto_lookup}
use nixos_test.Prelude.Outcome.{ok, >>=-eq-ok, rejected-eq_ok, ok-injective}
use nixos_test.Time.Dns.{
  class_in, split, encode_labels, encode_query, turn, turn_at, follow_label, continue, skip_loop,
  skip_name,
}

-- A length up to 63 has neither of the two top bits.
label_bits : (n : ℕ) → n < 64 → bit_and n 0xC0 ≡ 0
label_bits n h = ==→eq _ _ (holds_upto_lookup (λ x. bit_and x 0xC0 == 0) 64 table n h)
  where
    table : holds_upto (λ x. bit_and x 0xC0 == 0) 64 ≡ true
    table = unfold holds_upto in refl

-- The turn at a label that lies within the message, and at the end of the name.
skip_loop-label :
    (fuel : ℕ) (pre tail : Bytes) (size : ℕ)
    → 0 < size
    → size < 64
    → size ≤ length tail
    → skip_loop (suc fuel) (pre ++ (size ∷ tail)) (length pre) 0 none
      ≡ skip_loop fuel (pre ++ (size ∷ tail)) (length pre + (1 + size)) 0 none
unfolding skip_loop turn turn_at follow_label continue
skip_loop-label fuel pre tail size pos small fits =
    let nonzero : (size == 0) ≡ false = ground arith in
    rw (
      get_elem?-append pre size tail,
      label_bits size small,
      nonzero,
      le→ltb-false (length (pre ++ (size ∷ tail))) (length pre + (1 + size))
          (omega (arith, length-append pre (size ∷ tail))),
    )

skip_loop-end :
    (fuel : ℕ) (pre tail : Bytes)
    → skip_loop (suc fuel) (pre ++ (0 ∷ tail)) (length pre) 0 none ≡ ok (length pre + 1)
unfolding skip_loop turn turn_at follow_label continue
skip_loop-end fuel pre tail = rw (get_elem?-append pre 0 tail)

-- From the walk behind a label, with the label moved to what stands before it, to the walk at it.
skip_loop-over_label :
    (fuel : ℕ) (pre label more z : Bytes)
    → 0 < length label
    → length label < 64
    → skip_loop fuel
        ((pre ++ (length label ∷ label)) ++ (more ++ z))
        (length (pre ++ (length label ∷ label)))
        0
        none
      ≡ ok (length (pre ++ (length label ∷ label)) + length more + 1)
    → skip_loop (suc fuel) (pre ++ (length label ∷ ((label ++ more) ++ z))) (length pre) 0 none
      ≡ ok (length pre + length (length label ∷ (label ++ more)) + 1)
skip_loop-over_label fuel pre label more z pos small later =
    let n = length label in
    let here = length-append pre (n ∷ label) in
    let tail = length-append label (more ++ z) in
    let message : (pre ++ (n ∷ label)) ++ (more ++ z) ≡ pre ++ (n ∷ ((label ++ more) ++ z)) =
      append_assoc pre (n ∷ label) (more ++ z)
      ∙ ap (λ (t : Bytes). pre ++ (n ∷ t)) (sym (append_assoc label more z)) in
    skip_loop-label fuel pre ((label ++ more) ++ z) n pos small
      (rw append_assoc (omega (arith, tail)))
    ∙ ap (λ (k : ℕ). skip_loop fuel (pre ++ (n ∷ ((label ++ more) ++ z))) k 0 none)
        (omega (arith, here))
    ∙ ap (λ (m : Bytes). skip_loop fuel m (length (pre ++ (n ∷ label))) 0 none) (sym message)
    ∙ later
    ∙ ap ok (omega (arith, here, length-append label more))

-- The walk over encoded labels, with any bytes before and behind them.
skip_loop-encode_labels :
    (labels : List Bytes) (fuel : ℕ) (pre enc tail : Bytes)
    → encode_labels labels ≡ ok enc
    → length enc < fuel
    → skip_loop fuel (pre ++ (enc ++ (0 ∷ tail))) (length pre) 0 none
      ≡ ok (length pre + length enc + 1)
unfolding encode_labels
skip_loop-encode_labels labels zero pre enc tail h f = elim f [ ]
skip_loop-encode_labels [] (suc fuel) pre enc tail h f =
    let e : [] ≡ enc = ok-injective [] enc h in
    rw (← e) (skip_loop-end fuel pre tail ∙ ap ok (omega arith))
skip_loop-encode_labels ([] ∷ labels) (suc fuel) pre enc tail h f =
    skip_loop-encode_labels labels (suc fuel) pre enc tail h f
skip_loop-encode_labels ((b ∷ bs) ∷ labels) (suc fuel) pre enc tail h f =
    let (short, h1) = rejected-eq_ok _ _ h in
    let (more, later, h2) = >>=-eq-ok (encode_labels labels) _ h1 in
    let e : length (b ∷ bs) ∷ ((b ∷ bs) ++ more) ≡ enc = ok-injective _ enc h2 in
    rw (← e) (
      skip_loop-over_label fuel pre (b ∷ bs) more (0 ∷ tail) (omega arith)
        (omega (arith, ltb-false→le _ _ short))
        (skip_loop-encode_labels labels fuel (pre ++ (length (b ∷ bs) ∷ b ∷ bs)) more tail later
          (omega (arith, length-append bs more, ap length e))))

-- The query that `encode_query` builds asks its question in the form that `skip_name` reads: the
-- walk that starts behind the header ends four bytes, the type and the class, before the end.
pub skip_name-encode_query :
    (id qtype : ℕ) (name query : Bytes)
    → encode_query id name qtype ≡ ok query
    → (past : ℕ) × (skip_name query 12 ≡ ok past) × (past + 4 ≡ length query)
unfolding skip_name encode_query
skip_name-encode_query id qtype name query h =
    let (enc, labels, e) = >>=-eq-ok (encode_labels (split [] name)) _ h in
    let whole = ok-injective _ query e in
    let head : Bytes =
      to_be_u16 id ++ (to_be_u16 0x0100 ++ (to_be_u16 1 ++ (0 ∷ 0 ∷ 0 ∷ 0 ∷ 0 ∷ 0 ∷ []))) in
    let tail : Bytes = to_be_u16 qtype ++ to_be_u16 class_in in
    let size : length (head ++ (enc ++ (0 ∷ tail))) ≡ 12 + length enc + 5 =
      omega (arith, length-append enc (0 ∷ tail)) in
    (
      12 + length enc + 1,
      rw (← whole)
          (skip_loop-encode_labels (split [] name) _ head enc tail labels (omega (arith, size))),
      rw (← whole) (omega (arith, size)),
    )
