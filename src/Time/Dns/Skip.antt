-- ===== src/Time/Dns/Skip.antt =====
-- packages/time-correction/src/dns.rs: `skip_name` ends on every message, and moves forward.
use nixos_test.Prelude.{
  ℕ, zero, suc, ◌+◌, ◌*◌, ◌-◌, ◌≤◌, ◌<◌, ◌≡◌, ◌≢◌, refl, Option, none, some, Bytes, arith, ltb, leb,
  ◌==◌, Bool-cases, inl, inr, ◌⊎◌, length, get_elem?, get_elem?-inside, unwrap_or,
}
use Prim.Native.Nat.{bit_and}
use nixos_test.Prelude.Outcome.{Result, ok, err}
use nixos_test.Time.Dns.{
  max_jumps, DnsError, out_of_fuel, u16_at, Turn, return, go, follow_label, follow_pointer, turn_at,
  turn, continue, skip_loop, walk_fuel, skip_name,
}

-- What a turn does: it returns past a byte of the message, fails, moves to a later offset, or jumps
-- and remembers the first offset behind a pointer.
abbrev Moves : Bytes → ℕ → ℕ → Option ℕ → Turn → Type 0
Moves message offset jumps after (return (ok end)) =
    (end ≡ unwrap_or after (offset + 1)) × (offset < length message)
Moves message offset jumps after (return (err e)) = e ≢ out_of_fuel
Moves message offset jumps after (go o j a) =
    ((a ≡ after) × (j ≡ jumps) × (offset < o) × (o ≤ length message))
    ⊎ ((a ≡ some (unwrap_or after (offset + 2)))
        × (j ≡ jumps + 1)
        × (j ≤ max_jumps)
        × (offset + 2 ≤ length message))

follow_label-Moves :
    (message : Bytes) (offset jumps : ℕ) (after : Option ℕ) (size : ℕ)
    → offset < length message
    → Moves message offset jumps after (follow_label message offset jumps after size)
unfolding follow_label
follow_label-Moves message offset jumps after size inside = elim (Bool-cases (size == 0)) [
  | inl end ↦ rw end (refl, inside)
  | inr label ↦ elim (Bool-cases (ltb (length message) (offset + (1 + size)))) [
    | inl past ↦ rw (label, past) (λ e. cc)
    | inr fits ↦ rw (label, fits) (inl (refl, refl, omega arith, ground arith))
  ]
]

u16_at-ok :
    (message : Bytes) (offset : ℕ) {word : ℕ}
    → u16_at message offset ≡ ok word
    → offset + 2 ≤ length message
unfolding u16_at
u16_at-ok message offset h = ground arith

pub u16_at-err :
    (message : Bytes) (offset : ℕ) {e : DnsError} → u16_at message offset ≡ err e → e ≢ out_of_fuel
unfolding u16_at
u16_at-err message offset h = ground arith

follow_pointer-Moves :
    (message : Bytes) (offset jumps : ℕ) (after : Option ℕ) (word : Result DnsError ℕ)
    → u16_at message offset ≡ word
    → Moves message offset jumps after (follow_pointer message offset jumps after word)
unfolding follow_pointer
follow_pointer-Moves message offset jumps after (err e) h = u16_at-err message offset h
follow_pointer-Moves message offset jumps after (ok word) h =
    let inside = u16_at-ok message offset h in
    elim (Bool-cases (ltb max_jumps (jumps + 1))) [
      | inl many ↦ rw many (λ e. cc)
      | inr few ↦ elim (Bool-cases (leb (length message) (bit_and word 0x3FFF))) [
        | inl past ↦ rw (few, past) (λ e. cc)
        | inr fits ↦ rw (few, fits) (inr (refl, refl, ground arith, inside))
      ]
    ]

turn_at-Moves :
    (message : Bytes) (offset jumps : ℕ) (after : Option ℕ) (byte : Option ℕ)
    → get_elem? message offset ≡ byte
    → Moves message offset jumps after (turn_at message offset jumps after byte)
unfolding turn_at
turn_at-Moves message offset jumps after none h = λ e. cc
turn_at-Moves message offset jumps after (some size) h =
    elim (Bool-cases (bit_and size 0xC0 == 0)) [
      | inl label ↦
          rw label
            (follow_label-Moves message offset jumps after size (get_elem?-inside message offset h))
      | inr other ↦ elim (Bool-cases (bit_and size 0xC0 == 0xC0)) [
        | inl pointer ↦ rw (other, pointer) (follow_pointer-Moves message offset jumps after _ refl)
        | inr reserved ↦ rw (other, reserved) (λ e. cc)
      ]
    ]

-- What the loop knows of the walk: nothing was passed yet and it stands at or behind the start, or
-- the end of the name is known.
abbrev Anchored : ℕ → Bytes → ℕ → Option ℕ → Type 0
Anchored start message offset none = start ≤ offset
Anchored start message offset (some end) = (start < end) × (end ≤ length message)

-- The name ends behind its start and within the message, or the message is refused for a reason.
abbrev pub Ends : ℕ → Bytes → Result DnsError ℕ → Type 0
Ends start message (ok end) = (start < end) × (end ≤ length message)
Ends start message (err e) = e ≢ out_of_fuel

Anchored-end :
    (start : ℕ) (message : Bytes) (offset size : ℕ) (after : Option ℕ)
    → Anchored start message offset after
    → 0 < size
    → offset + size ≤ length message
    → (start < unwrap_or after (offset + size)) × (unwrap_or after (offset + size) ≤ length message)
Anchored-end start message offset size none h some_bytes fits = (omega arith, fits)
Anchored-end start message offset size (some end) h some_bytes fits = h

Anchored-later :
    (start : ℕ) (message : Bytes) (offset next : ℕ) (after : Option ℕ)
    → Anchored start message offset after
    → offset < next
    → Anchored start message next after
Anchored-later start message offset next none h more = omega arith
Anchored-later start message offset next (some end) h more = h

abbrev measure : ℕ → Bytes → ℕ → ℕ
measure left message offset = left * (length message + 1) + (length message + 1 - offset)

-- A jump from inside the message costs one of the jumps that are left.
jump_measure :
    (k size offset o : ℕ)
    → offset < size
    → k * (size + 1) + (size + 1 - o) < suc k * (size + 1) + (size + 1 - offset)
jump_measure k size offset o inside = omega arith

-- One turn, if every later state of the walk ends well.
continue-Ends :
    (again : ℕ → ℕ → Option ℕ → Result DnsError ℕ) (left start : ℕ) (message : Bytes)
    (offset jumps : ℕ) (after : Option ℕ) (t : Turn)
    → left + jumps ≡ max_jumps
    → Anchored start message offset after
    → ((k o j : ℕ) (b : Option ℕ)
        → k + j ≡ max_jumps
        → measure k message o < measure left message offset
        → Anchored start message o b
        → Ends start message (again o j b))
    → Moves message offset jumps after t
    → Ends start message (continue again t)
unfolding continue
continue-Ends again left start message offset jumps after (return (ok end)) hj a ih (e, inside) =
    rw e (Anchored-end start message offset 1 after a (omega arith) (omega arith))
continue-Ends again left start message offset jumps after (return (err e)) hj a ih m = m
continue-Ends again left start message offset jumps after (go o j b) hj a ih
      (inl (e, ej, more, fits)) =
    ih left o j b (omega arith) (omega arith)
      (rw e (Anchored-later start message offset o after a more))
continue-Ends again zero start message offset jumps after (go o j b) hj a ih
      (inr (e, ej, few, fits)) =
    absurd (omega arith)
continue-Ends again (suc left) start message offset jumps after (go o j b) hj a ih
      (inr (e, ej, few, fits)) =
    ih left o j b (omega arith) (jump_measure left (length message) offset o (omega arith))
      (rw e (Anchored-end start message offset 2 after a (omega arith) fits))

-- `left` jumps are left. A jump costs one of them, and any other turn moves on in the message.
skip_loop-Ends :
    (fuel left start : ℕ) (message : Bytes) (offset jumps : ℕ) (after : Option ℕ)
    → left + jumps ≡ max_jumps
    → measure left message offset < fuel
    → Anchored start message offset after
    → Ends start message (skip_loop fuel message offset jumps after)
unfolding skip_loop
skip_loop-Ends zero left start message offset jumps after hj h a = elim h [ ]
skip_loop-Ends (suc fuel) left start message offset jumps after hj h a =
    continue-Ends (skip_loop fuel message) left start message offset jumps after
      (turn message offset jumps after) hj a
      (λ k o j b hk smaller anchored.
        skip_loop-Ends fuel k start message o j b hk (omega arith) anchored)
      (unfold turn in turn_at-Moves message offset jumps after _ refl)

-- On every message, hostile ones included, the walk over a name ends: it returns an offset behind
-- its start and within the message, or refuses the message. A name never loops, and the caller's
-- cursor always moves forward.
pub skip_name-Ends : (message : Bytes) (start : ℕ) → Ends start message (skip_name message start)
unfolding skip_name
skip_name-Ends message start =
    skip_loop-Ends (walk_fuel (length message)) max_jumps start message start 0 none (omega arith)
      (omega arith) (omega arith)
