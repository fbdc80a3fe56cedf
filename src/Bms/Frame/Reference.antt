-- ===== src/Bms/Frame/Reference.antt =====
-- packages/bms-monitoring/src/frame.rs: where the first whole frame of a stream begins, said with
-- no reader, and what one decision of `step` means for it.
use nixos_test.Prelude.{
  ℕ, zero, suc, ◌+◌, ◌-◌, ◌≤◌, ◌<◌, ◌≡◌, refl, inl, inr, Bool, true, false, ◌&&◌, Option, none,
  some, [], ◌∷◌, Bytes, arith, ◌∙◌, ltb, lt→ltb, leb, ◌==◌, if◌then◌else◌, Bool-cases, Option-cases,
  length, take, drop, get_or,
}
use mathlib.Core.Option
use nixos_test.Bms.Frame.{
  header, frame_len, checksum_offset, checksum, Frame, Step, found, skip, bad_checksum, incomplete,
  is_prefix, position, find_header, step_at_header, step_with, step,
}

-- A whole frame stands at the front: the header, 300 bytes, and a sum that agrees.
unfoldable pub is_frame : Bytes → Bool
is_frame bs =
    is_prefix header bs
    && (leb frame_len (length bs) && checksum (take frame_len bs) == get_or bs checksum_offset 0)

unfoldable pub frame_of : Bytes → Frame
frame_of bs = record { code = get_or bs 4 0; bytes = take frame_len bs }

-- The number of bytes before the first whole frame.
unfoldable pub first_frame : Bytes → Option ℕ
first_frame [] = none
first_frame (b ∷ bs) = if is_frame (b ∷ bs) then some 0 else Option.map suc (first_frame bs)

abbrev pub shift : ℕ → Option ℕ → Option ℕ
shift k none = none
shift k (some i) = some (k + i)

no_header : (bs : Bytes) → is_prefix header bs ≡ false → is_frame bs ≡ false
unfolding is_frame
no_header bs h = rw h

first_frame_later :
    (b : ℕ) (bs : Bytes)
    → is_frame (b ∷ bs) ≡ false
    → first_frame (b ∷ bs) ≡ shift 1 (first_frame bs)
unfolding first_frame
first_frame_later b bs h = ground arith

shift-suc : (k : ℕ) (o : Option ℕ) → shift 1 (shift k o) ≡ shift (suc k) o
shift-suc k o = ground arith

shift-zero : (o : Option ℕ) → o ≡ shift 0 o
shift-zero o = ground arith

first_frame-position-none : (bs : Bytes) → position bs ≡ none → first_frame bs ≡ none
unfolding position
first_frame-position-none [] h = unfold first_frame in refl
first_frame-position-none (b ∷ bs) h =
    ground (arith, no_header (b ∷ bs), first_frame_later b bs, first_frame-position-none bs)

record Positioned (bs : Bytes) (k : ℕ) : Type 0 where
  fits : k < length bs
  at_header : is_prefix header (drop k bs) ≡ true
  none_before : first_frame bs ≡ shift k (first_frame (drop k bs))

Positioned-suc :
    (b : ℕ) (bs : Bytes) (k : ℕ)
    → is_prefix header (b ∷ bs) ≡ false
    → Positioned bs k
    → Positioned (b ∷ bs) (suc k)
Positioned-suc b bs k away p = record {
  fits = omega (arith, p.fits);
  at_header = p.at_header;
  none_before =
      first_frame_later b bs (no_header (b ∷ bs) away)
      ∙ rw p.none_before (shift-suc k (first_frame (drop k bs)));
}

position-suc :
    (b : ℕ) (bs : Bytes) (k : ℕ)
    → position (b ∷ bs) ≡ some (suc k)
    → (is_prefix header (b ∷ bs) ≡ false) × (position bs ≡ some k)
unfolding position
position-suc b bs k h = ground arith

position-Positioned : (bs : Bytes) (k : ℕ) → position bs ≡ some k → Positioned bs k
position-Positioned [] k h = unfold position in cc
position-Positioned (b ∷ bs) zero h = record {
  fits = omega arith;
  at_header = unfold position in ground arith;
  none_before = shift-zero (first_frame (b ∷ bs));
}
position-Positioned (b ∷ bs) (suc k) h =
    let (away, later) = position-suc b bs k h in
    Positioned-suc b bs k away (position-Positioned bs k later)

short_no_frame : (bs : Bytes) → length bs < frame_len → is_frame bs ≡ false
unfolding is_frame
short_no_frame bs h = ground arith

pub first_frame_short : (bs : Bytes) → length bs < frame_len → first_frame bs ≡ none
unfolding first_frame
first_frame_short [] h = refl
first_frame_short (b ∷ bs) h = ground (arith, short_no_frame (b ∷ bs), first_frame_short bs)

-- What each decision of `step` says of the stream: the bytes that it gives up begin no frame.
abbrev pub Explains : Bytes → Step → Type 0
Explains bs (found frame count) =
    (count ≡ frame_len) × (frame ≡ frame_of bs) × (first_frame bs ≡ some 0)
Explains bs (skip count) =
    (0 < count) × (count ≤ length bs) × (first_frame bs ≡ shift count (first_frame (drop count bs)))
Explains bs bad_checksum = (0 < length bs) × (first_frame bs ≡ shift 1 (first_frame (drop 1 bs)))
Explains bs incomplete = (length bs < frame_len) × (first_frame bs ≡ none)

first_frame_here : (bs : Bytes) → is_frame bs ≡ true → first_frame bs ≡ some 0
first_frame_here [] h = unfold is_frame is_prefix in cc
first_frame_here (b ∷ bs) h = unfold first_frame in rw h

first_frame_not_here :
    (bs : Bytes)
    → 0 < length bs
    → is_frame bs ≡ false
    → first_frame bs ≡ shift 1 (first_frame (drop 1 bs))
first_frame_not_here [] h n = elim h [ ]
first_frame_not_here (b ∷ bs) h n = first_frame_later b bs n

whole_is_frame :
    (bs : Bytes)
    → is_prefix header bs ≡ true
    → ltb (length bs) frame_len ≡ false
    → is_frame bs ≡ (checksum (take frame_len bs) == get_or bs checksum_offset 0)
unfolding is_frame
whole_is_frame bs h whole = rw h (ground arith)

step_at_header-Explains :
    (bs : Bytes) → is_prefix header bs ≡ true → Explains bs (step_at_header bs)
unfolding step_at_header
step_at_header-Explains bs h = elim (Bool-cases (ltb (length bs) frame_len)) [
  | inl short ↦ rw short (ground arith, first_frame_short bs (ground arith))
  | inr whole ↦
      let same = whole_is_frame bs h whole in
      elim (Bool-cases (checksum (take frame_len bs) == get_or bs checksum_offset 0)) [
        | inl good ↦
            rw (whole, good) (refl, unfold frame_of in refl, first_frame_here bs (same ∙ good))
        | inr bad ↦
            rw (whole, bad) (ground arith, first_frame_not_here bs (ground arith) (same ∙ bad))
      ]
]

first_frame-drop-none :
    (bs : Bytes) (k : ℕ) → first_frame bs ≡ none → first_frame (drop k bs) ≡ none
unfolding first_frame
first_frame-drop-none bs zero h = h
first_frame-drop-none [] (suc k) h = refl
first_frame-drop-none (b ∷ bs) (suc k) h = first_frame-drop-none bs k (ground arith)

-- With no header in the buffer, all but three bytes are given up.
headerless_step : (bs : Bytes) → first_frame bs ≡ none → Explains bs (step_with none bs)
unfolding step_with
headerless_step bs e = elim (Bool-cases (ltb 3 (length bs))) [
  | inl long ↦
      rw long (ground arith, ground arith, rw (e, first_frame-drop-none bs (length bs - 3) e) refl)
  | inr short ↦ rw short (ground arith, e)
]

headed_step : (bs : Bytes) (k : ℕ) → Positioned bs k → Explains bs (step_with (some k) bs)
unfolding step_with
headed_step bs zero p = step_at_header-Explains bs p.at_header
headed_step bs (suc k) p =
    rw (lt→ltb 0 (suc k) (omega arith)) (omega arith, omega (arith, p.fits), p.none_before)

find_header-none : (bs : Bytes) → find_header bs ≡ none → first_frame bs ≡ none
unfolding find_header
find_header-none bs h = elim (Bool-cases (ltb (length bs) 4)) [
  | inl short ↦ first_frame_short bs (ground arith)
  | inr long ↦ first_frame-position-none bs (rw long at h)
]

find_header-some : (bs : Bytes) (k : ℕ) → find_header bs ≡ some k → Positioned bs k
unfolding find_header
find_header-some bs k h = position-Positioned bs k (ground arith)

pub step-Explains : (bs : Bytes) → Explains bs (step bs)
unfolding step
step-Explains bs = elim (Option-cases (find_header bs)) [
  | inl missing ↦ rw missing (headerless_step bs (find_header-none bs missing))
  | inr (k, at) ↦ rw at (headed_step bs k (find_header-some bs k at))
]
