-- ===== src/Bms/Frame/Accounting.antt =====
-- packages/bms-monitoring/src/frame.rs: what a delivered frame is, and the counters.
use nixos_test.Prelude.{
  ℕ, zero, suc, ◌+◌, ◌*◌, ◌-◌, ◌%◌, ◌^◌, ◌≤◌, ◌≡◌, refl, sym, ap, ◌∙◌, true, Option, none, some, [],
  ◌∷◌, ◌++◌, Bytes, arith, length, take, drop, get_or, length-take, length-drop, length-append,
  get_or-take, take-append-drop, drop-drop, Option-cases, inl, inr, &&-eq_true, ==→eq, leb→le,
}
use mathlib.Core.Path.{subst}
use nixos_test.Bms.Frame.{
  header, frame_len, checksum_offset, checksum, Frame, FrameReader, is_prefix, feed, next_frame,
}
use nixos_test.Bms.Frame.Reference.{is_frame, first_frame, frame_of}
use nixos_test.Bms.Frame.Delivery.{Advanced, next_frame_lem}

-- The front of the list `bs` is a whole frame that checks.
record Whole (bs : Bytes) : Type 0 where
  at_header : is_prefix header bs ≡ true
  fits : frame_len ≤ length bs
  sum : checksum (take frame_len bs) ≡ get_or bs checksum_offset 0

is_frame-Whole : (bs : Bytes) → is_frame bs ≡ true → Whole bs
unfolding is_frame
is_frame-Whole bs h =
    let (at_header, rest) = &&-eq_true _ _ h in
    let (fits, sum) = &&-eq_true _ _ rest in
    record { at_header = at_header; fits = leb→le _ _ fits; sum = ==→eq _ _ sum }

first_frame-Whole : (bs : Bytes) (i : ℕ) → first_frame bs ≡ some i → Whole (drop i bs)
unfolding first_frame
first_frame-Whole [] i h = cc
first_frame-Whole (b ∷ bs) zero h = is_frame-Whole (b ∷ bs) (ground arith)
first_frame-Whole (b ∷ bs) (suc i) h = first_frame-Whole bs i (ground arith)

is_prefix-take : (n : ℕ) (p bs : Bytes) → length p ≤ n → is_prefix p (take n bs) ≡ is_prefix p bs
unfolding is_prefix
is_prefix-take n [] bs h = refl
is_prefix-take zero (c ∷ p) bs h = elim h [ ]
is_prefix-take (suc n) (c ∷ p) [] h = refl
is_prefix-take (suc n) (c ∷ p) (b ∷ bs) h = rw (is_prefix-take n p bs (omega arith))

-- A frame as it was on the wire: 300 bytes, the header, and a sum that agrees.
pub record IsGenuine (f : Frame) : Type 0 where
  pub whole : length f.bytes ≡ frame_len
  pub headed : is_prefix header f.bytes ≡ true
  pub sum : checksum f.bytes ≡ get_or f.bytes checksum_offset 0
  pub coded : f.code ≡ get_or f.bytes 4 0

frame_of-IsGenuine : (bs : Bytes) → Whole bs → IsGenuine (frame_of bs)
unfolding frame_of
frame_of-IsGenuine bs w = record {
  whole = length-take frame_len bs ∙ omega (arith, w.fits);
  headed = is_prefix-take frame_len header bs (omega arith) ∙ w.at_header;
  sum = w.sum ∙ sym (get_or-take frame_len checksum_offset bs 0 (omega arith));
  coded = sym (get_or-take frame_len 4 bs 0 (omega arith));
}

-- What an answer of `next_frame` says of the reader that it was asked of.
record Answer (r r' : FrameReader) (f : Frame) : Type 0 where
  skipped_bytes : ℕ
  whole : Whole (drop skipped_bytes r.buffer)
  same : f ≡ frame_of (drop skipped_bytes r.buffer)
  advanced : Advanced r r' skipped_bytes 1

answer : (r r' : FrameReader) (f : Frame) → next_frame r ≡ some (r', some f) → Answer r r' f
answer r r' f e = elim (Option-cases (first_frame r.buffer)) [
  | inl missing ↦ absurd (rw (missing, e) at (next_frame_lem r))
  | inr (i, first) ↦
      let (same, advanced) = rw (first, e) at (next_frame_lem r) in
      record {
        skipped_bytes = i;
        whole = first_frame-Whole r.buffer i first;
        same = same;
        advanced = advanced;
      }
]

-- A frame that `next_frame` returns is 300 bytes of the buffer that begin with the header and
-- whose sum agrees; with the bytes before it, which were given up, and the buffer that is left it
-- makes up the buffer.
pub next_frame-IsGenuine :
    (r r' : FrameReader) (f : Frame)
    → next_frame r ≡ some (r', some f)
    → IsGenuine f × ((junk : Bytes) × (r.buffer ≡ junk ++ (f.bytes ++ r'.buffer)))
next_frame-IsGenuine r r' f e =
    let a = answer r r' f e in
    let bs = drop a.skipped_bytes r.buffer in
    (
      subst IsGenuine (sym a.same) (frame_of-IsGenuine bs a.whole),
      (
        take a.skipped_bytes r.buffer,
        sym (take-append-drop a.skipped_bytes r.buffer)
            ∙ ap (λ (t : Bytes). take a.skipped_bytes r.buffer ++ t)
                (sym (take-append-drop frame_len bs)
                  ∙ rw (a.same, a.advanced.rest, drop-drop)
                      (unfold frame_of in
                        ap (λ (n : ℕ). take frame_len bs ++ drop n r.buffer) (omega arith))),
      ),
    )

-- Every byte that was fed in was skipped, stands in a frame that was returned, or is still in the
-- buffer; the counters are `u64`, so this is modulo 2^64.
abbrev pub Accounted : FrameReader → Type 0
Accounted r =
    (r.bytes_skipped + frame_len * r.frames_ok + length r.buffer) % 2 ^ 64 ≡ r.bytes_read % 2 ^ 64

-- Feeding bytes to a reader keeps the account.
pub feed-Accounted : (r : FrameReader) (chunk : Bytes) → Accounted r → Accounted (feed r chunk)
unfolding feed
feed-Accounted r chunk h = omega (arith, length-append r.buffer chunk)

Advanced-Accounted :
    {r r' : FrameReader} (count frames : ℕ)
    → Advanced r r' count frames
    → count + frames * frame_len ≤ length r.buffer
    → Accounted r
    → Accounted r'
Advanced-Accounted {r} count frames a fits h = omega (
  arith,
  ap length a.rest,
  length-drop (count + frames * frame_len) r.buffer,
  a.skips,
  a.oks,
  a.reads,
)

-- Whatever `next_frame` answers, the reader that it leaves is accounted for.
pub next_frame-Accounted :
    (r r' : FrameReader) (o : Option Frame)
    → next_frame r ≡ some (r', o)
    → Accounted r
    → Accounted r'
next_frame-Accounted r r' (some f) e h =
    let a = answer r r' f e in
    Advanced-Accounted a.skipped_bytes 1 a.advanced
      (omega (arith, a.whole.fits, length-drop a.skipped_bytes r.buffer)) h
next_frame-Accounted r r' none e h = elim (Option-cases (first_frame r.buffer)) [
  | inl missing ↦
      let (short, a) = rw (missing, e) at (next_frame_lem r) in
      Advanced-Accounted (length r.buffer - length r'.buffer) 0 a (omega arith) h
  | inr (i, first) ↦ absurd (rw (first, e) at (next_frame_lem r))
]
