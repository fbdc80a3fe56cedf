-- ===== src/Bms/Frame/Delivery.antt =====
-- packages/bms-monitoring/src/frame.rs: `next_frame` ends, returns the first whole frame of its
-- buffer or nothing, and accounts for every byte that it gives up.
use nixos_test.Prelude.{
  ℕ, zero, suc, ◌+◌, ◌*◌, ◌-◌, ◌%◌, ◌^◌, ◌≤◌, ◌<◌, ◌≡◌, refl, ap, ◌∙◌, Option, none, some, Bytes,
  arith, length, drop, drop-drop, length-drop,
}
use mathlib.Core.Path.{subst}
use nixos_test.Bms.Frame.{
  frame_len, Frame, FrameReader, Step, found, skip, bad_checksum, incomplete, step, skipped,
  discarded, consumed, act, next_frame_loop, next_frame,
}
use nixos_test.Bms.Frame.Reference.{first_frame, frame_of, shift, Explains, step-Explains}

-- The reader after `count` bytes of its buffer were given up, and possibly a frame taken.
pub record Advanced (r r' : FrameReader) (count frames : ℕ) : Type 0 where
  pub rest : r'.buffer ≡ drop (count + frames * frame_len) r.buffer
  pub skips : r'.bytes_skipped % 2 ^ 64 ≡ (r.bytes_skipped + count) % 2 ^ 64
  pub oks : r'.frames_ok % 2 ^ 64 ≡ (r.frames_ok + frames) % 2 ^ 64
  pub reads : r'.bytes_read ≡ r.bytes_read

-- What `next_frame` must answer, by where the first whole frame of the buffer begins.
abbrev pub Delivers : Option ℕ → FrameReader → Option (FrameReader × Option Frame) → Type 0
Delivers (some i) r (some (r', some frame)) =
    (frame ≡ frame_of (drop i r.buffer)) × Advanced r r' i 1
Delivers none r (some (r', none)) =
    (length r'.buffer < frame_len) × Advanced r r' (length r.buffer - length r'.buffer) 0
Delivers _ r _ = ⊥

Advanced-trans :
    {r m r' : FrameReader} (a b k : ℕ)
    → Advanced r m a 0
    → Advanced m r' b k
    → Advanced r r' (a + b) k
Advanced-trans {r} {m} a b k first later = record {
  rest =
      later.rest
      ∙ ap (drop (b + k * frame_len)) first.rest
      ∙ drop-drop (b + k * frame_len) (a + 0) r.buffer
      ∙ ap (λ (n : ℕ). drop n r.buffer) (omega arith);
  skips = omega (arith, first.skips, later.skips);
  oks = omega (arith, first.oks, later.oks);
  reads = later.reads ∙ first.reads;
}

length-Advanced :
    {r r' : FrameReader} (count : ℕ)
    → Advanced r r' count 0
    → length r'.buffer ≡ length r.buffer - count
length-Advanced {r} count a = ap length a.rest ∙ length-drop (count + 0) r.buffer ∙ omega arith

-- One round that gives up `count` bytes, and then the rest of the loop.
Delivers-skip :
    (o : Option ℕ) (r m : FrameReader) (out : Option (FrameReader × Option Frame)) (count : ℕ)
    → count ≤ length r.buffer
    → Advanced r m count 0
    → Delivers o m out
    → Delivers (shift count o) r out
Delivers-skip (some i) r m (some (r', some frame)) count fits a (same, d) = (
  same
      ∙ ap (λ (bs : Bytes). frame_of (drop i bs)) a.rest
      ∙ ap frame_of
          (drop-drop i (count + 0) r.buffer ∙ ap (λ (n : ℕ). drop n r.buffer) (omega arith)),
  Advanced-trans count i 1 a d,
)
Delivers-skip none r m (some (r', none)) count fits a (short, d) = (
  short,
  subst (λ n. Advanced r r' n 0) (omega (arith, length-Advanced count a, length-Advanced _ d))
      (Advanced-trans count (length m.buffer - length r'.buffer) 0 a d),
)
Delivers-skip (some i) r m none count fits a d = absurd d
Delivers-skip (some i) r m (some (r', none)) count fits a d = absurd d
Delivers-skip none r m none count fits a d = absurd d
Delivers-skip none r m (some (r', some frame)) count fits a d = absurd d

skipped-Advanced :
    (r : FrameReader) (count : ℕ) → count ≤ length r.buffer → Advanced r (skipped r count) count 0
unfolding skipped
skipped-Advanced r count fits = record {
  rest = ap (λ (n : ℕ). drop n r.buffer) (omega arith);
  skips = omega arith;
  oks = omega arith;
  reads = refl;
}

discarded-Advanced : (r : FrameReader) → Advanced r (discarded r) 1 0
unfolding discarded
discarded-Advanced r = record { rest = refl; skips = omega arith; oks = omega arith; reads = refl }

-- A round, for any decision that says the truth of the buffer, if the rest of the loop delivers
-- on every shorter buffer.
act-Delivers :
    (again : FrameReader → Option (FrameReader × Option Frame)) (r : FrameReader) (s : Step)
    → ((m : FrameReader)
        → length m.buffer < length r.buffer
        → Delivers (first_frame m.buffer) m (again m))
    → Explains r.buffer s
    → Delivers (first_frame r.buffer) r (act again r s)
unfolding act
act-Delivers again r (found frame count) ih (size, same, first) =
    rw (first, size)
      (
        same,
        record {
          rest = unfold consumed in refl;
          skips = unfold consumed in omega arith;
          oks = unfold consumed in omega arith;
          reads = unfold consumed in refl;
        },
      )
act-Delivers again r (skip count) ih (some_bytes, fits, first) =
    let a = skipped-Advanced r count fits in
    rw first (
      Delivers-skip (first_frame (drop count r.buffer)) r (skipped r count) _ count fits a (
        subst (λ bs. Delivers (first_frame bs) (skipped r count) (again (skipped r count)))
          (a.rest ∙ ap (λ (n : ℕ). drop n r.buffer) (omega arith))
          (ih (skipped r count) (omega (arith, length-Advanced count a)))))
act-Delivers again r bad_checksum ih (some_bytes, first) =
    let a = discarded-Advanced r in
    rw first (
      Delivers-skip (first_frame (drop 1 r.buffer)) r (discarded r) _ 1 some_bytes a (
        subst (λ bs. Delivers (first_frame bs) (discarded r) (again (discarded r))) a.rest
          (ih (discarded r) (omega (arith, length-Advanced 1 a)))))
act-Delivers again r incomplete ih (short, first) = rw first (
  short,
  record {
    rest = ap (λ (n : ℕ). drop n r.buffer) {x = 0} (omega arith);
    skips = omega arith;
    oks = omega arith;
    reads = refl;
  },
)

next_frame_loop-Delivers :
    (fuel : ℕ) (r : FrameReader)
    → length r.buffer < fuel
    → Delivers (first_frame r.buffer) r (next_frame_loop fuel r)
unfolding next_frame_loop
next_frame_loop-Delivers zero r h = elim h [ ]
next_frame_loop-Delivers (suc fuel) r h =
    act-Delivers (next_frame_loop fuel) r (step r.buffer)
      (λ m shorter. next_frame_loop-Delivers fuel m (omega arith)) (step-Explains r.buffer)

-- From any state of the reader `next_frame` ends. If a whole frame stands in the buffer it returns
-- the first one and leaves what is behind it; otherwise it returns nothing and leaves less than a
-- frame. The bytes that it gave up are counted as skipped, and a frame that it returned as read.
pub next_frame_lem : (r : FrameReader) → Delivers (first_frame r.buffer) r (next_frame r)
unfolding next_frame
next_frame_lem r = next_frame_loop-Delivers _ r (omega arith)
