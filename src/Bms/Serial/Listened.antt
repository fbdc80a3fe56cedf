-- ===== src/Bms/Serial/Listened.antt =====
-- packages/bms-monitoring/src/port.rs and src/discover.rs: the loops end, and a frame that is returned
-- was wanted and is genuine.
use nixos_test.Prelude.{
  ℕ, zero, suc, ◌<◌, ◌≡◌, ◌≢◌, refl, sym, ap, ◌∙◌, Bool, true, false, Option, none, some, [], ◌∷◌,
  ◌++◌, arith, ◌==◌, length, length-append, Bool-cases, inl, inr,
}
use nixos_test.Prelude.Outcome.{Result, ok, err}
use nixos_test.Serial.{PortError}
use nixos_test.Bms.Frame.{Frame, FrameReader, default, feed, next_frame, is_realtime}
use nixos_test.Bms.Frame.Reference.{first_frame}
use nixos_test.Bms.Frame.Delivery.{Delivers, next_frame_lem}
use nixos_test.Bms.Frame.Accounting.{IsGenuine, next_frame-IsGenuine}
use nixos_test.Bms.Serial.{
  Reads, Found, sift, drain_loop, drain, after_drain, read_loop, read_until, Probe, bms, silent,
  not_a_bms, probe_of, probed, probe,
}

Delivers-some :
    (o : Option ℕ) (r : FrameReader) (out : Option (FrameReader × Option Frame))
    → Delivers o r out
    → (res : FrameReader × Option Frame) × (out ≡ some res)
Delivers-some none r none d = absurd d
Delivers-some (some i) r none d = absurd d
Delivers-some o r (some res) d = (res, refl)

next_frame-some : (r : FrameReader) → (res : FrameReader × Option Frame) × (next_frame r ≡ some res)
next_frame-some r = Delivers-some (first_frame r.buffer) r (next_frame r) (next_frame_lem r)

shorter :
    (r r' : FrameReader) (f : Frame)
    → next_frame r ≡ some (r', some f)
    → length r'.buffer < length r.buffer
shorter r r' f h =
    let (genuine, (junk, e)) = next_frame-IsGenuine r r' f h in
    omega (
      arith,
      ap length e,
      length-append junk (f.bytes ++ r'.buffer),
      length-append f.bytes r'.buffer,
      genuine.whole,
    )

module _ (accept : Frame → Bool) where
  -- A frame that was wanted and is as it was on the wire; or none.
  abbrev pub Wanted : Option Frame → Type 0
  Wanted none = Unit
  Wanted (some f) = (accept f ≡ true) × IsGenuine f

  abbrev Drained : Option (FrameReader × Option Frame) → Type 0
  Drained none = ⊥
  Drained (some (r, o)) = Wanted o

  sift-Drained :
      (r : FrameReader) (out : Option (FrameReader × Option Frame))
      (again : FrameReader → Option (FrameReader × Option Frame))
      → next_frame r ≡ out
      → ((m : FrameReader) → length m.buffer < length r.buffer → Drained (again m))
      → Drained (sift accept out again)
  unfolding sift
  sift-Drained r none again e h =
      let (res, some_res) = next_frame-some r in
      let no : none ≡ some res = sym e ∙ some_res in cc no
  sift-Drained r (some (m, none)) again e h = tt
  sift-Drained r (some (m, some f)) again e h = elim (Bool-cases (accept f)) [
    | inl wanted ↦ rw wanted (wanted, (next_frame-IsGenuine r m f e).0)
    | inr other ↦ rw other (h m (shorter r m f e))
  ]

  drain_loop-Drained :
      (fuel : ℕ) (r : FrameReader) → length r.buffer < fuel → Drained (drain_loop fuel accept r)
  unfolding drain_loop
  drain_loop-Drained zero r h = absurd (omega (arith, h))
  drain_loop-Drained (suc fuel) r h =
      sift-Drained r (next_frame r) (drain_loop fuel accept) refl
        (λ m less. drain_loop-Drained fuel m (omega (arith, h, less)))

  drain-Drained : (r : FrameReader) → Drained (drain accept r)
  unfolding drain
  drain-Drained r = drain_loop-Drained (suc (length r.buffer)) r (omega arith)

  -- The loop has ended, and what it found was wanted and is genuine.
  abbrev pub Settled : Found → Type 0
  Settled none = ⊥
  Settled (some (err e)) = Unit
  Settled (some (ok (r, o))) = Wanted o

  after_drain-Settled :
      (out : Option (FrameReader × Option Frame)) (again : FrameReader → Found)
      → Drained out
      → ((r : FrameReader) → Settled (again r))
      → Settled (after_drain out again)
  unfolding after_drain
  after_drain-Settled none again d h = d
  after_drain-Settled (some (r, none)) again d h = h r
  after_drain-Settled (some (r, some f)) again d h = d

  read_loop-Settled : (reads : Reads) (r : FrameReader) → Settled (read_loop accept reads r)
  unfolding read_loop
  read_loop-Settled [] r = tt
  read_loop-Settled (err e ∷ reads) r = tt
  read_loop-Settled (ok [] ∷ reads) r = read_loop-Settled reads r
  read_loop-Settled (ok (b ∷ chunk) ∷ reads) r =
      after_drain-Settled (drain accept (feed r (b ∷ chunk))) (read_loop accept reads)
        (drain-Drained (feed r (b ∷ chunk))) (read_loop-Settled reads)

  -- From any state of the reader and whatever the port gives, waiting for a frame ends before the fuel
  -- of its loops does; and a frame that it returns is one that was waited for, of 300 bytes, with the
  -- header and with a sum that agrees.
  pub read_until-Settled : (reads : Reads) (r : FrameReader) → Settled (read_until reads r accept)
  unfolding read_until
  read_until-Settled reads r =
      after_drain-Settled (drain accept r) (read_loop accept reads) (drain-Drained r)
        (read_loop-Settled reads)

-- What a port was found to be.
abbrev pub Identified : Option (Result PortError Probe) → Type 0
Identified none = ⊥
Identified (some (err e)) = Unit
Identified (some (ok (bms f))) = (is_realtime f ≡ true) × IsGenuine f
Identified (some (ok silent)) = Unit
Identified (some (ok (not_a_bms bytes_read frames_ok frames_discarded))) = bytes_read ≢ 0

probed-Identified : (out : Found) → Settled is_realtime out → Identified (probed out)
unfolding probed probe_of
probed-Identified none h = h
probed-Identified (some (err e)) h = tt
probed-Identified (some (ok (r, some f))) h = h
probed-Identified (some (ok (r, none))) h = elim (Bool-cases (r.bytes_read == 0)) [
  | inl nothing ↦ rw nothing tt
  | inr something ↦ rw something (nonzero r.bytes_read something)
]
  where
    nonzero : (n : ℕ) → (n == 0) ≡ false → n ≢ 0
    nonzero n h = λ e. ground arith

-- Whatever a port sends, probing it ends; only a port that has sent a genuine realtime frame is taken
-- for a BMS, and only one of which bytes were counted is said to be something else.
pub probe-Identified : (reads : Reads) → Identified (probe reads)
unfolding probe
probe-Identified reads =
    probed-Identified (read_until reads default is_realtime)
      (read_until-Settled is_realtime reads default)
