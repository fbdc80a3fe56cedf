-- ===== src/Inverter/Serial/Framed.antt =====
-- packages/inverter-monitoring/src/port.rs: the frame that is read does not depend on the pieces in
-- which it arrives.
use nixos_test.Prelude.{
  ℕ, ◌+◌, ◌≤◌, ◌≡◌, refl, sym, ap, ◌∙◌, true, false, some, [], ◌∷◌, ◌++◌, append-nil, append_assoc,
  Bytes, All, All-append, arith, ltb, ◌==◌, length, length-append, le→ltb-false,
}
use mathlib.Core.Path.{subst}
use nixos_test.Prelude.Outcome.{ok, err}
use nixos_test.Inverter.Crc.{frame_crc, is_framing, frame_crc-not_framing}
use nixos_test.Inverter.Protocol.{cr, leading, classify, build_response}
use nixos_test.Inverter.Protocol.RoundTrip.{parse_response-build_response}
use nixos_test.Inverter.Serial.{
  Reads, extend, longest, after_read, read_from, read_frame, listen, answered, responded, probe,
}

-- The bytes of some reads, all of which succeeded.
abbrev pub Brings : Reads → Bytes → Type 0
Brings [] bytes = bytes ≡ []
Brings (err e ∷ reads) bytes = ⊥
Brings (ok chunk ∷ reads) bytes = (rest : Bytes) × (bytes ≡ chunk ++ rest) × Brings reads rest

abbrev pub NoCr : Bytes → Type 0
NoCr bytes = All (λ b. (b == cr) ≡ false) bytes

-- A chunk either ends inside of the frame, or brings its CR.
data Cut (body rest chunk : Bytes) : Type 0 where
  inside : (more : Bytes) → body ≡ chunk ++ more → Cut body rest chunk
  beyond : (tail : Bytes) → chunk ≡ body ++ (cr ∷ tail) → Cut body rest chunk

cut : (body rest chunk tail : Bytes) → body ++ (cr ∷ rest) ≡ chunk ++ tail → Cut body rest chunk
cut body rest [] tail h = inside body refl
cut [] rest (c ∷ chunk) tail h =
    let same : cr ≡ c = cc h in beyond chunk (ap (λ (b : ℕ). b ∷ chunk) (sym same))
cut (b ∷ body) rest (c ∷ chunk) tail h =
    let same : b ≡ c = cc h in
    let later : body ++ (cr ∷ rest) ≡ chunk ++ tail = cc h in
    elim (cut body rest chunk tail later) [
      | inside more e ↦ inside more (cc (same, e))
      | beyond t e ↦ beyond t (cc (same, e))
    ]

extend-NoCr : (frame chunk : Bytes) → NoCr chunk → extend frame chunk ≡ (frame ++ chunk, false)
unfolding extend
extend-NoCr frame [] h = ap (λ (f : Bytes). (f, false)) (sym (append-nil frame))
extend-NoCr frame (b ∷ chunk) (ne, h) = rw ne (
    extend-NoCr (frame ++ (b ∷ [])) chunk h
    ∙ ap (λ (f : Bytes). (f, false)) (append_assoc frame (b ∷ []) chunk))

extend-cr :
    (frame body tail : Bytes)
    → NoCr body
    → extend frame (body ++ (cr ∷ tail)) ≡ (frame ++ (body ++ (cr ∷ [])), true)
unfolding extend
extend-cr frame [] tail h = refl
extend-cr frame (b ∷ body) tail (ne, h) = rw ne (
    extend-cr (frame ++ (b ∷ [])) body tail h
    ∙ ap (λ (f : Bytes). (f, true)) (append_assoc frame (b ∷ []) (body ++ (cr ∷ []))))

NoCr-front : (xs ys : Bytes) → NoCr (xs ++ ys) → NoCr xs
NoCr-front [] ys h = tt
NoCr-front (x ∷ xs) ys (p, h) = (p, NoCr-front xs ys h)

NoCr-back : (xs ys : Bytes) → NoCr (xs ++ ys) → NoCr ys
NoCr-back [] ys h = h
NoCr-back (x ∷ xs) ys (p, h) = NoCr-back xs ys h

cancel : (xs : Bytes) {ys zs : Bytes} → xs ++ ys ≡ xs ++ zs → ys ≡ zs
cancel [] h = h
cancel (x ∷ xs) h = cancel xs (cc h)

read_from-frame :
    (frame body rest : Bytes) (reads : Reads)
    → NoCr body
    → length frame + length body ≤ longest
    → Brings reads (body ++ (cr ∷ rest))
    → read_from frame reads ≡ ok (some (frame ++ (body ++ (cr ∷ []))))
unfolding read_from after_read
read_from-frame frame [] rest [] h fits e = cc e
read_from-frame frame (b ∷ body) rest [] h fits e = cc e
read_from-frame frame body rest (err e ∷ reads) h fits brings = absurd brings
read_from-frame frame body rest (ok chunk ∷ reads) h fits (tail, e, brings) =
    elim (cut body rest chunk tail e) [
      | inside more same ↦
          let split = subst NoCr same h in
          let size : length body ≡ length chunk + length more =
            ap length same ∙ length-append chunk more in
          let short : ltb longest (length (frame ++ chunk)) ≡ false =
            le→ltb-false _ _ (omega (arith, length-append frame chunk, size, fits)) in
          let behind : more ++ (cr ∷ rest) ≡ tail = cancel chunk (
            sym (append_assoc chunk more (cr ∷ rest))
            ∙ ap (λ (b : Bytes). b ++ (cr ∷ rest)) (sym same)
            ∙ e) in
          rw (extend-NoCr frame chunk (NoCr-front chunk more split), short)
            (read_from-frame (frame ++ chunk) more rest reads (NoCr-back chunk more split)
                (omega (arith, length-append frame chunk, size, fits))
                (subst (Brings reads) (sym behind) brings)
              ∙ ap (λ (b : Bytes). ok (some b))
                  (append_assoc frame chunk (more ++ (cr ∷ []))
                    ∙ ap (λ (b : Bytes). frame ++ b)
                        (sym (append_assoc chunk more (cr ∷ []))
                          ∙ ap (λ (b : Bytes). b ++ (cr ∷ [])) (sym same))))
      | beyond t same ↦ rw same (rw (extend-cr frame body t h) refl)
    ]

-- Whatever the pieces in which it arrives, and whatever follows it, a frame of at most 512 bytes before
-- its CR is read in full and without anything else.
pub read_frame_lem :
    (body rest : Bytes) (reads : Reads)
    → NoCr body
    → length body ≤ longest
    → Brings reads (body ++ (cr ∷ rest))
    → read_frame reads ≡ ok (some (body ++ (cr ∷ [])))
unfolding read_frame
read_frame_lem body rest reads h fits brings =
    read_from-frame [] body rest reads h (omega (arith, fits)) brings

not_cr : (b : ℕ) → is_framing b ≡ false → (b == cr) ≡ false
not_cr b h = ground arith

-- A port that is silent until it is asked, and then sends the response for a payload without a CR, in
-- whatever pieces, is what the payload says.
pub probe_lem :
    (bytes rest : Bytes) (heard answers : Reads)
    → NoCr bytes
    → length bytes ≤ 509
    → listen heard ≡ ok 0
    → Brings answers (build_response bytes ++ rest)
    → probe heard (ok tt) answers ≡ ok (answered (ok (classify bytes)))
unfolding probe responded build_response
probe_lem bytes rest heard answers h fits silent brings =
    let crc = frame_crc (leading ∷ bytes) in
    let body = (leading ∷ bytes) ++ (crc.0 ∷ crc.1 ∷ []) in
    let (sums, _) = frame_crc-not_framing (leading ∷ bytes) in
    let clean : NoCr body = (
      refl,
      All-append _ bytes (crc.0 ∷ crc.1 ∷ []) h
          (not_cr crc.0 (sums.0), (not_cr crc.1 (sums.1), tt)),
    ) in
    let whole : build_response bytes ≡ body ++ (cr ∷ []) =
      sym (append_assoc (leading ∷ bytes) (crc.0 ∷ crc.1 ∷ []) (cr ∷ [])) in
    let read : read_frame answers ≡ ok (some (build_response bytes)) =
      read_frame_lem body rest answers clean
        (omega (arith, length-append (leading ∷ bytes) (crc.0 ∷ crc.1 ∷ []), fits))
        (subst (Brings answers)
          (ap (λ (b : Bytes). b ++ rest) whole ∙ append_assoc body (cr ∷ []) rest) brings)
      ∙ ap (λ (b : Bytes). ok (some b)) (sym whole) in
    rw (silent, read, parse_response-build_response bytes) refl
