-- ===== src/Bms/Parse/Settings/Bounds.antt =====
-- packages/bms-monitoring/src/parse.rs: the settings are read from the bytes in front of the frame's
-- checksum.
use nixos_test.Prelude.{
  ℕ, ◌+◌, ◌*◌, ◌≤◌, ◌<◌, ◌≡◌, refl, ap, List, [], ◌∷◌, map, Bytes, arith, ltb, get_or-take, take,
  All, Bool-cases, inl, inr, ltb-false→le,
}
use nixos_test.Prelude.Int.{pos}
use nixos_test.Prelude.Bits.{range}
use nixos_test.Bms.Frame.{Frame}
use nixos_test.Bms.Parse.{F64, u16_at, u32_at, i32_at, milli}
use nixos_test.Bms.Parse.Cells.Slots.{range-All}
use nixos_test.Bms.Parse.Settings.{read_settings, parse_settings}

u16_at-take :
    (n offset : ℕ) (bytes : Bytes)
    → offset + 2 ≤ n
    → u16_at (take n bytes) offset ≡ u16_at bytes offset
unfolding u16_at
u16_at-take n offset bytes h =
    rw
      (get_or-take n offset bytes 0 (omega arith), get_or-take n (offset + 1) bytes 0 (omega arith))
      refl

u32_at-take :
    (n offset : ℕ) (bytes : Bytes)
    → offset + 4 ≤ n
    → u32_at (take n bytes) offset ≡ u32_at bytes offset
unfolding u32_at
u32_at-take n offset bytes h =
    rw (u16_at-take n offset bytes (omega arith), u16_at-take n (offset + 2) bytes (omega arith))
      refl

i32_at-take :
    (n offset : ℕ) (bytes : Bytes)
    → offset + 4 ≤ n
    → i32_at (take n bytes) offset ≡ i32_at bytes offset
unfolding i32_at
i32_at-take n offset bytes h = rw (u32_at-take n offset bytes h) refl

map-agree {ℓ} :
    {A : Type ℓ} (f g : ℕ → A) (P : ℕ → Type 0)
    → ((k : ℕ) → P k → f k ≡ g k)
    → (ks : List ℕ) → All P ks
    → map f ks ≡ map g ks
map-agree f g P same [] h = refl
map-agree f g P same (k ∷ ks) (p, h) = rw (same k p, map-agree f g P same ks h) refl

module _ (f64 : F64) where
  read_settings-take :
      (bytes : Bytes)
      → u32_at bytes 114 ≤ 32
      → read_settings f64 (take 299 bytes) ≡ read_settings f64 bytes
  unfolding read_settings
  read_settings-take bytes h =
      let cells =
        map-agree (λ slot. milli f64 (pos (u32_at (take 299 bytes) (142 + 4 * slot))))
          (λ slot. milli f64 (pos (u32_at bytes (142 + 4 * slot))))
          (λ slot. slot < u32_at bytes 114)
          (λ slot k.
            ap (λ (v : ℕ). milli f64 (pos v))
              (u32_at-take 299 (142 + 4 * slot) bytes (omega (arith, h, k))))
          (range (u32_at bytes 114)) (range-All (u32_at bytes 114)) in
      rw
        (
          u32_at-take 299 114 bytes (omega arith),
          cells,
          get_or-take 299 284 bytes 0 (omega arith),
          u32_at-take 299 130 bytes (omega arith),
          u32_at-take 299 10 bytes (omega arith),
          u32_at-take 299 14 bytes (omega arith),
          u32_at-take 299 18 bytes (omega arith),
          u32_at-take 299 22 bytes (omega arith),
          u32_at-take 299 38 bytes (omega arith),
          u32_at-take 299 42 bytes (omega arith),
          u32_at-take 299 30 bytes (omega arith),
          u32_at-take 299 34 bytes (omega arith),
          u32_at-take 299 46 bytes (omega arith),
          u32_at-take 299 26 bytes (omega arith),
          u32_at-take 299 138 bytes (omega arith),
          u32_at-take 299 78 bytes (omega arith),
          u32_at-take 299 126 bytes (omega arith),
          u32_at-take 299 118 bytes (omega arith),
          u32_at-take 299 122 bytes (omega arith),
          u32_at-take 299 50 bytes (omega arith),
          u32_at-take 299 54 bytes (omega arith),
          u32_at-take 299 58 bytes (omega arith),
          u32_at-take 299 62 bytes (omega arith),
          u32_at-take 299 66 bytes (omega arith),
          u32_at-take 299 70 bytes (omega arith),
          u32_at-take 299 134 bytes (omega arith),
          u32_at-take 299 74 bytes (omega arith),
          i32_at-take 299 82 bytes (omega arith),
          i32_at-take 299 86 bytes (omega arith),
          i32_at-take 299 90 bytes (omega arith),
          i32_at-take 299 94 bytes (omega arith),
          i32_at-take 299 98 bytes (omega arith),
          i32_at-take 299 102 bytes (omega arith),
          i32_at-take 299 106 bytes (omega arith),
          i32_at-take 299 110 bytes (omega arith),
          u32_at-take 299 6 bytes (omega arith),
          u32_at-take 299 274 bytes (omega arith),
          u32_at-take 299 278 bytes (omega arith),
          u32_at-take 299 270 bytes (omega arith),
          u16_at-take 299 282 bytes (omega arith),
        )
        refl

  -- Nothing that stands at the frame's checksum, at 299, or behind it is read, however many cells the
  -- frame claims to have: the settings, or the error, are those of the first 299 bytes.
  pub parse_settings-take :
      (frame : Frame)
      → parse_settings f64 (record frame { bytes = take 299 frame.bytes })
        ≡ parse_settings f64 frame
  unfolding parse_settings
  parse_settings-take frame = elim (Bool-cases (ltb 32 (u32_at frame.bytes 114))) [
    | inl many ↦ rw (u32_at-take 299 114 frame.bytes (omega arith), many) refl
    | inr few ↦
        rw
          (
            u32_at-take 299 114 frame.bytes (omega arith),
            few,
            read_settings-take frame.bytes (ltb-false→le 32 (u32_at frame.bytes 114) few),
          )
          refl
  ]
