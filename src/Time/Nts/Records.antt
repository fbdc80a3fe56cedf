-- ===== src/Time/Nts/Records.antt =====
-- packages/time-correction/src/nts.rs: the records that an accepted response is made of.
use nixos_test.Prelude.{
  ℕ, zero, suc, ◌+◌, ◌≤◌, ◌≡◌, ◌≢◌, ◌⊎◌, inl, inr, refl, sym, ap, ◌∙◌, Bool, true, false, not,
  Option, some, List, [], ◌∷◌, ◌++◌, append-nil, append_assoc, Bytes, arith, ltb, leb, ◌==◌, ==→eq,
  leb→le, if◌then◌else◌, length, get_or, be_u16, slice, All, Bool-cases,
}
use mathlib.Core.Path.{subst}
use nixos_test.Prelude.Outcome.{Result, ok, >>=-eq-ok, ok-injective, ok-ne-err, ok_or}
use nixos_test.Time.Nts
use Prim.Native.Nat.{bit_and}

u16_at-ok :
    (message : Bytes) (offset : ℕ) {v : ℕ}
    → Nts.u16_at message offset ≡ ok v
    → (offset + 2 ≤ length message)
      × (v ≡ be_u16 (get_or message offset 0) (get_or message (offset + 1) 0))
unfolding Nts.u16_at
u16_at-ok message offset {v = v} h = elim (Bool-cases (leb (offset + 2) (length message))) [
  | inl fits ↦ (leb→le (offset + 2) (length message) fits, sym (ok-injective _ v (rw fits at h)))
  | inr short ↦ absurd (ok-ne-err v _ (sym (rw short at h)))
]

-- Where a record that is read stands: its header is inside of the message, and the next record
-- begins behind its body.
abbrev pub IsAt : Bytes → ℕ → Nts.Header → Type 0
IsAt message offset r =
    (offset + 4 ≤ length message)
    × ((r.next
          ≡ offset + (4 + be_u16 (get_or message (offset + 2) 0) (get_or message (offset + 3) 0)))
        × (r.kind
            ≡ bit_and (be_u16 (get_or message offset 0) (get_or message (offset + 1) 0)) 0x7FFF))

pub read_record-IsAt :
    (message : Bytes) (offset : ℕ) {r : Nts.Header}
    → Nts.read_record message offset ≡ ok r
    → IsAt message offset r
unfolding Nts.read_record
read_record-IsAt message offset h =
    let (header, first, h1) = >>=-eq-ok (Nts.u16_at message offset) _ h in
    let (size, second, h2) = >>=-eq-ok (Nts.u16_at message (offset + 2)) _ h1 in
    let (body, cut, h3) =
      >>=-eq-ok (ok_or (slice message (offset + 4) (offset + 4 + size)) _) _ h2 in
    let (fits, is_header) = u16_at-ok message offset first in
    let (fits', is_size) = u16_at-ok message (offset + 2) second in
    let e : offset + 2 + 1 ≡ offset + 3 = omega arith in
    let is_size' = rw e at is_size in
    subst (IsAt message offset) (ok-injective _ _ h3) (
      omega (arith, fits'),
      (ap (λ (n : ℕ). offset + (4 + n)) is_size', ap (λ (n : ℕ). bit_and n 0x7FFF) is_header),
    )

-- A record of the kind, if it is one, has a body of two bytes.
abbrev pub IsPair : ℕ → Nts.Header → Type 0
IsPair kind r = (r.kind ≢ kind) ⊎ (length r.body ≡ 2)

-- What a client may take from a server: no error and no warning; the protocol, the AEAD and the port
-- in two bytes each; a server's name that is text; and if the kind is unknown, the critical bit is
-- clear.
abbrev pub Understood : (Bytes → Bool) → Nts.Header → Type 0
Understood is_utf8 r =
    (r.kind ≢ 2)
    × ((r.kind ≢ 3)
        × (IsPair 1 r
            × (IsPair 4 r
                × (IsPair 7 r
                    × (((r.kind ≢ 6) ⊎ (is_utf8 r.body ≡ true))
                        × ((r.kind ≤ 7) ⊎ (r.critical ≡ false)))))))

-- The last value that records of a kind give.
abbrev pub last_of : ℕ → List Nts.Header → Option ℕ → Option ℕ
last_of kind [] v = v
last_of kind (r ∷ rs) v = last_of kind rs (if r.kind == kind then some (Nts.body_u16 r.body) else v)

-- The last body of a kind.
abbrev pub last_body : ℕ → List Nts.Header → Option Bytes → Option Bytes
last_body kind [] v = v
last_body kind (r ∷ rs) v = last_body kind rs (if r.kind == kind then some r.body else v)

abbrev pub cookies_of : List Nts.Header → List Bytes
cookies_of [] = []
cookies_of (r ∷ rs) = if r.kind == 5 then r.body ∷ cookies_of rs else cookies_of rs

-- The records from an offset up to the end-of-message record.
abbrev pub Reads : Bytes → ℕ → List Nts.Header → Type 0
Reads message offset [] =
    (r : Nts.Header) × ((Nts.read_record message offset ≡ ok r) × (r.kind ≡ 0))
Reads message offset (r ∷ rs) =
    (Nts.read_record message offset ≡ ok r) × ((r.kind ≢ 0) × Reads message r.next rs)

-- What the loop gathers from the records.
abbrev pub IsGathered : (Bytes → Bool) → Nts.Gathered → List Nts.Header → Nts.Gathered → Type 0
IsGathered is_utf8 g rs g' =
    All (Understood is_utf8) rs
    × ((g'.cookies ≡ g.cookies ++ cookies_of rs)
        × ((g'.next_protocol ≡ last_of 1 rs g.next_protocol)
            × ((g'.aead ≡ last_of 4 rs g.aead)
                × ((g'.port ≡ last_of 7 rs g.port) × (g'.server ≡ last_body 6 rs g.server)))))

module _ (is_utf8 : Bytes → Bool) where
  gather-Understood :
      (r : Nts.Header) (g : Nts.Gathered) {g' : Nts.Gathered}
      → Nts.gather is_utf8 r g ≡ ok g'
      → Understood is_utf8 r
        × ((g'.cookies ≡ (if r.kind == 5 then g.cookies ++ (r.body ∷ []) else g.cookies))
            × ((g'.next_protocol
                  ≡ (if r.kind == 1 then some (Nts.body_u16 r.body) else g.next_protocol))
                × ((g'.aead ≡ (if r.kind == 4 then some (Nts.body_u16 r.body) else g.aead))
                    × ((g'.port ≡ (if r.kind == 7 then some (Nts.body_u16 r.body) else g.port))
                        × (g'.server ≡ (if r.kind == 6 then some r.body else g.server))))))
  unfolding Nts.gather
  gather-Understood r g h = ground (arith, h)

  IsGathered-cons :
      (r : Nts.Header) (rs : List Nts.Header) (g g1 g' : Nts.Gathered)
      → Nts.gather is_utf8 r g ≡ ok g1
      → IsGathered is_utf8 g1 rs g'
      → IsGathered is_utf8 g (r ∷ rs) g'
  IsGathered-cons r rs g g1 g' h (all, (cookies, (protocol, (aead, (port, server))))) =
      let (understood, (c1, (p1, (a1, (t1, n1))))) = gather-Understood r g h in
      (
        (understood, all),
        (
          (cookies ∙ (ap (λ (c : List Bytes). c ++ cookies_of rs) c1 ∙ more (r.kind == 5))),
          (
            protocol ∙ ap (λ (v : Option ℕ). last_of 1 rs v) p1,
            (
              aead ∙ ap (λ (v : Option ℕ). last_of 4 rs v) a1,
              (
                port ∙ ap (λ (v : Option ℕ). last_of 7 rs v) t1,
                server ∙ ap (λ (v : Option Bytes). last_body 6 rs v) n1,
              ),
            ),
          ),
        ),
      )
    where
      more :
          (b : Bool)
          → (if b then g.cookies ++ (r.body ∷ []) else g.cookies) ++ cookies_of rs
            ≡ g.cookies ++ (if b then r.body ∷ cookies_of rs else cookies_of rs)
      more true = append_assoc g.cookies (r.body ∷ []) (cookies_of rs)
      more false = refl

  pub records_from-IsGathered :
      (fuel : ℕ) (message : Bytes) (offset : ℕ) (g g' : Nts.Gathered)
      → Nts.records_from is_utf8 fuel message offset g ≡ ok (g', true)
      → (rs : List Nts.Header) × (Reads message offset rs × IsGathered is_utf8 g rs g')
  unfolding Nts.records_from
  records_from-IsGathered zero message offset g g' h = cc
  records_from-IsGathered (suc fuel) message offset g g' h =
      let (inside, h1) = unended (ltb offset (length message)) h in
      let (r, here, h2) = >>=-eq-ok (Nts.read_record message offset) _ h1 in
      elim (Bool-cases (r.kind == 0)) [
        | inl end ↦
            let same : g ≡ g' =
              ap (λ (p : Nts.Gathered × Bool). p.0) (ok-injective _ _ (rw end at h2)) in
            (
              [],
              (
                (r, (here, ==→eq r.kind 0 end)),
                subst (IsGathered is_utf8 g []) same
                    (tt, (sym (append-nil g.cookies), (refl, (refl, (refl, refl))))),
              ),
            )
        | inr more ↦
            let (g1, gathered, h3) = >>=-eq-ok (Nts.gather is_utf8 r g) _ (rw more at h2) in
            let (rs, (reads, rest)) = records_from-IsGathered fuel message r.next g1 g' h3 in
            (r ∷ rs, ((here, (ne r.kind more, reads)), IsGathered-cons r rs g g1 g' gathered rest))
      ]
    where
      unended :
          (b : Bool) {m : Result Nts.NtsError (Nts.Gathered × Bool)}
          → (if not b then ok (g, false) else m) ≡ ok (g', true)
          → (b ≡ true) × (m ≡ ok (g', true))
      unended true h = (refl, h)
      unended false h = cc

      ne : (k : ℕ) → (k == 0) ≡ false → k ≢ 0
      ne k h e = ground (arith, h, e)
