-- ===== src/Time/Deferred/Accepted.antt =====
-- packages/time-correction/src/deferred.rs: what an accepted time promises.
use nixos_test.Prelude.{
  ◌≡◌, refl, sym, ap, ◌∙◌, Bool, true, false, &&-eq_true, ◌||◌, Option, none, some, List, [], ◌∷◌,
  Bytes, arith, if◌then◌else◌, All, All-append, Bool-cases, inl, inr,
}
use mathlib.Core.Path.{subst}
use nixos_test.Prelude.Int.{ℤ, ◌≤ℤ◌}
use nixos_test.Prelude.Bits.{filter}
use nixos_test.Prelude.Outcome.{ok, >>=-eq-ok, rejected-eq_ok, require-eq_ok, ok-injective}
use nixos_test.Time.Deferred

-- The window holds the instant.
abbrev pub Holds : ℤ → Deferred.Window → Type 0
Holds t w = (w.0 ≤ℤ t) × (t ≤ℤ w.1)

abbrev pub Inside : Deferred.Window → Deferred.Window → Type 0
Inside u w = (w.0 ≤ℤ u.0) × (u.1 ≤ℤ w.1)

contains-Holds : (t : ℤ) (w : Deferred.Window) → Deferred.contains t w ≡ true → Holds t w
contains-Holds t w h =
    let (low, high) = &&-eq_true (Deferred.leb_ℤ (w.0) t) _ h in
    (tested (w.0) t low, tested t (w.1) high)
  where
    tested : (a b : ℤ) → Deferred.leb_ℤ a b ≡ true → a ≤ℤ b
    tested a b h = ground (arith, h)

-- The windows that all hold an instant have a common part, and it holds the instant.
intersect_from-Holds :
    (t start end : ℤ) (windows : List Deferred.Window)
    → Holds t (start, end)
    → All (Holds t) windows
    → (u : Deferred.Window) × ((Deferred.intersect_from start end windows ≡ some u)
        × (Holds t u × (Inside u (start, end) × All (Inside u) windows)))
unfolding Deferred.intersect_from
intersect_from-Holds t start end [] (low, high) h =
    let e : Deferred.leb_ℤ start end ≡ true = ground arith in
    ((start, end), (rw e refl, ((low, high), ((omega arith, omega arith), tt))))
intersect_from-Holds t start end (w ∷ windows) (low, high) ((l, k), h) =
    let (u, (e, (holds, ((a, b), rest)))) =
      intersect_from-Holds t (Deferred.max_ℤ start (w.0)) (Deferred.min_ℤ end (w.1)) windows
        (above start (w.0) low l, below end (w.1) high k) h in
    (
      u,
      (
        e,
        (
          holds,
          (
            ((over start (w.0) (u.0) a).0, (under end (w.1) (u.1) b).0),
            (((over start (w.0) (u.0) a).1, (under end (w.1) (u.1) b).1), rest),
          ),
        ),
      ),
    )
  where
    above : (a b : ℤ) → a ≤ℤ t → b ≤ℤ t → Deferred.max_ℤ a b ≤ℤ t
    above a b h k = ground arith

    below : (a b : ℤ) → t ≤ℤ a → t ≤ℤ b → t ≤ℤ Deferred.min_ℤ a b
    below a b h k = ground arith

    over : (a b c : ℤ) → Deferred.max_ℤ a b ≤ℤ c → (a ≤ℤ c) × (b ≤ℤ c)
    over a b c h = ground arith

    under : (a b c : ℤ) → c ≤ℤ Deferred.min_ℤ a b → (c ≤ℤ a) × (c ≤ℤ b)
    under a b c h = ground arith

used-Holds :
    (t : ℤ) (windows : List Deferred.Window) → All (Holds t) (filter (Deferred.contains t) windows)
used-Holds t [] = tt
used-Holds t (w ∷ windows) = elim (Bool-cases (Deferred.contains t w)) [
  | inl within ↦ rw within (contains-Holds t w within, used-Holds t windows)
  | inr outside ↦ rw outside (used-Holds t windows)
]

-- The instants that an `i64` holds.
abbrev pub IsI64 : ℤ → Type 0
IsI64 t = Holds t (Deferred.i64_min, Deferred.i64_max)

intersect-Holds :
    (t : ℤ) (windows : List Deferred.Window)
    → IsI64 t
    → All (Holds t) windows
    → (u : Deferred.Window) × ((Deferred.intersect windows ≡ some u) × Holds t u)
unfolding Deferred.intersect
intersect-Holds t windows i64 h =
    let (u, (e, (holds, _))) =
      intersect_from-Holds t Deferred.i64_min Deferred.i64_max windows i64 h in
    (u, (e, holds))

some-injective {ℓ} : {A : Type ℓ} {a b : A} → ◌≡◌ {A = Option A} (some a) (some b) → a ≡ b
some-injective h = cc h

verified_window-Holds :
    (windows : List (Option Deferred.Window)) (t : ℤ) {w : Deferred.Window}
    → IsI64 t
    → Deferred.verified_window windows t ≡ some w
    → Holds t w
unfolding Deferred.verified_window
verified_window-Holds windows t {w = w} i64 h =
    let used = filter (Deferred.contains t) (Deferred.known windows) in
    let (u, (e, holds)) = intersect-Holds t used i64 (used-Holds t (Deferred.known windows)) in
    elim (Bool-cases (Deferred.is_empty windows || Deferred.any_unknown windows)) [
      | inl unknown ↦ let no : none ≡ some w = rw unknown at h in cc no
      | inr all_known ↦ elim (Bool-cases (Deferred.is_empty used)) [
        | inl unused ↦ let no : none ≡ some w = rw (all_known, unused) at h in cc no
        | inr some_used ↦
            let same : some u ≡ some w = sym e ∙ (rw (all_known, some_used) at h) in
            subst (Holds t) (some-injective same) holds
      ]
    ]

-- What is promised of a window, if one is known.
abbrev pub HoldsIfKnown : ℤ → Option Deferred.Window → Type 0
HoldsIfKnown t none = Unit
HoldsIfKnown t (some w) = Holds t w

with_window-Holds :
    (t : ℤ) (window : Option Deferred.Window) (gathered : List Deferred.Window × Bool)
    → HoldsIfKnown t window
    → All (Holds t) (gathered.0)
    → All (Holds t) ((Deferred.with_window window gathered).0)
unfolding Deferred.with_window
with_window-Holds t none gathered h all = all
with_window-Holds t (some w) gathered h all = All-append (Holds t) (gathered.0) (w ∷ []) all (h, tt)

module _ (pki : Deferred.Pki) where
  open pki use {verify_at}

  abbrev pub IsVerified : ℤ → Deferred.Pending pki → Type 0
  IsVerified t p = verify_at p.chain p.server_name t ≡ true

  leg_window-Holds :
      (leg : Bytes) (chain : List pki.Certificate) (t : ℤ) (window : Option Deferred.Window)
      → IsI64 t
      → Deferred.leg_window pki leg chain t ≡ ok window
      → HoldsIfKnown t window
  unfolding Deferred.leg_window
  leg_window-Holds leg [] t window i64 h = cc
  leg_window-Holds leg (leaf ∷ rest) t none i64 h = tt
  leg_window-Holds leg (leaf ∷ rest) t (some w) i64 h =
      verified_window-Holds (Deferred.chain_windows pki leaf rest) t i64 (ok-injective _ _ h)

  check_chains-IsVerified :
      (pending : List (Deferred.Pending pki)) (t : ℤ) (g g' : List Deferred.Window × Bool)
      → IsI64 t
      → Deferred.check_chains pki pending t g ≡ ok g'
      → All (Holds t) (g.0)
      → All (IsVerified t) pending × All (Holds t) (g'.0)
  unfolding Deferred.check_chains
  check_chains-IsVerified [] t g g' i64 h all = (
    tt,
    subst (λ (p : List Deferred.Window × Bool). All (Holds t) (p.0)) (ok-injective g g' h) all,
  )
  check_chains-IsVerified (p ∷ pending) t g g' i64 h all =
      let (verified, h1) = require-eq_ok (verify_at p.chain p.server_name t) _ h in
      let (window, got, h2) = >>=-eq-ok (Deferred.leg_window pki p.leg p.chain t) _ h1 in
      let here =
        with_window-Holds t window g (leg_window-Holds p.leg p.chain t window i64 got) all in
      let (rest, last) =
        check_chains-IsVerified pending t (Deferred.with_window window g) g' i64 h2 here in
      ((verified, rest), last)

  -- A time that `accept` lets through, for an instant that an `i64` holds, is the instant claimed; at
  -- least one chain was recorded; every recorded chain was verified at that instant; and if the
  -- window of the certificates is known, the instant is inside of it.
  pub accept_sound :
      (pending : List (Deferred.Pending pki)) (seconds : ℤ) {v : Deferred.Verified}
      → IsI64 seconds
      → Deferred.accept pki pending seconds ≡ ok v
      → (v.seconds ≡ seconds)
        × ((Deferred.is_empty pending ≡ false)
            × (All (IsVerified seconds) pending × HoldsIfKnown seconds v.window))
  unfolding Deferred.accept
  accept_sound pending seconds {v = v} i64 h =
      let (some_chain, h1) = rejected-eq_ok (Deferred.is_empty pending) _ h in
      let (g, got, h2) = >>=-eq-ok (Deferred.check_chains pki pending seconds ([], true)) _ h1 in
      let (all, holds) = check_chains-IsVerified pending seconds ([], true) g i64 got tt in
      let (u, (e, within)) = intersect-Holds seconds (g.0) i64 holds in
      let result = ok-injective _ v h2 in
      (
        sym (ap (λ (v : Deferred.Verified). v.seconds) result),
        (
          some_chain,
          (
            all,
            subst (HoldsIfKnown seconds) (ap (λ (v : Deferred.Verified). v.window) result) (
                window_holds (g.1) (Deferred.intersect (g.0))
                  (subst (HoldsIfKnown seconds) (sym e) within)),
          ),
        ),
      )
    where
      window_holds :
          (b : Bool) (o : Option Deferred.Window)
          → HoldsIfKnown seconds o
          → HoldsIfKnown seconds (if b then o else none)
      window_holds true o h = h
      window_holds false o h = tt
