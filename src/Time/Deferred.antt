-- ===== src/Time/Deferred.antt =====
-- packages/time-correction/src/deferred.rs, with the windows of src/verify.rs: a time is believed
-- only when every chain gathered on the way to it has been verified at it. The verification of a
-- chain and the reading of a certificate are those of rustls and x509_parser, so they are parameters.
pub mod Accepted
mod Tests
use nixos_test.Prelude.{
  ℕ, ◌-◌, ◌^◌, Bool, true, false, not, ◌&&◌, ◌||◌, Option, none, some, List, [], ◌∷◌, ◌++◌, map,
  Bytes, if◌then◌else◌,
}
use nixos_test.Prelude.Int.{ℤ, pos, negsuc, ltb_ℤ}
use nixos_test.Prelude.Bits.{filter}
use nixos_test.Prelude.Outcome.{Result, ok, err, ◌>>=◌, ◌>>◌, require}

-- `verify_at` is whether the verifier accepts a chain for a name at an instant; `window_of` is the
-- validity that a certificate states, if it can be parsed.
pub record Pki : Type 1 where
  pub Certificate : Type 0
  pub ServerName : Type 0
  pub verify_at : List Certificate → ServerName → ℤ → Bool
  pub window_of : Certificate → Option (ℤ × ℤ)

abbrev pub Window : Type 0
Window = ℤ × ℤ

abbrev pub leb_ℤ : ℤ → ℤ → Bool
leb_ℤ a b = not (ltb_ℤ b a)

abbrev pub max_ℤ : ℤ → ℤ → ℤ
max_ℤ a b = if ltb_ℤ a b then b else a

abbrev pub min_ℤ : ℤ → ℤ → ℤ
min_ℤ a b = if ltb_ℤ b a then b else a

-- `i64::MIN` and `i64::MAX`
abbrev pub i64_min : ℤ
i64_min = negsuc (2 ^ 63 - 1)

abbrev pub i64_max : ℤ
i64_max = pos (2 ^ 63 - 1)

-- The loop of `intersect`.
unfoldable pub intersect_from : ℤ → ℤ → List Window → Option Window
intersect_from start end [] = if leb_ℤ start end then some (start, end) else none
intersect_from start end (w ∷ windows) =
    intersect_from (max_ℤ start (w.0)) (min_ℤ end (w.1)) windows

unfoldable pub intersect : List Window → Option Window
intersect windows = intersect_from i64_min i64_max windows

-- `windows.iter().any(Option::is_none)`, and `flatten`
unfoldable pub any_unknown : List (Option Window) → Bool
any_unknown [] = false
any_unknown (none ∷ windows) = true
any_unknown (some w ∷ windows) = any_unknown windows

unfoldable pub known : List (Option Window) → List Window
known [] = []
known (none ∷ windows) = known windows
known (some w ∷ windows) = w ∷ known windows

unfoldable pub is_empty {ℓ} : {A : Type ℓ} → List A → Bool
is_empty [] = true
is_empty (x ∷ xs) = false

abbrev pub contains : ℤ → Window → Bool
contains seconds w = leb_ℤ (w.0) seconds && leb_ℤ seconds (w.1)

unfoldable pub verified_window : List (Option Window) → ℤ → Option Window
verified_window windows seconds =
    let used = filter (contains seconds) (known windows) in
    if is_empty windows || any_unknown windows
    then none
    else if is_empty used
    then none
    else intersect used

pub data Rejection : Type 0 where
  no_chains : Rejection
  chain_rejected : (leg : Bytes) → Rejection
  empty_chain : (leg : Bytes) → Rejection

-- What the private fields of `Verified` hold.
pub record Verified : Type 0 where
  pub seconds : ℤ
  pub window : Option Window

-- The window of one more leg: an unknown one makes the whole window unknown.
unfoldable pub with_window : Option Window → List Window × Bool → List Window × Bool
with_window none gathered = (gathered.0, false)
with_window (some w) gathered = (gathered.0 ++ (w ∷ []), gathered.1)

module _ (pki : Pki) where
  open pki use {Certificate, ServerName, verify_at, window_of}

  pub record Pending : Type 0 where
    pub leg : Bytes
    pub chain : List Certificate
    pub server_name : ServerName

  -- `Deferred` is the list of its pending chains; `record` appends one.
  unfoldable pub record_chain : List Pending → Bytes → List Certificate → ServerName → List Pending
  record_chain pending leg chain server_name =
      pending ++ ((record { leg = leg; chain = chain; server_name = server_name }) ∷ [])

  unfoldable pub chain_windows : Certificate → List Certificate → List (Option Window)
  chain_windows leaf intermediates = window_of leaf ∷ map window_of intermediates

  -- The window of one chain that has been verified: `split_first` and `verified_window`.
  unfoldable pub leg_window : Bytes → List Certificate → ℤ → Result Rejection (Option Window)
  leg_window leg [] seconds = err (empty_chain leg)
  leg_window leg (leaf ∷ intermediates) seconds =
      ok (verified_window (chain_windows leaf intermediates) seconds)

  -- The loop of `accept`, with `windows` and `window_known`.
  unfoldable pub check_chains :
      List Pending → ℤ → List Window × Bool → Result Rejection (List Window × Bool)
  check_chains [] seconds gathered = ok gathered
  check_chains (p ∷ pending) seconds gathered = do
    require (verify_at p.chain p.server_name seconds) (chain_rejected p.leg)
    window ← leg_window p.leg p.chain seconds
    check_chains pending seconds (with_window window gathered)

  unfoldable pub accept : List Pending → ℤ → Result Rejection Verified
  accept pending seconds =
      if is_empty pending
      then err no_chains
      else (check_chains pending seconds ([], true) >>= λ gathered. ok (record {
        seconds = seconds;
        window = if gathered.1 then intersect (gathered.0) else none;
      }))
