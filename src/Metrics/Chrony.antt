-- ===== src/Metrics/Chrony.antt =====
-- packages/system-metrics/src/chrony.rs: chrony's two reports, joined with the configured providers.
-- Texts are ASCII bytes. `f64` is a parameter.
pub mod Joined
mod Tests
use nixos_test.Prelude.{
  ℕ, zero, suc, ◌+◌, ◌*◌, ◌-◌, ◌^◌, Bool, true, false, not, ◌&&◌, ◌||◌, Option, none, some, List,
  [], ◌∷◌, ◌++◌, map, Bytes, bytes_eq, ltb, leb, ◌==◌, if◌then◌else◌, length, get_or,
}
use nixos_test.Prelude.Int.{ℤ, pos, negsuc, ltb_ℤ}
use nixos_test.Prelude.Outcome.{Result, ok, err, ◌>>=◌, ◌>>◌, require, ok_or}
use nixos_test.Prelude.Text.{codes, is_nil, parse_u64, parse_i64, split_on, split_once, trim, lines}

-- 2 to a power, and the parser of a number.
pub record Doubles : Type 1 where
  pub Double : Type 0
  pub parse_f64 : Bytes → Option Double
  pub power_of_two : ℤ → Double

abbrev pub never_seconds : ℕ
never_seconds = 4294967295

unfoldable pub unless_never : Option ℕ → Option ℕ
unless_never none = none
unless_never (some seconds) = if seconds == never_seconds then none else some seconds

unfoldable pub interval_seconds : Bytes → Option ℕ
interval_seconds raw = unless_never (parse_u64 (trim raw))

-- Digits of base eight behind a value, as long as a `u8` holds it.
unfoldable pub octal_from : ℕ → Bytes → Option ℕ
octal_from acc [] = some acc
octal_from acc (b ∷ digits) =
    let value = acc * 8 + (b - 48) in
    let rest = octal_from value digits in
    if leb 48 b && leb b 55 then (if ltb value 256 then rest else none) else none

unfoldable pub octal_digits : Bytes → Option ℕ
octal_digits [] = none
octal_digits (b ∷ digits) = octal_from 0 (b ∷ digits)

-- `u8::from_str_radix(text, 8)`: a plus may stand in front.
unfoldable pub octal : Bytes → Option ℕ
octal [] = none
octal (b ∷ text) = if b == b'+' then octal_digits text else octal_digits (b ∷ text)

unfoldable pub parse_reach : Bytes → Option ℕ
parse_reach raw = octal (trim raw)

pub data SourceState : Type 0 where
  selected : SourceState
  combined : SourceState
  selectable : SourceState
  falseticker : SourceState
  jittery : SourceState
  unselectable : SourceState

unfoldable pub state_of : Bytes → Option SourceState
state_of text =
    if bytes_eq text (codes "*")
    then some selected
    else if bytes_eq text (codes "+")
    then some combined
    else if bytes_eq text (codes "-")
    then some selectable
    else if bytes_eq text (codes "x")
    then some falseticker
    else if bytes_eq text (codes "~")
    then some jittery
    else if bytes_eq text (codes "?")
    then some unselectable
    else none

unfoldable pub state_name : Bytes → Option SourceState
state_name raw = state_of (trim raw)

pub data AuthMode : Type 0 where
  nts : AuthMode
  symmetric : AuthMode
  no_authentication : AuthMode

unfoldable pub mode_of : Bytes → Option AuthMode
mode_of text =
    if bytes_eq text (codes "NTS")
    then some nts
    else if bytes_eq text (codes "SK")
    then some symmetric
    else if bytes_eq text (codes "-")
    then some no_authentication
    else none

unfoldable pub auth_mode_name : Bytes → Option AuthMode
auth_mode_name raw = mode_of (trim raw)

unfoldable pub within_i32 : Option ℤ → Option ℤ
within_i32 none = none
within_i32 (some n) =
    if ltb_ℤ n (negsuc (2 ^ 31 - 1)) || ltb_ℤ (pos (2 ^ 31 - 1)) n then none else some n

abbrev pub fields : Bytes → List Bytes
fields line = split_on b',' line

-- `f[i]`, of a row that is long enough.
abbrev pub field : List Bytes → ℕ → Bytes
field f i = get_or f i []

pub record AuthData : Type 0 where
  pub name : Bytes
  pub mode : Option AuthMode
  pub key_id : Option ℤ
  pub last_ke_seconds : Option ℕ
  pub ke_attempts : Option ℤ
  pub naks : Option ℤ
  pub cookies : Option ℤ

unfoldable pub authdata_row : List Bytes → List AuthData
authdata_row f =
    if ltb (length f) 9
    then []
    else (record {
      name = trim (field f 0);
      mode = auth_mode_name (field f 1);
      key_id = parse_i64 (trim (field f 2));
      last_ke_seconds = interval_seconds (field f 5);
      ke_attempts = parse_i64 (trim (field f 6));
      naks = parse_i64 (trim (field f 7));
      cookies = parse_i64 (trim (field f 8));
    })
      ∷ []

unfoldable pub authdata_rows : List Bytes → List AuthData
authdata_rows [] = []
authdata_rows (line ∷ rest) = authdata_row (fields line) ++ authdata_rows rest

unfoldable pub parse_authdata : Bytes → List AuthData
parse_authdata text = authdata_rows (lines text)

pub record Provider : Type 0 where
  pub name : Bytes
  pub hostname : Bytes
  pub operator : Bytes

pub data ProviderError : Type 0 where
  not_a_provider : (spec : Bytes) → ProviderError
  nothing_after_at : (spec : Bytes) → ProviderError
  empty_component : (spec : Bytes) → ProviderError

unfoldable pub parse_provider : Bytes → Result ProviderError Provider
parse_provider spec = do
  named ← ok_or (split_once b'=' spec) (not_a_provider spec)
  hosted ← ok_or (split_once b'@' (named.1)) (nothing_after_at spec)
  require (not (is_nil (named.0) || (is_nil (hosted.0) || is_nil (hosted.1))))
      (empty_component spec)
  ok (record { name = named.0; hostname = hosted.0; operator = hosted.1 })

-- `rows.iter().find(|r| r.name == hostname)`
unfoldable pub row_of {ℓ} : {A : Type ℓ} → (A → Bytes) → Bytes → List A → Option A
row_of key hostname [] = none
row_of key hostname (x ∷ xs) = if bytes_eq (key x) hostname then some x else row_of key hostname xs

unfoldable pub and_then {ℓ κ} : {A : Type ℓ} {B : Type κ} → Option A → (A → Option B) → Option B
and_then none f = none
and_then (some a) f = f a

unfoldable pub is_reachable : Option ℕ → Option Bool
is_reachable none = none
is_reachable (some reach) = some (not (reach == 0))

module _ (doubles : Doubles) where
  open doubles use {Double, parse_f64, power_of_two}

  unfoldable pub poll_seconds : Bytes → Option Double
  poll_seconds raw = and_then (within_i32 (parse_i64 (trim raw))) (λ log2. some (power_of_two log2))

  pub record Source : Type 0 where
    pub name : Bytes
    pub state : Option SourceState
    pub stratum : Option ℤ
    pub poll : Option Double
    pub reach : Option ℕ
    pub last_rx_seconds : Option ℕ
    pub offset_seconds : Option Double

  unfoldable pub source_row : List Bytes → List Source
  source_row f =
      if ltb (length f) 8
      then []
      else (record {
        name = trim (field f 2);
        state = state_name (field f 1);
        stratum = parse_i64 (trim (field f 3));
        poll = poll_seconds (field f 4);
        reach = parse_reach (field f 5);
        last_rx_seconds = interval_seconds (field f 6);
        offset_seconds = parse_f64 (trim (field f 7));
      })
        ∷ []

  unfoldable pub source_rows : List Bytes → List Source
  source_rows [] = []
  source_rows (line ∷ rest) = source_row (fields line) ++ source_rows rest

  unfoldable pub parse_sources : Bytes → List Source
  parse_sources text = source_rows (lines text)

  pub record Status : Type 0 where
    pub reachable : Option Bool
    pub reach : Option ℕ
    pub state : Option SourceState
    pub stratum : Option ℤ
    pub poll : Option Double
    pub last_rx_seconds : Option ℕ
    pub offset_seconds : Option Double
    pub auth_mode : Option AuthMode
    pub nts_ke_count : Option ℤ
    pub nts_ke_attempts : Option ℤ
    pub nts_last_ke_seconds : Option ℕ
    pub nts_cookies : Option ℤ
    pub nts_naks : Option ℤ

  abbrev pub source_name : Source → Bytes
  source_name s = s.name

  abbrev pub auth_name : AuthData → Bytes
  auth_name a = a.name

  unfoldable pub status_from : Option Source → Option AuthData → Status
  status_from source auth = record {
    reachable = is_reachable (and_then source (λ s. s.reach));
    reach = and_then source (λ s. s.reach);
    state = and_then source (λ s. s.state);
    stratum = and_then source (λ s. s.stratum);
    poll = and_then source (λ s. s.poll);
    last_rx_seconds = and_then source (λ s. s.last_rx_seconds);
    offset_seconds = and_then source (λ s. s.offset_seconds);
    auth_mode = and_then auth (λ a. a.mode);
    nts_ke_count = and_then auth (λ a. a.key_id);
    nts_ke_attempts = and_then auth (λ a. a.ke_attempts);
    nts_last_ke_seconds = and_then auth (λ a. a.last_ke_seconds);
    nts_cookies = and_then auth (λ a. a.cookies);
    nts_naks = and_then auth (λ a. a.naks);
  }

  unfoldable pub status_of : List Source → List AuthData → Provider → Status
  status_of sources authdata provider =
      status_from (row_of source_name provider.hostname sources)
        (row_of auth_name provider.hostname authdata)

  unfoldable pub statuses : List Provider → Bytes → Bytes → List Status
  statuses providers sources authdata =
      map (status_of (parse_sources sources) (parse_authdata authdata)) providers
