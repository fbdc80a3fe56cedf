-- ===== src/Serial.antt =====
-- packages/bms-monitoring/src/port.rs and src/discover.rs, of which packages/inverter-monitoring has
-- the same code: what one wait on a serial port found, one read, and the order in which ports are
-- tried. A path is its bytes.
pub mod Shuffled
mod Tests
use nixos_test.Prelude.{
  ℕ, zero, suc, ◌+◌, ◌-◌, ◌*◌, ◌/◌, ◌%◌, ◌^◌, Bool, true, false, ◌||◌, Option, none, some, List, [],
  ◌∷◌, ◌++◌, Bytes, if◌then◌else◌, length, get_elem?, set,
}
use nixos_test.Prelude.Outcome.{Result, ok, err, ◌>>=◌}
use nixos_test.Prelude.Text.{codes}
use Prim.Native.Nat.{bit_xor, bit_or}

-- The events that `poll` reports, by the flags that the source asks for.
pub record Revents : Type 0 where
  pub input : Bool
  pub hang_up : Bool
  pub error : Bool
  pub invalid : Bool

pub data Ready : Type 0 where
  readable : Ready
  idle : Ready
  gone : Ready

unfoldable pub classify : Revents → Ready
classify r =
    if r.hang_up || (r.error || r.invalid) then gone else if r.input then readable else idle

-- What the system calls give: `poll`, and `read` once it has said that there are bytes.
pub data Polled : Type 0 where
  events : (revents : Revents) → Polled
  poll_interrupted : Polled
  poll_failed : Polled

pub data FileRead : Type 0 where
  chunk : (bytes : Bytes) → FileRead
  would_block : FileRead
  interrupted : FileRead
  read_failed : FileRead

pub data PortError : Type 0 where
  disconnected : PortError
  io : PortError

unfoldable pub wait : Polled → Result PortError Ready
wait (events revents) = ok (classify revents)
wait poll_interrupted = ok idle
wait poll_failed = err io

-- The bytes of a read; none of them are an error, since the wait has promised some.
unfoldable pub read_file : FileRead → Result PortError Bytes
read_file (chunk []) = err disconnected
read_file (chunk (b ∷ bytes)) = ok (b ∷ bytes)
read_file would_block = ok []
read_file interrupted = ok []
read_file read_failed = err io

unfoldable pub read_ready : Ready → FileRead → Result PortError Bytes
read_ready idle file = ok []
read_ready gone file = err disconnected
read_ready readable file = read_file file

-- `read_some`: no bytes mean that nothing has arrived yet.
unfoldable pub read_some : Polled → FileRead → Result PortError Bytes
read_some polled file = wait polled >>= λ ready. read_ready ready file

pub record Candidate : Type 0 where
  pub tty : Bytes
  pub path_id : Bytes
  pub by_id : Option Bytes

unfoldable pub describe_with : Bytes → Option Bytes → Bytes
describe_with path_id none = path_id
describe_with path_id (some by_id) = path_id ++ (codes " (" ++ (by_id ++ codes ")"))

unfoldable pub describe : Candidate → Bytes
describe c = describe_with c.path_id c.by_id

-- One step of the generator on `u64`: what it yields is also the next state.
unfoldable pub next : ℕ → ℕ
next state =
    let a = bit_xor state (state * 2 ^ 13 % 2 ^ 64) in
    let b = bit_xor a (a / 2 ^ 7) in bit_xor b (b * 2 ^ 17 % 2 ^ 64)

-- `items.swap(i, j)`; the source's indices are in range.
unfoldable pub swap_with {ℓ} : {A : Type ℓ} → List A → ℕ → ℕ → Option A → Option A → List A
swap_with items i j none b = items
swap_with items i j (some a) none = items
swap_with items i j (some a) (some b) = set (set items i b) j a

unfoldable pub swap {ℓ} : {A : Type ℓ} → List A → ℕ → ℕ → List A
swap items i j = swap_with items i j (get_elem? items i) (get_elem? items j)

-- `for index in (1..count).rev()`
unfoldable pub shuffle_from {ℓ} : {A : Type ℓ} → ℕ → ℕ → List A → List A
shuffle_from zero state items = items
shuffle_from (suc zero) state items = items
shuffle_from (suc (suc index)) state items =
    let state' = next state in
    shuffle_from (suc index) state' (swap items (suc index) (state' % (suc index + 1)))

unfoldable pub shuffle {ℓ} : {A : Type ℓ} → List A → ℕ → List A
shuffle items seed = shuffle_from (length items) (bit_or seed 1) items

-- The order in which the ports of a BMS are tried.
unfoldable pub order : List Candidate → ℕ → List Candidate
order candidates seed = shuffle candidates seed
