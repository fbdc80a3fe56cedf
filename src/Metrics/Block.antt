-- ===== src/Metrics/Block.antt =====
-- packages/system-metrics/src/block.rs: the kernel's counters of a drive, its kind, udev's values, and
-- which SMART report describes which disk. Texts are ASCII bytes, but for udev's escaped values,
-- which are any bytes; `from_utf8_lossy` is a parameter.
pub mod Nodes
pub mod Matched
pub mod Decoded
mod Tests
use nixos_test.Prelude.{
  ℕ, zero, suc, ◌+◌, ◌*◌, ◌-◌, ◌≡◌, Bool, true, false, not, ◌&&◌, ◌||◌, Option, none, some, List,
  [], ◌∷◌, ◌++◌, map, Bytes, bytes_eq, ltb, leb, ◌==◌, if◌then◌else◌, length, get_elem?, get_or,
}
use nixos_test.Prelude.Text.{
  codes, all, is_digit, is_nil, is_some, parse_u64, split_once, strip_prefix, starts_with,
  contains_text, split_whitespace, trim, lines,
}

pub record Stat : Type 0 where
  pub reads : ℕ
  pub read_sectors : ℕ
  pub read_ms : ℕ
  pub writes : ℕ
  pub write_sectors : ℕ
  pub write_ms : ℕ
  pub io_ms : ℕ
  pub discard_sectors : Option ℕ
  pub flushes : Option ℕ

unfoldable pub with_number : Option ℕ → Option (List ℕ) → Option (List ℕ)
with_number none rest = none
with_number (some n) none = none
with_number (some n) (some ns) = some (n ∷ ns)

-- `collect::<Option<_>>` of the parsed words.
unfoldable pub parse_numbers : List Bytes → Option (List ℕ)
parse_numbers [] = some []
parse_numbers (w ∷ words) = with_number (parse_u64 w) (parse_numbers words)

unfoldable pub stat_of : Option (List ℕ) → Option Stat
stat_of none = none
stat_of (some fields) =
    if ltb (length fields) 11
    then none
    else some (record {
      reads = get_or fields 0 0;
      read_sectors = get_or fields 2 0;
      read_ms = get_or fields 3 0;
      writes = get_or fields 4 0;
      write_sectors = get_or fields 6 0;
      write_ms = get_or fields 7 0;
      io_ms = get_or fields 9 0;
      discard_sectors = get_elem? fields 13;
      flushes = get_elem? fields 15;
    })

unfoldable pub parse_stat : Bytes → Option Stat
parse_stat text = stat_of (parse_numbers (split_whitespace text))

pub data DriveKind : Type 0 where
  nvme : DriveKind
  sata : DriveKind
  usb : DriveKind
  sd : DriveKind
  emmc : DriveKind

unfoldable pub mmc_kind : Option Bytes → Option DriveKind
mmc_kind none = none
mmc_kind (some text) =
    if bytes_eq text (codes "SD")
    then some sd
    else if bytes_eq text (codes "MMC")
    then some emmc
    else none

unfoldable pub drive_kind : Bytes → Bytes → Option Bytes → Option DriveKind
drive_kind name sysfs_path mmc_type =
    if starts_with name (codes "nvme")
    then some nvme
    else if starts_with name (codes "mmcblk")
    then mmc_kind mmc_type
    else if starts_with name (codes "sd")
    then (if contains_text sysfs_path (codes "/usb")
        then some usb
        else if contains_text sysfs_path (codes "/ata")
        then some sata
        else none)
    else none

-- A digit of base sixteen.
unfoldable pub hex_digit : ℕ → Option ℕ
hex_digit b =
    if is_digit b
    then some (b - 48)
    else if leb 97 b && leb b 102
    then some (b - 87)
    else if leb 65 b && leb b 70
    then some (b - 55)
    else none

unfoldable pub hex_value : Option ℕ → Option ℕ → Option ℕ
hex_value none low = none
hex_value (some high) none = none
hex_value (some high) (some low) = some (high * 16 + low)

-- `u8::from_str_radix(hex, 16)` of two characters; the first may be a plus.
unfoldable pub hex_pair : ℕ → ℕ → Option ℕ
hex_pair high low =
    if high == b'+' then hex_digit low else hex_value (hex_digit high) (hex_digit low)

-- The byte of an escape `\xNN` that stands at the front.
unfoldable pub escape_at : Bytes → Option ℕ
escape_at (a ∷ b ∷ high ∷ low ∷ rest) = if a == 92 && b == b'x' then hex_pair high low else none
escape_at _ = none

-- One turn, for the escape at the front, if there is one; `again` goes on behind the first byte, past
-- a number of bytes more.
unfoldable pub unescaped : Option ℕ → ℕ → (ℕ → Bytes) → Bytes
unescaped (some byte) b again = byte ∷ again 3
unescaped none b again = b ∷ again 0

-- The `while` of `decode_udev_enc`; the number is of bytes that an escape has consumed.
unfoldable pub decode_from : ℕ → Bytes → Bytes
decode_from skip [] = []
decode_from (suc skip) (b ∷ encoded) = decode_from skip encoded
decode_from zero (b ∷ encoded) =
    unescaped (escape_at (b ∷ encoded)) b (λ skip. decode_from skip encoded)

-- The standard library's UTF-8: which bytes are valid, and `String::from_utf8_lossy`, which leaves
-- them as they are.
pub record Utf8 : Type 0 where
  pub is_utf8 : Bytes → Bool
  pub lossy : Bytes → Bytes
  pub lossy-valid : (bytes : Bytes) → is_utf8 bytes ≡ true → lossy bytes ≡ bytes

unfoldable pub decode_udev_enc : Utf8 → Bytes → Bytes
decode_udev_enc utf8 encoded = utf8.lossy (decode_from zero encoded)

-- What stands behind the controller's name in that of a namespace: `n` and digits.
unfoldable pub is_namespace : Option Bytes → Bool
is_namespace none = false
is_namespace (some ns) = not (is_nil ns) && all is_digit ns

unfoldable pub behind_n : Option Bytes → Option Bytes
behind_n none = none
behind_n (some rest) = strip_prefix (codes "n") rest

unfoldable pub namespace_of : Bytes → Bytes → Bool
namespace_of controller disk =
    starts_with controller (codes "nvme") && is_namespace (behind_n (strip_prefix controller disk))

unfoldable pub node_matches : Option Bytes → Bytes → Bool
node_matches none disk = false
node_matches (some node) disk = bytes_eq node disk || namespace_of node disk

unfoldable pub smart_name_matches : Bytes → Bytes → Bool
smart_name_matches scan_name disk = node_matches (strip_prefix (codes "/dev/") scan_name) disk

-- A name and a serial number, of a disk or of a report.
abbrev pub Named : Type 0
Named = Bytes × Option Bytes

unfoldable pub has_serial : Bytes → Option Bytes → Bool
has_serial serial none = false
has_serial serial (some s) = bytes_eq s serial

-- `smart.iter().position(…)`, from an index on.
unfoldable pub position_from {ℓ} : {A : Type ℓ} → (ℕ → A → Bool) → ℕ → List A → Option ℕ
position_from p i [] = none
position_from p i (x ∷ xs) = let rest = position_from p (suc i) xs in if p i x then some i else rest

unfoldable pub claim_of : List Named → Option Bytes → Option ℕ
claim_of smart none = none
claim_of smart (some serial) = position_from (λ i r. has_serial serial (r.1)) 0 smart

unfoldable pub by_serial : List Named → List Named → List (Option ℕ)
by_serial disks smart = map (λ d. claim_of smart (d.1)) disks

unfoldable pub is_index : ℕ → Option ℕ → Bool
is_index i none = false
is_index i (some j) = j == i

-- `by_serial.contains(&Some(i))`
unfoldable pub is_claimed : ℕ → List (Option ℕ) → Bool
is_claimed i [] = false
is_claimed i (c ∷ claims) = is_index i c || is_claimed i claims

unfoldable pub or_by_name : Option ℕ → List (Option ℕ) → List Named → Bytes → Option ℕ
or_by_name (some i) claims smart disk = some i
or_by_name none claims smart disk =
    position_from (λ i r. not (is_claimed i claims) && smart_name_matches (r.0) disk) 0 smart

unfoldable pub match_smart : List Named → List Named → List (Option ℕ)
match_smart disks smart =
    let claims = by_serial disks smart in
    map (λ d. or_by_name (claim_of smart (d.1)) claims smart (d.0)) disks

unfoldable pub value_of : Bytes → Option (Bytes × Bytes) → Option Bytes
value_of key none = none
value_of key (some (k, v)) = if bytes_eq k key then some v else none

unfoldable pub property_in : Bytes → Option Bytes → Option Bytes
property_in key none = none
property_in key (some text) = value_of key (split_once b'=' text)

unfoldable pub or_later : Option Bytes → Option Bytes → Option Bytes
or_later none later = later
or_later (some v) later = some v

-- `find_map` over the lines.
unfoldable pub property_of : Bytes → List Bytes → Option Bytes
property_of key [] = none
property_of key (line ∷ rest) =
    or_later (property_in key (strip_prefix (codes "E:") line)) (property_of key rest)

unfoldable pub udev_property : Bytes → Bytes → Option Bytes
udev_property text key = property_of key (lines text)

unfoldable pub unless_empty : Bytes → Option Bytes
unless_empty text = if is_nil text then none else some text

unfoldable pub identity : Option Bytes → Option Bytes
identity none = none
identity (some raw) = unless_empty (trim raw)
