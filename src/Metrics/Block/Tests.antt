-- ===== src/Metrics/Block/Tests.antt =====
-- packages/system-metrics/src/block.rs: a card's counters, names, and reports of two drives.
use nixos_test.Prelude.{
  ℕ, ◌≡◌, ◌⊎◌, refl, Bytes, ltb, if◌then◌else◌, &&-eq_true, Bool, true, false, not, ◌||◌, Option,
  none, some, List, [], ◌∷◌, are_bytes-All, bytes_eq, get_elem?, ◌==◌,
}
use nixos_test.Prelude.Text
use nixos_test.Prelude.Text.{codes, all}
use nixos_test.Metrics.Block
use nixos_test.Metrics.Block.{Named, Utf8}
use nixos_test.Metrics.Block.Matched.{Describes, match_smart-Describes}
use nixos_test.Metrics.Block.Decoded.{encode, decode_udev_enc-encode}

short_stat : Block.parse_stat (codes "1 2 3 4 5 6 7 8 9 10") ≡ none
unfolding Block.parse_stat Block.parse_numbers Block.with_number Block.stat_of Text.split_whitespace
    Text.words_from Text.nonempty_texts Text.parse_u64 Text.magnitude Text.below Text.number_from
short_stat = refl

old_kernel :
    Block.parse_stat (codes " 1 2 3 4 5 6 7 8 9  10 11")
    ≡ some (record {
      reads = 1;
      read_sectors = 3;
      read_ms = 4;
      writes = 5;
      write_sectors = 7;
      write_ms = 8;
      io_ms = 10;
      discard_sectors = none;
      flushes = none;
    })
unfolding Block.parse_stat Block.parse_numbers Block.with_number Block.stat_of Text.split_whitespace
    Text.words_from Text.nonempty_texts Text.parse_u64 Text.magnitude Text.below Text.number_from
old_kernel = refl

bridged : Block.drive_kind (codes "sda") (codes "/devices/usb1/ata1") none ≡ some Block.usb
unfolding Block.drive_kind Text.strip_prefix Text.is_some Text.contains_text
bridged = refl

namespaced : Block.smart_name_matches (codes "/dev/nvme0") (codes "nvme0n1") ≡ true
unfolding Block.smart_name_matches Block.node_matches Block.namespace_of Block.is_namespace
    Block.behind_n Text.strip_prefix Text.is_some bytes_eq
namespaced = refl

other_controller : Block.smart_name_matches (codes "/dev/nvme1") (codes "nvme10n1") ≡ false
unfolding Block.smart_name_matches Block.node_matches Block.namespace_of Block.is_namespace
    Block.behind_n Text.strip_prefix Text.is_some bytes_eq
other_controller = refl

abbrev disks : List Named
disks = (codes "sda", some (codes "A")) ∷ (codes "sdb", none) ∷ []

-- The report named sdb has the serial number of sda.
abbrev reports : List Named
reports = (codes "/dev/sdb", some (codes "A")) ∷ []

claimed_once : Block.match_smart disks reports ≡ some 0 ∷ none ∷ []
unfolding Block.match_smart Block.by_serial Block.claim_of Block.position_from Block.has_serial
    Block.or_by_name Block.is_claimed Block.is_index bytes_eq
claimed_once = refl

-- Here sdb is matched by its name, with the second report.
abbrev more_reports : List Named
more_reports = (codes "/dev/sdb", some (codes "A")) ∷ (codes "/dev/sdb", none) ∷ []

matched_by_name : Block.match_smart disks more_reports ≡ some 0 ∷ some 1 ∷ []
unfolding Block.match_smart Block.by_serial Block.claim_of Block.position_from Block.has_serial
    Block.or_by_name Block.is_claimed Block.is_index Block.smart_name_matches Block.node_matches
    Text.strip_prefix bytes_eq
matched_by_name = refl

match_smart-Describes_example :
    (answer : Option ℕ) × (get_elem? (Block.match_smart disks more_reports) 1 ≡ some answer)
    × Describes disks more_reports (codes "sdb", none) answer
match_smart-Describes_example = match_smart-Describes disks more_reports 1 (codes "sdb", none) refl

abbrev spaces_and_backslashes : ℕ → Bool
spaces_and_backslashes b = not (b == 32 || b == 92)

abbrev to_ascii : Bytes → Bytes
to_ascii [] = []
to_ascii (b ∷ bytes) = (if ltb b 128 then b else b'?') ∷ to_ascii bytes

to_ascii_valid : (bytes : Bytes) → all (λ b. ltb b 128) bytes ≡ true → to_ascii bytes ≡ bytes
to_ascii_valid [] h = refl
to_ascii_valid (b ∷ bytes) h =
    let (small, rest) = &&-eq_true (ltb b 128) _ h in rw (small, to_ascii_valid bytes rest) refl

-- ASCII is valid, and of any other byte a question mark is made.
abbrev ascii : Utf8
ascii = record {
  is_utf8 = λ bytes. all (λ b. ltb b 128) bytes;
  lossy = to_ascii;
  lossy-valid = to_ascii_valid;
}

decode_udev_enc-encode_example :
    (Block.decode_udev_enc ascii (encode spaces_and_backslashes (codes "SSD 870"))
      ≡ codes "SSD 870")
    × ((all (λ b. ltb b 128) (codes "SSD 870") ≡ false)
        ⊎ (Block.decode_udev_enc ascii (encode spaces_and_backslashes (codes "SSD 870"))
            ≡ codes "SSD 870"))
decode_udev_enc-encode_example =
    decode_udev_enc-encode ascii spaces_and_backslashes (codes "SSD 870") refl
      (are_bytes-All (codes "SSD 870") refl)

-- A lone 0xFF is no text, and is not kept.
replaced : Block.decode_udev_enc ascii (codes "\\xff") ≡ b'?' ∷ []
unfolding Block.decode_udev_enc Block.decode_from Block.unescaped Block.escape_at Block.hex_pair
    Block.hex_value Block.hex_digit
replaced = refl

found_property :
    Block.udev_property (codes "S:disk\nE:ID_BUS=usb\nE:ID_MODEL=a=b\n") (codes "ID_MODEL")
    ≡ some (codes "a=b")
unfolding Block.udev_property Block.property_of Block.property_in Block.value_of Block.or_later
    Text.lines Text.end_lines Text.without_cr Text.split_on Text.split_from Text.split_once
    Text.before_cut Text.strip_prefix bytes_eq
found_property = refl

padded : Block.identity (some (codes "  WD SN770  ")) ≡ some (codes "WD SN770")
unfolding Block.identity Block.unless_empty Text.trim Text.trim_start Text.trim_end Text.keep_end
padded = refl
