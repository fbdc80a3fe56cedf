-- ===== src/Lib.antt =====
-- The producers and the clock service of this repository: what they read from wires, files and
-- operators that nobody vouches for, and what they make of it. The Rust packages under packages/
-- run on the hosts that the Nix modules configure. Four of them carry the logic modelled here.
--
-- packages/bms-monitoring listens to a JK BMS on a serial line. It finds the line among the
-- candidates (packages/bms-monitoring/src/port.rs and packages/bms-monitoring/src/discover.rs, in
-- Serial and Bms/Serial: Serial has wait, read_some, classify, Candidate, shuffle_from for shuffle,
-- and order, whose code the inverter package has too; Bms/Serial has read_until and probe). Bytes
-- go into the frame reader (packages/bms-monitoring/src/frame.rs, in Bms/Frame: FrameReader with
-- feed and next_frame, step for FrameReader::step, find_header, checksum), and each frame that it
-- returns goes to the parsers (packages/bms-monitoring/src/parse.rs, in Bms/Parse: u16_at to
-- i32_at, milli and deci; Cells for Cell and aggregate; Realtime for parse_realtime; Alarms for
-- asserted_alarms; Settings for parse_settings).
--
-- packages/inverter-monitoring polls a Voltronic inverter. It reads an answer from the line and
-- finds the line by asking (packages/inverter-monitoring/src/port.rs and
-- packages/inverter-monitoring/src/discover.rs, in Inverter/Serial: read_frame, listen, order,
-- probe). A command is framed with a checksum, and so is the answer
-- (packages/inverter-monitoring/src/crc.rs and packages/inverter-monitoring/src/protocol.rs, in
-- Inverter/Crc and Inverter/Protocol: frame_crc, request, parse_response, build_response); the
-- payload goes to the parsers (packages/inverter-monitoring/src/parse.rs, in Inverter/Parse: field,
-- integer, decimal and bit; Mode, Status, Warnings and Identity for the parsers of the payloads).
--
-- packages/time-correction decides whether a clock may be believed. Its service
-- (packages/time-correction/src/main.rs) reads its arguments (Time/Options: parse_args,
-- check_options, distinct_operators), pairs resolvers with time operators (Time/Choose: choose),
-- asks each pair on a thread of its own (Time/Pair: ask_pair) and comes to a verdict (Time/Run:
-- collect_answers, common_window, reason_to_stand_down, set_clock, run). A pair resolves a server
-- over HTTPS (packages/time-correction/src/doh.rs, in Time/Doh: resolve;
-- packages/time-correction/src/dns.rs, in Time/Dns: encode_query, skip_name, parse_response),
-- agrees on keys with it and asks it for the time (packages/time-correction/src/timeserver.rs, in
-- Time/TimeServer: establish, ntp_target, ask_time; packages/time-correction/src/nts.rs, in
-- Time/Nts: request, response_complete, parse_response; packages/time-correction/src/ntp.rs, in
-- Time/Ntp: build_request, extension_fields, parse_response), and checks every certificate chain of
-- the way at that time (packages/time-correction/src/deferred.rs and the windows of
-- packages/time-correction/src/verify.rs, in Time/Deferred: record_chain for Deferred::record,
-- accept, verified_window, intersect). The operators then vote
-- (packages/time-correction/src/quorum.rs, in Time/Quorum: sample, vote, decide).
--
-- packages/system-metrics reads what the system says of itself. Modelled are its drives
-- (packages/system-metrics/src/block.rs, in Metrics/Block: parse_stat, drive_kind, udev_property,
-- decode_udev_enc, identity, smart_name_matches, match_smart) and its time sources
-- (packages/system-metrics/src/chrony.rs, in Metrics/Chrony: parse_sources, parse_authdata,
-- parse_provider, statuses).
--
-- Bytes are numbers and a slice is a list of them; a theorem that needs them below 256 says so. A
-- text is the list of its bytes, and the texts of Metrics are ASCII, but for udev's escaped values,
-- which are any bytes. An error is a constructor that carries what the message of the source names.
-- The counters of the frame reader wrap at 2^64, the checksum of a frame at 2^8. Seconds and raw
-- readings are integers; a double is a parameter, with the laws of IEEE 754 that the theorems use,
-- and so are the AEAD of the NTP fields, the verification of certificates, UTF-8 with its lossy
-- reading and the parsing of a double. The parsers index into frames of 300 bytes, which the frame
-- reader gives them.
--
-- What a pair does outside the program is a record of functions on a world (Time/Network): TLS
-- sessions, HTTP, datagrams, random bytes and certificates, with the law that a socket receives
-- bytes. The state of a pair is its world and the chains it has recorded, passed on through
-- failures too. Each thread has a world of its own, and none stands for a thread that panicked. The
-- state of a run is the list of times that the kernel was asked to set the clock to. What a serial
-- line gives before a deadline is a list of reads.
--
-- Loops over lists are recursions on the list. The others run on fuel, and a theorem says that the
-- fuel given is enough: a round of next_frame takes a byte off the buffer, so one for each byte and
-- one more, also where the line is read; a walk over a DNS name makes at most 64 jumps and passes
-- each byte at most once between two; an extension field of NTP and a record of NTS-KE take four
-- bytes at least, so the length of the packet and one more; a read of the NTS-KE answer adds a byte
-- or ends the loop, and the answer is bounded, so max_ke_response and two more.
--
-- Prelude has the lists, words, bits, integers, texts and results that the parts share. Not
-- modelled are the opening and locking of serial ports and the listing of /dev, the callbacks of
-- verify.rs into TLS, the records that are sent on as JSON, the rest of the package system-metrics,
-- the packages detected-devices and iroh-ssh, and the Nix configuration.
pub mod Prelude
pub mod Serial
pub mod Metrics
pub mod Bms
pub mod Inverter
pub mod Time
