-- ===== src/Time/Run/Tests.antt =====
-- packages/time-correction/src/main.rs: a run against a small network, and the theorems at it.
use nixos_test.Prelude.{
  ◌≡◌, ◌≢◌, refl, sym, Bool, true, false, Option, none, some, List, [], ◌∷◌, ◌++◌, Bytes, IsByte,
  All, are_bytes-All, take, replicate, slice, bytes_eq,
}
use mathlib.Core.Path.{subst}
use nixos_test.Prelude.Int.{ℤ, pos, ◌-ℤ◌}
use nixos_test.Prelude.Outcome.{ok, err}
use nixos_test.Prelude.Text
use nixos_test.Prelude.Text.{codes}
use nixos_test.Time.Choose
use nixos_test.Time.Deferred
use nixos_test.Time.Dns
use nixos_test.Time.Dns.{v4, v6}
use nixos_test.Time.Doh
use nixos_test.Time.Network.{Network, State, bytes}
use nixos_test.Time.Doh.Recorded.{Recorded, resolve-Recorded}
use nixos_test.Time.TimeServer.Keyed.{BindsKeys, establish-BindsKeys, establish-ne-out_of_fuel}
use nixos_test.Time.Pair.Attested.{Attested}
use nixos_test.Time.Ntp
use nixos_test.Time.Nts
use nixos_test.Time.Options
use nixos_test.Time.Pair
use nixos_test.Time.Quorum
use nixos_test.Time.TimeServer
use nixos_test.Time.Run
use nixos_test.Time.Run.{Machine, clock_set, since}
use nixos_test.Time.Run.Sound.{answer, Settled, run-Settled}
use nixos_test.Time.Run.Dry.{dried, acted, run-dry}

-- Certificates that are their windows, and a cipher that hides nothing.
abbrev leaf_holds : List Deferred.Window → ℤ → Bool
leaf_holds [] t = false
leaf_holds (w ∷ chain) t = Deferred.contains t w

abbrev plain_siv : Ntp.Siv
plain_siv = record {
  accepts_key = λ key. true;
  encrypt = λ key headers plain. some plain;
  decrypt = λ key headers sealed. some sealed;
  decrypt-encrypt = λ key headers plain sealed h. sym h;
}

abbrev pki : Deferred.Pki
pki = record {
  Certificate = Deferred.Window;
  ServerName = Bytes;
  verify_at = λ chain name t. leaf_holds chain t;
  window_of = λ w. some w;
}

-- One answer, of type A, for the id of the query.
abbrev dns_reply : Bytes → Bytes
dns_reply query =
    take 2 query
    ++ (0x80 ∷ 0 ∷ 0 ∷ 0 ∷ 0 ∷ 1 ∷ 0 ∷ 0 ∷ 0 ∷ 0 ∷ 0 ∷ 0 ∷ 1 ∷ 0 ∷ 1 ∷ 0 ∷ 0 ∷ 0 ∷ 9 ∷ 0 ∷ 4 ∷ 10
        ∷ 0 ∷ 0 ∷ 1 ∷ [])

-- NTPv4, AES-SIV-CMAC-256, a cookie, and the end.
abbrev ke_response : Bytes
ke_response =
    0x80 ∷ 1 ∷ 0 ∷ 2 ∷ 0 ∷ 0 ∷ 0x80 ∷ 4 ∷ 0 ∷ 2 ∷ 0 ∷ 15 ∷ 0 ∷ 5 ∷ 0 ∷ 1 ∷ 7 ∷ 0x80 ∷ 0 ∷ 0 ∷ 0 ∷ []

-- 1785000000 seconds after the Unix epoch, for the identifier of thirty-two sevens.
abbrev ntp_response : Bytes
ntp_response =
    ((0x24 ∷ 3 ∷ replicate 38 0) ++ (0xEE ∷ 0x0F ∷ 0x6E ∷ 0xC0 ∷ replicate 4 0))
    ++ (Ntp.extension_field Ntp.ef_unique_identifier (replicate 32 7)
        ++ Ntp.extension_field Ntp.ef_authenticator
            (Ntp.authenticator_body (replicate 16 7) (1 ∷ [])))

ntp_response_bytes : All IsByte ntp_response
unfolding Ntp.extension_field Ntp.authenticator_body
ntp_response_bytes = are_bytes-All ntp_response refl

some-injective : {a b : Bytes} → ◌≡◌ {A = Option Bytes} (some a) (some b) → a ≡ b
some-injective h = cc h

abbrev small : Network
small = record {
  pki = pki;
  siv = plain_siv;
  is_utf8 = λ text. true;
  parse_address = λ text. none;
  server_name = λ host. some host;
  World = Unit {0};
  random = λ n w. (some (replicate n 7), w);
  builds_client = true;
  post = λ host address query timeout w. (
    some (record {
      status = 200;
      body = some (dns_reply query);
      chain = some ((pos 1700000000, pos 1800000000) ∷ []);
    }),
    w,
  );
  Session = Unit {0};
  connect = λ name address port timeout w. (some tt, w);
  send = λ session request w. (some tt, w);
  alpn = λ session w. some TimeServer.alpn_protocol;
  read = λ session w. (bytes ke_response, w);
  export_key = λ session w label context. some (replicate 32 9);
  peer_certificates = λ session w. some ((pos 1750000000, pos 1790000000) ∷ []);
  exchange = λ address port packet timeout w. (some ntp_response, w);
  exchange_bytes =
      λ address port packet timeout w h. subst (All IsByte) (some-injective h) ntp_response_bytes;
}

abbrev options : Options.Options
options = record Options.default_options {
  resolvers =
      (record {
        name = codes "quad9";
        hostname = codes "dns.quad9.net";
        addresses = v4 9 9 9 9 ∷ [];
      })
      ∷ [];
  servers =
      (record {
        name = codes "netnod";
        hostname = codes "nts.netnod.se";
        operator = codes "netnod";
      })
      ∷ [];
  sample = 1;
}

-- The clock of a board without a battery.
abbrev machine : Machine small
machine = record {
  trust_store = true;
  seed_bytes = some (1 ∷ 2 ∷ 3 ∷ 4 ∷ 5 ∷ 6 ∷ 7 ∷ 8 ∷ []);
  thread = λ i. some tt;
  clock = since 0;
}

run_sets :
    Run.run small machine options (λ t. true) []
    ≡ (ok (clock_set (pos 1785000000)), pos 1785000000 ∷ [])
unfolding Run.run Run.verdict Run.set_clock Run.decided Run.collect_answers Run.collect_from
    Run.joined Run.with_outcome Run.conclude Run.reason_to_stand_down Run.epoch_seconds
    Run.needs_setting Run.common_window Run.seed Run.le_value Choose.choose Choose.chosen
    Choose.picks Choose.pick Choose.with_pick Choose.first_named Choose.theirs Choose.find
    Choose.pair_up Choose.found Options.distinct_operators Options.operators_from Quorum.sample
    Quorum.sample_loop Quorum.advance Quorum.mix Quorum.nth Quorum.without Quorum.decide
    Quorum.votes Quorum.vote Quorum.settle Quorum.own Quorum.newest Quorum.oldest Quorum.middle
    Quorum.sort Quorum.insert Quorum.silent_names Quorum.answered Quorum.is_empty ◌-ℤ◌ Pair.run_pair
    Pair.ask_pair Pair.resolve Pair.resolved Pair.attempt Pair.attempted Pair.establish_first
    Pair.established Pair.exchanged Pair.redirected Pair.asked Pair.accepted Pair.verified_at
    Pair.refuse_below_floor Doh.resolve TimeServer.establish TimeServer.ask_time
    TimeServer.read_response TimeServer.read_from TimeServer.received TimeServer.is_complete
    TimeServer.is_protocol TimeServer.ask_session TimeServer.check_alpn TimeServer.export_key
    TimeServer.ntp_target TimeServer.first_cookie Dns.encode_query Dns.encode_labels Dns.split
    Dns.parse_response Dns.u16_at Dns.skip_questions Dns.read_answers Dns.skip_name Dns.skip_loop
    Dns.turn Dns.turn_at Dns.follow_label Dns.continue Dns.address_of Dns.with_address Dns.nonempty
    Nts.response_complete Nts.complete_from Nts.parse_response Nts.records_from Nts.read_record
    Nts.u16_at Nts.gather Nts.check_protocol Nts.check_aead Nts.has_cookies Ntp.build_request
    Ntp.parse_response Ntp.check_header Ntp.check_identifier Ntp.check_authenticator
    Ntp.extension_fields Ntp.fields_from Ntp.find_kind Ntp.transmit_timestamp Ntp.read_timestamp
    Ntp.extension_field Ntp.authenticator_body Deferred.accept Deferred.check_chains
    Deferred.leg_window Deferred.chain_windows Deferred.verified_window Deferred.intersect
    Deferred.intersect_from Deferred.with_window Deferred.is_empty Deferred.any_unknown
    Deferred.known Deferred.record_chain Text.member slice bytes_eq
run_sets = refl

run-Settled_example :
    (options.dry_run ≡ false)
    × (◌≡◌ {A = Run.Calls} [] [])
    × (ok (clock_set (pos 1785000000)) ≡ answer (λ t. true) (pos 1785000000))
    × Settled small options machine (pos 1785000000)
run-Settled_example = run-Settled small options machine (λ t. true) run_sets

run-dry_example :
    let dry = Run.run small machine (dried true options) (λ t. true) (pos 7 ∷ []) in
    (dry.1 ≡ pos 7 ∷ [])
    × (Run.run small machine (dried false options) (λ t. true) (pos 7 ∷ [])
        ≡ acted (λ t. true) (pos 7 ∷ []) dry.0)
run-dry_example = run-dry small options machine (λ t. true) (pos 7 ∷ [])

abbrev fresh : State small
fresh = (tt, [])

resolve-Recorded_example :
    Recorded small
      (Doh.doh_leg (codes "dns.quad9.net"))
      (codes "dns.quad9.net")
      fresh
      (Doh.resolve small (codes "dns.quad9.net") (v4 9 9 9 9) (codes "nts.netnod.se") 1 7 10 fresh)
resolve-Recorded_example =
    resolve-Recorded small (codes "dns.quad9.net") (v4 9 9 9 9) (codes "nts.netnod.se") 1 7 10 fresh

establish-BindsKeys_example :
    BindsKeys small
      (codes "nts.netnod.se")
      fresh
      (TimeServer.establish small (codes "nts.netnod.se") (v4 10 0 0 1) 10 fresh)
establish-BindsKeys_example =
    establish-BindsKeys small (codes "nts.netnod.se") (v4 10 0 0 1) 10 fresh

establish-ne-out_of_fuel_example :
    (TimeServer.establish small (codes "nts.netnod.se") (v4 10 0 0 1) 10 fresh).0
    ≢ err TimeServer.out_of_fuel
establish-ne-out_of_fuel_example =
    establish-ne-out_of_fuel small (codes "nts.netnod.se") (v4 10 0 0 1) 10 fresh

abbrev quad9 : Options.Resolver
quad9 = record {
  name = codes "quad9";
  hostname = codes "dns.quad9.net";
  addresses = v4 9 9 9 9 ∷ [];
}

abbrev netnod : Options.TimeServer
netnod = record {
  name = codes "netnod";
  hostname = codes "nts.netnod.se";
  operator = codes "netnod";
}
