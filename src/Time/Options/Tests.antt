-- ===== src/Time/Options/Tests.antt =====
-- packages/time-correction/src/main.rs: command lines, the configuration they give, and the pairs that
-- are chosen for it.
use nixos_test.Prelude.{◌≡◌, refl, true, Option, some, List, [], ◌∷◌, Bytes, bytes_eq}
use nixos_test.Prelude.Int.{negsuc}
use nixos_test.Prelude.Outcome.{ok, err}
use nixos_test.Prelude.Text
use nixos_test.Prelude.Text.{codes}
use nixos_test.Time.Dns.{IpAddr, v4}
use nixos_test.Time.Options
use nixos_test.Time.Options.Accepted.{IsValid, parse_args-IsValid}

-- Any text is the same address.
abbrev one_address : Bytes → Option IpAddr
one_address text = some (v4 9 9 9 9)

abbrev arguments : List Bytes
arguments =
    codes "--doh"
    ∷ codes "quad9=dns.quad9.net@9.9.9.9,149.112.112.112"
    ∷ codes "--nts"
    ∷ codes "netnod=nts.netnod.se@netnod"
    ∷ codes "--sample"
    ∷ codes "1"
    ∷ codes "--floor"
    ∷ codes "-12"
    ∷ codes "--force"
    ∷ []

abbrev options : Options.Options
options = record Options.default_options {
  resolvers =
      (record {
        name = codes "quad9";
        hostname = codes "dns.quad9.net";
        addresses = v4 9 9 9 9 ∷ v4 9 9 9 9 ∷ [];
      })
      ∷ [];
  servers =
      (record {
        name = codes "netnod";
        hostname = codes "nts.netnod.se";
        operator = codes "netnod";
      })
      ∷ [];
  sample = 1;
  floor = negsuc 11;
  force = true;
}

reads : Options.parse_args one_address arguments ≡ ok (Options.run options)
unfolding Options.parse_args Options.read_arguments Options.read_argument Options.with_value
    Options.checked Options.check_options Options.check_only Options.parse_resolver
    Options.parse_server Options.parse_addresses Options.split_spec Options.distinct_operators
    Options.operators_from Text.split_once Text.before_cut Text.split_on Text.split_from
    Text.nonempty_texts Text.parse_u64 Text.parse_i64 Text.magnitude Text.below Text.negative
    Text.positive Text.number_from Text.member bytes_eq
reads = refl

lacks_value :
    Options.parse_args one_address (codes "--doh" ∷ []) ≡ err (Options.needs_value Options.doh_flag)
unfolding Options.parse_args Options.read_arguments Options.read_argument bytes_eq
lacks_value = refl

-- Help needs no configuration, and what stands behind it is not read.
asks : Options.parse_args one_address (codes "-h" ∷ codes "--bogus" ∷ []) ≡ ok Options.help
unfolding Options.parse_args Options.read_arguments Options.read_argument Options.checked bytes_eq
asks = refl

parse_args-IsValid_example : IsValid options
parse_args-IsValid_example = parse_args-IsValid one_address arguments reads
