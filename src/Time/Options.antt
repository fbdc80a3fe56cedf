-- ===== src/Time/Options.antt =====
-- packages/time-correction/src/main.rs: the command line, and what a configuration must satisfy. The
-- parser of an IP address is the standard library's, so it is a parameter.
pub mod Accepted
pub mod Operators
mod Tests
use nixos_test.Prelude.{
  ℕ, zero, suc, Bool, true, false, not, ◌&&◌, ◌||◌, Option, none, some, List, [], ◌∷◌, ◌++◌, Bytes,
  bytes_eq, ltb, leb, ◌==◌, if◌then◌else◌, length,
}
use nixos_test.Prelude.Int.{ℤ, pos}
use nixos_test.Prelude.Bits.{filter}
use nixos_test.Prelude.Outcome.{Result, ok, err, ◌>>=◌, ◌>>◌, require, ok_or}
use nixos_test.Prelude.Text.{
  codes, split_on, split_once, member, is_nil, nonempty_texts, parse_u64, parse_i64,
}
use nixos_test.Time.Dns.{IpAddr}

pub record Resolver : Type 0 where
  pub name : Bytes
  pub hostname : Bytes
  pub addresses : List IpAddr

pub record TimeServer : Type 0 where
  pub name : Bytes
  pub hostname : Bytes
  pub operator : Bytes

-- The timeout is in seconds.
pub record Options : Type 0 where
  pub resolvers : List Resolver
  pub servers : List TimeServer
  pub sample : ℕ
  pub tolerance : ℤ
  pub floor : ℤ
  pub only : Option (List Bytes)
  pub timeout : ℕ
  pub force : Bool
  pub dry_run : Bool

-- The flags that take a value.
pub data Flag : Type 0 where
  doh_flag : Flag
  nts_flag : Flag
  sample_flag : Flag
  tolerance_flag : Flag
  floor_flag : Flag
  timeout_flag : Flag
  only_flag : Flag

pub data UsageError : Type 0 where
  no_equals : (spec : Bytes) → UsageError
  no_at : (spec : Bytes) → UsageError
  empty_name : (spec : Bytes) → UsageError
  empty_hostname : (spec : Bytes) → UsageError
  empty_tail : (spec : Bytes) → UsageError
  not_an_address : (name address : Bytes) → UsageError
  no_addresses : (name : Bytes) → UsageError
  needs_value : (flag : Flag) → UsageError
  needs_number : (flag : Flag) → UsageError
  unknown_argument : (argument : Bytes) → UsageError
  no_resolver : UsageError
  no_server : UsageError
  no_sample : UsageError
  too_few_operators : (asked operators : ℕ) → UsageError
  too_few_resolvers : (asked resolvers : ℕ) → UsageError
  only_nothing : UsageError
  not_configured : (name : Bytes) → UsageError
  shared_operators : (names : ℕ) (operators : List Bytes) → UsageError

-- The name, the hostname and what stands after the @.
pub record Spec : Type 0 where
  pub name : Bytes
  pub hostname : Bytes
  pub tail : Bytes

unfoldable pub split_spec : Bytes → Result UsageError Spec
split_spec spec = do
  named ← ok_or (split_once b'=' spec) (no_equals spec)
  hosted ← ok_or (split_once b'@' (named.1)) (no_at spec)
  require (not (is_nil (named.0))) (empty_name spec)
  require (not (is_nil (hosted.0))) (empty_hostname spec)
  require (not (is_nil (hosted.1))) (empty_tail spec)
  ok (record { name = named.0; hostname = hosted.0; tail = hosted.1 })

unfoldable pub parse_server : Bytes → Result UsageError TimeServer
parse_server text = split_spec text >>= λ spec.
    ok (record { name = spec.name; hostname = spec.hostname; operator = spec.tail })

-- The operators of some servers, each once, in the order of their first servers; `seen` are those
-- already pushed.
unfoldable pub operators_from : List Bytes → List TimeServer → List Bytes
operators_from seen [] = seen
operators_from seen (s ∷ servers) =
    if member s.operator seen
    then operators_from seen servers
    else operators_from (seen ++ (s.operator ∷ [])) servers

unfoldable pub distinct_operators : List TimeServer → List Bytes
distinct_operators servers = operators_from [] servers

-- `servers.iter().any(|s| &s.name == name)`
unfoldable pub is_configured : Bytes → List TimeServer → Bool
is_configured name [] = false
is_configured name (s ∷ servers) = bytes_eq s.name name || is_configured name servers

-- The loop over the names of `--only`.
unfoldable pub all_configured : List Bytes → List TimeServer → Result UsageError (Unit {0})
all_configured [] servers = ok tt
all_configured (name ∷ names) servers = do
  require (is_configured name servers) (not_configured name)
  all_configured names servers

-- `servers.iter().filter(|s| only.contains(&s.name))`
unfoldable pub named : List Bytes → List TimeServer → List TimeServer
named only servers = filter (λ s. member s.name only) servers

unfoldable pub check_only : Option (List Bytes) → Options → Result UsageError (Unit {0})
check_only none options = ok tt
check_only (some only) options = do
  require (not (is_nil only)) only_nothing
  all_configured only options.servers
  let operators = distinct_operators (named only options.servers)
  require (leb (length only) (length operators)) (shared_operators (length only) operators)
  require (leb (length only) (length options.resolvers))
      (too_few_resolvers (length only) (length options.resolvers))

-- The checks of `parse_args` once the arguments have been read.
unfoldable pub check_options : Options → Result UsageError (Unit {0})
check_options options = do
  let operators = length (distinct_operators options.servers)
  require (not (is_nil options.resolvers)) no_resolver
  require (not (is_nil options.servers)) no_server
  require (not (options.sample == 0)) no_sample
  require (leb options.sample operators) (too_few_operators options.sample operators)
  require (leb options.sample (length options.resolvers))
      (too_few_resolvers options.sample (length options.resolvers))
  check_only options.only options

abbrev pub default_options : Options
default_options = record {
  resolvers = [];
  servers = [];
  sample = 2;
  tolerance = pos 60;
  floor = pos 0;
  only = none;
  timeout = 10;
  force = false;
  dry_run = false;
}

pub data Action : Type 0 where
  help : Action
  run : (options : Options) → Action

-- What one argument is: the end of the reading, a flag that awaits its value, or new options.
pub data Argument : Type 0 where
  asks_help : Argument
  awaits : (flag : Flag) → Argument
  sets : (options : Options) → Argument
  unknown : Argument

unfoldable pub read_argument : Bytes → Options → Argument
read_argument arg options =
    if bytes_eq arg (codes "--help") || bytes_eq arg (codes "-h")
    then asks_help
    else if bytes_eq arg (codes "--doh")
    then awaits doh_flag
    else if bytes_eq arg (codes "--nts")
    then awaits nts_flag
    else if bytes_eq arg (codes "--sample")
    then awaits sample_flag
    else if bytes_eq arg (codes "--tolerance")
    then awaits tolerance_flag
    else if bytes_eq arg (codes "--floor")
    then awaits floor_flag
    else if bytes_eq arg (codes "--timeout")
    then awaits timeout_flag
    else if bytes_eq arg (codes "--only")
    then awaits only_flag
    else if bytes_eq arg (codes "--force")
    then sets (record options { force = true })
    else if bytes_eq arg (codes "--dry-run")
    then sets (record options { dry_run = true })
    else unknown

module _ (parse_address : Bytes → Option IpAddr) where
  -- `collect::<Result<_, _>>` of the parsed addresses.
  unfoldable pub parse_addresses : Bytes → List Bytes → Result UsageError (List IpAddr)
  parse_addresses name [] = ok []
  parse_addresses name (text ∷ texts) = do
    address ← ok_or (parse_address text) (not_an_address name text)
    addresses ← parse_addresses name texts
    ok (address ∷ addresses)

  unfoldable pub parse_resolver : Bytes → Result UsageError Resolver
  parse_resolver text = do
    spec ← split_spec text
    addresses ← parse_addresses spec.name (nonempty_texts (split_on b',' spec.tail))
    require (not (is_nil addresses)) (no_addresses spec.name)
    ok (record { name = spec.name; hostname = spec.hostname; addresses = addresses })

  -- A flag with its value.
  unfoldable pub with_value : Flag → Bytes → Options → Result UsageError Options
  with_value doh_flag value options = parse_resolver value >>= λ r.
      ok (record options { resolvers = options.resolvers ++ (r ∷ []) })
  with_value nts_flag value options =
      parse_server value >>= λ s. ok (record options { servers = options.servers ++ (s ∷ []) })
  with_value sample_flag value options =
      ok_or (parse_u64 value) (needs_number sample_flag) >>= λ n. ok (record options { sample = n })
  with_value tolerance_flag value options =
      ok_or (parse_i64 value) (needs_number tolerance_flag) >>= λ n.
      ok (record options { tolerance = n })
  with_value floor_flag value options =
      ok_or (parse_i64 value) (needs_number floor_flag) >>= λ n. ok (record options { floor = n })
  with_value timeout_flag value options =
      ok_or (parse_u64 value) (needs_number timeout_flag) >>= λ n.
      ok (record options { timeout = n })
  with_value only_flag value options =
      ok (record options { only = some (nonempty_texts (split_on b',' value)) })

  -- The `while` of `parse_args`, with the flag that awaits a value, if any; `none` is help.
  unfoldable pub read_arguments :
      Option Flag → List Bytes → Options → Result UsageError (Option Options)
  read_arguments none [] options = ok (some options)
  read_arguments (some flag) [] options = err (needs_value flag)
  read_arguments (some flag) (value ∷ args) options =
      with_value flag value options >>= λ options'. read_arguments none args options'
  read_arguments none (arg ∷ args) options = elim (read_argument arg options) [
    | asks_help ↦ ok none
    | awaits flag ↦ read_arguments (some flag) args options
    | sets options' ↦ read_arguments none args options'
    | unknown ↦ err (unknown_argument arg)
  ]

  unfoldable pub checked : Option Options → Result UsageError Action
  checked none = ok help
  checked (some options) = check_options options >> ok (run options)

  unfoldable pub parse_args : List Bytes → Result UsageError Action
  parse_args args = read_arguments none args default_options >>= checked
