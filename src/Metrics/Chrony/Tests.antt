-- ===== src/Metrics/Chrony/Tests.antt =====
-- packages/system-metrics/src/chrony.rs: columns, and a report with a row of another source.
use nixos_test.Prelude.{
  ℕ, ◌≡◌, refl, Option, none, some, [], ◌∷◌, map, Bytes, bytes_eq, get_elem?, length,
}
use nixos_test.Prelude.Int.{ℤ, pos}
use nixos_test.Prelude.Text
use nixos_test.Prelude.Text.{codes}
use nixos_test.Metrics.Chrony
use nixos_test.Metrics.Chrony.{Doubles, Provider}
use nixos_test.Metrics.Chrony.Joined.{IsFirst, statuses-by_name}

-- The register is octal.
whole_register : Chrony.parse_reach (codes " 377") ≡ some 255
unfolding Chrony.parse_reach Chrony.octal Chrony.octal_digits Chrony.octal_from Text.trim
    Text.trim_start Text.trim_end Text.keep_end
whole_register = refl

too_wide : Chrony.parse_reach (codes "400") ≡ none
unfolding Chrony.parse_reach Chrony.octal Chrony.octal_digits Chrony.octal_from Text.trim
    Text.trim_start Text.trim_end Text.keep_end
too_wide = refl

never : Chrony.interval_seconds (codes "4294967295") ≡ none
unfolding Chrony.interval_seconds Chrony.unless_never Text.parse_u64 Text.magnitude Text.positive
    Text.below Text.number_from Text.trim Text.trim_start Text.trim_end Text.keep_end
never = refl

abbrev texts : Doubles
texts = record { Double = Bytes; parse_f64 = λ text. some text; power_of_two = λ n. [] }

abbrev netnod : Provider
netnod = record { name = codes "netnod"; hostname = codes "n"; operator = codes "netnod" }

-- A row of another source, and then the provider's.
abbrev sources_report : Bytes
sources_report = codes "#,*,PHC0,0,4,377,11,1,0,0\n^,+,n,2,6,377,12,3,0,0\n"

abbrev authdata_report : Bytes
authdata_report = codes "n,NTS,5,15,256,100,0,0,8,100\n"

second_row :
    map (Chrony.source_name texts) (Chrony.parse_sources texts sources_report)
    ≡ codes "PHC0" ∷ codes "n" ∷ []
unfolding Chrony.parse_sources Chrony.source_rows Chrony.source_row Text.lines Text.end_lines
    Text.without_cr Text.split_on Text.split_from Text.trim Text.trim_start Text.trim_end
    Text.keep_end
second_row = refl

joined_row :
    map {B = Option ℕ × Option ℤ}
      (λ (s : Chrony.Status texts). (s.reach, s.nts_cookies))
      (Chrony.statuses texts (netnod ∷ []) sources_report authdata_report)
    ≡ (some 255, some (pos 8)) ∷ []
unfolding Chrony.statuses Chrony.status_of Chrony.status_from Chrony.row_of Chrony.and_then
    Chrony.parse_sources Chrony.source_rows Chrony.source_row Chrony.parse_authdata
    Chrony.authdata_rows Chrony.authdata_row Chrony.parse_reach Chrony.octal Chrony.octal_digits
    Chrony.octal_from Text.lines Text.end_lines Text.without_cr Text.split_on Text.split_from
    Text.trim Text.trim_start Text.trim_end Text.keep_end Text.parse_i64 Text.magnitude
    Text.positive Text.below Text.number_from bytes_eq
joined_row = refl

statuses-by_name_example :
    (length (Chrony.statuses texts (netnod ∷ []) sources_report authdata_report) ≡ 1)
    × ((source : Option (Chrony.Source texts)) × (auth : Option Chrony.AuthData) × IsFirst
          (Chrony.source_name texts)
          netnod.hostname
          (Chrony.parse_sources texts sources_report)
          source
        × IsFirst
            (Chrony.auth_name texts)
            netnod.hostname
            (Chrony.parse_authdata authdata_report)
            auth
        × (get_elem? (Chrony.statuses texts (netnod ∷ []) sources_report authdata_report) 0
            ≡ some (Chrony.status_from texts source auth)))
statuses-by_name_example =
    statuses-by_name texts (netnod ∷ []) sources_report authdata_report 0 netnod refl
