-- ===== src/Metrics/Chrony/Joined.antt =====
-- packages/system-metrics/src/chrony.rs: the reports are joined with the providers by name.
use nixos_test.Prelude.{
  ℕ, zero, suc, ◌≡◌, ◌≢◌, refl, sym, ap, ◌∙◌, true, false, Option, none, some, List, [], ◌∷◌, map,
  Bytes, bytes_eq, bytes_eq_refl, bytes_eq→eq, get_elem?, take, length, length-map, All, Bool-cases,
  inl, inr,
}
use nixos_test.Metrics.Chrony
use nixos_test.Metrics.Chrony.{Doubles, Provider, row_of}

-- The first row of a name, or that no row has it.
abbrev pub IsFirst : {A : Type 0} → (A → Bytes) → Bytes → List A → Option A → Type 0
IsFirst key hostname rows none = All (λ x. key x ≢ hostname) rows
IsFirst key hostname rows (some row) =
    (i : ℕ) × (get_elem? rows i ≡ some row)
    × (key row ≡ hostname)
    × All (λ x. key x ≢ hostname) (take i rows)

named_otherwise : (name hostname : Bytes) → bytes_eq name hostname ≡ false → name ≢ hostname
named_otherwise name hostname h = λ e.
    let own : bytes_eq name hostname ≡ true = ap (bytes_eq name) (sym e) ∙ bytes_eq_refl name in
    let no : true ≡ false = sym own ∙ h in cc no

module _ {A : Type 0} where
  IsFirst-cons :
      (key : A → Bytes) (hostname : Bytes) (x : A) (rows : List A) (o : Option A)
      → key x ≢ hostname
      → IsFirst key hostname rows o
      → IsFirst key hostname (x ∷ rows) o
  IsFirst-cons key hostname x rows none other h = (other, h)
  IsFirst-cons key hostname x rows (some row) other (i, at, own, before) =
      (suc i, at, own, (other, before))

  row_of-IsFirst :
      (key : A → Bytes) (hostname : Bytes) (rows : List A)
      → IsFirst key hostname rows (row_of key hostname rows)
  unfolding row_of
  row_of-IsFirst key hostname [] = tt
  row_of-IsFirst key hostname (x ∷ rows) = elim (Bool-cases (bytes_eq (key x) hostname)) [
    | inl own ↦ rw own (zero, refl, bytes_eq→eq (key x) hostname own, tt)
    | inr other ↦ rw other (
        IsFirst-cons key hostname x rows (row_of key hostname rows)
          (named_otherwise (key x) hostname other) (row_of-IsFirst key hostname rows))
  ]

get_elem?-map {ℓ κ} :
    {A : Type ℓ} {B : Type κ} (f : A → B) (xs : List A) (i : ℕ) {x : A}
    → get_elem? xs i ≡ some x
    → get_elem? (map f xs) i ≡ some (f x)
get_elem?-map f [] i h = cc
get_elem?-map f (x ∷ xs) zero h = ap some (cc h)
get_elem?-map f (x ∷ xs) (suc i) h = get_elem?-map f xs i h

module _ (doubles : Doubles) where
  -- There is one status for each configured provider, whatever chrony reports. The one at a provider's
  -- place is made of the first row that has the provider's host for its name in either report, and of
  -- no row of a report only if no row of it has that name.
  pub statuses-by_name :
      (providers : List Provider) (sources authdata : Bytes) (i : ℕ) (provider : Provider)
      → get_elem? providers i ≡ some provider
      → (length (Chrony.statuses doubles providers sources authdata) ≡ length providers)
        × ((source : Option (Chrony.Source doubles)) × (auth : Option Chrony.AuthData) × IsFirst
              (Chrony.source_name doubles)
              provider.hostname
              (Chrony.parse_sources doubles sources)
              source
            × IsFirst
                (Chrony.auth_name doubles)
                provider.hostname
                (Chrony.parse_authdata authdata)
                auth
            × (get_elem? (Chrony.statuses doubles providers sources authdata) i
                ≡ some (Chrony.status_from doubles source auth)))
  unfolding Chrony.statuses Chrony.status_of
  statuses-by_name providers sources authdata i provider at = (
    length-map providers _,
    (
      row_of (Chrony.source_name doubles) provider.hostname (Chrony.parse_sources doubles sources),
      row_of (Chrony.auth_name doubles) provider.hostname (Chrony.parse_authdata authdata),
      row_of-IsFirst (Chrony.source_name doubles) provider.hostname
          (Chrony.parse_sources doubles sources),
      row_of-IsFirst (Chrony.auth_name doubles) provider.hostname (Chrony.parse_authdata authdata),
      get_elem?-map _ providers i at,
    ),
  )
