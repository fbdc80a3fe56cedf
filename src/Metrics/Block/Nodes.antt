-- ===== src/Metrics/Block/Nodes.antt =====
-- packages/system-metrics/src/block.rs: which names of smartctl's address a disk.
use nixos_test.Prelude.{
  ◌≡◌, ◌≢◌, ◌⊎◌, refl, sym, ap, ◌∙◌, Bool, true, false, ◌||◌, Option, none, some, [], ◌∷◌, ◌++◌,
  Bytes, bytes_eq, bytes_eq_refl, bytes_eq→eq, ◌==◌, ==→eq, eq→==, Bool-cases, inl, inr, &&-eq_true,
}
use nixos_test.Prelude.Text.{codes, all, is_digit, is_some, strip_prefix}
use nixos_test.Metrics.Block

strip_prefix-some :
    (p text : Bytes) {rest : Bytes} → strip_prefix p text ≡ some rest → text ≡ p ++ rest
unfolding strip_prefix
strip_prefix-some [] text h = cc h
strip_prefix-some (c ∷ p) [] h = cc h
strip_prefix-some (c ∷ p) (b ∷ text) h = elim (Bool-cases (c == b)) [
  | inl same ↦
      let later = strip_prefix-some p text (rw same at h) in
      let e : c ≡ b = ==→eq c b same in cc (e, later)
  | inr other ↦ let no : none ≡ some _ = rw other at h in cc no
]

strip_prefix-append : (p rest : Bytes) → strip_prefix p (p ++ rest) ≡ some rest
unfolding strip_prefix
strip_prefix-append [] rest = refl
strip_prefix-append (c ∷ p) rest = rw (eq→== c c refl) (strip_prefix-append p rest)

-- The disk is a namespace of the NVMe controller: its name is the controller's, an `n` and digits.
abbrev pub IsNamespace : Bytes → Bytes → Type 0
IsNamespace controller disk =
    (rest : Bytes) × (number : Bytes) × (controller ≡ codes "nvme" ++ rest)
    × (disk ≡ controller ++ (codes "n" ++ number))
    × (number ≢ [])
    × (all is_digit number ≡ true)

-- A name of smartctl's is that of the disk's node, or of the controller of which it is a namespace.
abbrev pub Addresses : Bytes → Bytes → Type 0
Addresses name disk =
    (node : Bytes) × (name ≡ codes "/dev/" ++ node) × ((node ≡ disk) ⊎ IsNamespace node disk)

is_namespace-some :
    (o : Option Bytes)
    → Block.is_namespace o ≡ true
    → (number : Bytes) × (o ≡ some number) × (number ≢ []) × (all is_digit number ≡ true)
unfolding Block.is_namespace
is_namespace-some none h = cc h
is_namespace-some (some []) h = cc h
is_namespace-some (some (b ∷ number)) h = (b ∷ number, refl, (λ e. cc e), h)

behind_n-some :
    (o : Option Bytes) {number : Bytes}
    → Block.behind_n o ≡ some number
    → (rest : Bytes) × (o ≡ some rest) × (rest ≡ codes "n" ++ number)
unfolding Block.behind_n
behind_n-some none h = cc h
behind_n-some (some rest) h = (rest, refl, strip_prefix-some (codes "n") rest h)

is_some-some : (o : Option Bytes) → is_some o ≡ true → (rest : Bytes) × (o ≡ some rest)
unfolding is_some
is_some-some none h = cc h
is_some-some (some rest) h = (rest, refl)

namespace_of-IsNamespace :
    (controller disk : Bytes)
    → Block.namespace_of controller disk ≡ true
    → IsNamespace controller disk
unfolding Block.namespace_of
namespace_of-IsNamespace controller disk h =
    let (is_nvme, numbered) = &&-eq_true _ _ h in
    let (rest, found) = is_some-some (strip_prefix (codes "nvme") controller) is_nvme in
    let (number, cut, more, digits) = is_namespace-some _ numbered in
    let (behind, whole, e) = behind_n-some (strip_prefix controller disk) cut in
    (
      rest,
      number,
      strip_prefix-some (codes "nvme") controller found,
      strip_prefix-some controller disk whole ∙ ap (λ (t : Bytes). controller ++ t) e,
      more,
      digits,
    )

is_namespace-digits :
    (number : Bytes)
    → number ≢ []
    → all is_digit number ≡ true
    → Block.is_namespace (some number) ≡ true
unfolding Block.is_namespace
is_namespace-digits [] more h = absurd (more refl)
is_namespace-digits (b ∷ number) more h = h

IsNamespace-namespace_of :
    (controller disk : Bytes)
    → IsNamespace controller disk
    → Block.namespace_of controller disk ≡ true
unfolding Block.namespace_of Block.behind_n is_some
IsNamespace-namespace_of controller disk (rest, number, is_nvme, numbered, more, digits) =
    let cut : strip_prefix (codes "nvme") controller ≡ some rest =
      ap (strip_prefix (codes "nvme")) is_nvme ∙ strip_prefix-append (codes "nvme") rest in
    let behind : strip_prefix controller disk ≡ some (codes "n" ++ number) =
      ap (strip_prefix controller) numbered
      ∙ strip_prefix-append controller (codes "n" ++ number) in
    rw (cut, behind, strip_prefix-append (codes "n") number)
      (is_namespace-digits number more digits)

either_true : (a b : Bool) → (a || b) ≡ true → (a ≡ true) ⊎ (b ≡ true)
either_true true b h = inl refl
either_true false b h = inr h

pub smart_name_matches-Addresses :
    (name disk : Bytes) → Block.smart_name_matches name disk ≡ true → Addresses name disk
unfolding Block.smart_name_matches
smart_name_matches-Addresses name disk h = node_of (strip_prefix (codes "/dev/") name) refl h
  where
    node_of :
        (o : Option Bytes)
        → strip_prefix (codes "/dev/") name ≡ o
        → Block.node_matches o disk ≡ true
        → Addresses name disk
    node_of none e h = unfold Block.node_matches in cc h
    node_of (some node) e h = (
      node,
      strip_prefix-some (codes "/dev/") name e,
      elim (either_true (bytes_eq node disk) (Block.namespace_of node disk)
          (unfold Block.node_matches in h)) [
            | inl same ↦ inl (bytes_eq→eq node disk same)
            | inr owned ↦ inr (namespace_of-IsNamespace node disk owned)
          ],
    )

node_matches-either :
    (node disk : Bytes)
    → (node ≡ disk) ⊎ IsNamespace node disk
    → Block.node_matches (some node) disk ≡ true
unfolding Block.node_matches
node_matches-either node disk (inl same) =
    let e : bytes_eq node disk ≡ true = ap (bytes_eq node) (sym same) ∙ bytes_eq_refl node in
    rw e refl
node_matches-either node disk (inr owned) =
    rw (IsNamespace-namespace_of node disk owned) (or_true (bytes_eq node disk))
  where
    or_true : (b : Bool) → (b || true) ≡ true
    or_true true = refl
    or_true false = refl

pub Addresses-smart_name_matches :
    (name disk : Bytes) → Addresses name disk → Block.smart_name_matches name disk ≡ true
unfolding Block.smart_name_matches
Addresses-smart_name_matches name disk (node, e, either) =
    let cut : strip_prefix (codes "/dev/") name ≡ some node =
      ap (strip_prefix (codes "/dev/")) e ∙ strip_prefix-append (codes "/dev/") node in
    rw cut (node_matches-either node disk either)
