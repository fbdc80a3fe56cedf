-- ===== src/Prelude/Distinct.antt =====
-- Lists of texts in which none occurs twice, and how many texts fit among others.
use nixos_test.Prelude.{
  suc, ◌≤◌, ◌≡◌, ◌≢◌, refl, sym, Bool, true, false, List, [], ◌∷◌, ◌++◌, map, Bytes, arith,
  if◌then◌else◌, length, All, All-both, All-weaken, Bool-cases, inl, inr, bytes_eq, bytes_eq_refl,
  bytes_eq→eq,
}
use mathlib.Core.Logic.Or
use mathlib.Core.HLevel.{⊥_prop}
use mathlib.Core.List.{Nodup, Nodup-cons, Nodup-nil, Mem, mem-cons, not-mem-nil}
use nixos_test.Prelude.Bits.{filter}
use nixos_test.Prelude.Text.{member}

abbrev pub Distinct : List Bytes → Type 0
Distinct [] = Unit
Distinct (x ∷ xs) = All (λ y. y ≢ x) xs × Distinct xs

abbrev pub IsMember : List Bytes → Bytes → Type 0
IsMember xs x = member x xs ≡ true

member-apart : (x : Bytes) (xs : List Bytes) → member x xs ≡ false → All (λ y. y ≢ x) xs
unfolding member
member-apart x [] h = tt
member-apart x (y ∷ ys) h = elim (Bool-cases (bytes_eq y x)) [
  | inl same ↦ let no : true ≡ false = rw same at h in cc no
  | inr other ↦ (
    (λ e. let no : bytes_eq y x ≡ true = rw e (bytes_eq_refl x) in cc (no, other)),
    member-apart x ys (rw other at h),
  )
]

Distinct-snoc :
    (x : Bytes) (xs : List Bytes) → All (λ y. y ≢ x) xs → Distinct xs → Distinct (xs ++ (x ∷ []))
Distinct-snoc x [] h d = (tt, tt)
Distinct-snoc x (y ∷ ys) (ne, h) (apart, d) = (added ys apart, Distinct-snoc x ys h d)
  where
    added : (zs : List Bytes) → All (λ z. z ≢ y) zs → All (λ z. z ≢ y) (zs ++ (x ∷ []))
    added [] a = ((λ e. ne (sym e)), tt)
    added (z ∷ zs) (k, a) = (k, added zs a)

pub Distinct-pushed :
    (x : Bytes) (xs : List Bytes) → member x xs ≡ false → Distinct xs → Distinct (xs ++ (x ∷ []))
Distinct-pushed x xs h d = Distinct-snoc x xs (member-apart x xs h) d

pub Distinct-Nodup : (xs : List Bytes) → Distinct xs → Nodup xs
Distinct-Nodup [] d = Nodup-nil
Distinct-Nodup (x ∷ xs) (apart, d) = Nodup-cons.1 (absent xs apart, Distinct-Nodup xs d)
  where
    absent : (ys : List Bytes) → All (λ y. y ≢ x) ys → ¬ Mem x ys
    absent [] a m = not-mem-nil m
    absent (y ∷ ys) (ne, a) m =
        Or.elim ⊥_prop (mem-cons.0 m) (λ e. ne (sym e)) (λ later. absent ys a later)

pub Nodup-Distinct : (xs : List Bytes) → Nodup xs → Distinct xs
Nodup-Distinct [] n = tt
Nodup-Distinct (x ∷ xs) n = (apart xs (Nodup-cons.0 n).0, Nodup-Distinct xs (Nodup-cons.0 n).1)
  where
    apart : (ys : List Bytes) → ¬ Mem x ys → All (λ y. y ≢ x) ys
    apart [] out = tt
    apart (y ∷ ys) out =
        ((λ e. out (mem-cons.1 (Or.inl (sym e)))), apart ys (λ m. out (mem-cons.1 (Or.inr m))))

-- What is left once the first occurrence has been taken out.
abbrev remove : Bytes → List Bytes → List Bytes
remove x [] = []
remove x (y ∷ ys) = if bytes_eq y x then ys else y ∷ remove x ys

length-remove :
    (x : Bytes) (ys : List Bytes) → IsMember ys x → length ys ≡ suc (length (remove x ys))
unfolding member
length-remove x [] h = cc
length-remove x (y ∷ ys) h = elim (Bool-cases (bytes_eq y x)) [
  | inl same ↦ rw same refl
  | inr other ↦ rw other (omega (arith, length-remove x ys (rw other at h)))
]

remove-IsMember : (x z : Bytes) (ys : List Bytes) → z ≢ x → IsMember ys z → IsMember (remove x ys) z
unfolding member
remove-IsMember x z [] ne h = cc
remove-IsMember x z (y ∷ ys) ne h = elim (Bool-cases (bytes_eq y x)) [
  | inl same ↦ elim (Bool-cases (bytes_eq y z)) [
    | inl own ↦
        let a = bytes_eq→eq y x same in let b = bytes_eq→eq y z own in absurd (ne (cc (a, b)))
    | inr other ↦ rw same (rw other at h)
  ]
  | inr kept ↦ elim (Bool-cases (bytes_eq y z)) [
    | inl own ↦ rw (kept, own) refl
    | inr other ↦ rw (kept, other) (remove-IsMember x z ys ne (rw other at h))
  ]
]

-- Texts that differ from one another and all occur in a list are no more than the list holds.
pub length-Distinct :
    (xs ys : List Bytes) → Distinct xs → All (IsMember ys) xs → length xs ≤ length ys
length-Distinct [] ys d h = omega arith
length-Distinct (x ∷ xs) ys (apart, d) (here, h) =
    let rest =
      All-weaken (λ z. (z ≢ x) × IsMember ys z) (IsMember (remove x ys))
        (λ z k. remove-IsMember x z ys (k.0) (k.1)) xs (All-both _ _ xs apart h) in
    omega (arith, length-remove x ys here, length-Distinct xs (remove x ys) d rest)

module _ {ℓ} {A : Type ℓ} where
  pub filter-All {κ} :
      (P : A → Type κ) (p : A → Bool) (xs : List A) → All P xs → All P (filter p xs)
  filter-All P p [] h = tt
  filter-All P p (x ∷ xs) (k, h) = elim (Bool-cases (p x)) [
    | inl kept ↦ rw kept (k, filter-All P p xs h)
    | inr dropped ↦ rw dropped (filter-All P p xs h)
  ]

  pub All-filter : (p : A → Bool) (xs : List A) → All (λ x. p x ≡ true) (filter p xs)
  All-filter p [] = tt
  All-filter p (x ∷ xs) = elim (Bool-cases (p x)) [
    | inl kept ↦ rw kept (kept, All-filter p xs)
    | inr dropped ↦ rw dropped (All-filter p xs)
  ]

  -- A selection of things with distinct keys has distinct keys.
  pub Distinct-filter :
      (key : A → Bytes) (p : A → Bool) (xs : List A)
      → Distinct (map key xs)
      → Distinct (map key (filter p xs))
  Distinct-filter key p [] d = tt
  Distinct-filter key p (x ∷ xs) (apart, d) = elim (Bool-cases (p x)) [
    | inl kept ↦ rw kept (still xs apart, Distinct-filter key p xs d)
    | inr dropped ↦ rw dropped (Distinct-filter key p xs d)
  ]
    where
      still :
          (ys : List A)
          → All (λ y. y ≢ key x) (map key ys)
          → All (λ y. y ≢ key x) (map key (filter p ys))
      still [] a = tt
      still (y ∷ ys) (ne, a) = elim (Bool-cases (p y)) [
        | inl kept ↦ rw kept (ne, still ys a)
        | inr dropped ↦ rw dropped (still ys a)
      ]
