-- ===== src/Naming/Sequence.antt =====
-- What the versioned names of healing/offset_recovery.py keep and how they grow.
use self_healing_kafka_syste.Base.{
  ℕ, zero, suc, ◌+◌, ◌≡◌, refl, ap, Bool, true, false, ◌&&◌, none, some, List, [], ◌∷◌, ◌++◌, arith,
  ◌==◌, inl, inr, all, length, is_empty, Option-cases, Bool-cases, ◌≤◌,
}
use self_healing_kafka_syste.Base.Text.{Text}
use self_healing_kafka_syste.Base.Decimal.{
  is_digit, read_from, read_decimal, print_padded, print_padded-digits, le-length-print_padded,
  read_decimal-print_padded,
}
use self_healing_kafka_syste.Naming.Version.{
  split_digits, groups, drop_newline, no_newline, match_version, next_versioned_connector_name,
  base_connector_name, is_versioned_connector_name,
}
use native.Mathlib.Nat.{le_trans}
use mathlib.Core.List.{
  reverse, reverse-append, reverse-cons, reverse-reverse, append_assoc, append-nil,
}

&&-true : (a b : Bool) → (a && b) ≡ true → (a ≡ true) × (b ≡ true)
&&-true a b h = ground arith

module _ {ℓ} {A : Type ℓ} where
  all-append :
      (p : A → Bool) (xs ys : List A) → all p xs ≡ true → all p ys ≡ true → all p (xs ++ ys) ≡ true
  all-append p [] ys h k = k
  all-append p (x ∷ xs) ys h k = ground (arith, all-append p xs ys)

  all-reverse : (p : A → Bool) (xs : List A) → all p xs ≡ true → all p (reverse xs) ≡ true
  all-reverse p [] h = refl
  all-reverse p (x ∷ xs) h =
      let (hx, hs) = &&-true (p x) (all p xs) h in
      rw (reverse-cons x xs) (all-append p (reverse xs) (x ∷ []) (all-reverse p xs hs) (rw hx))

  is_empty-append : (xs : List A) (y : A) (ys : List A) → is_empty (xs ++ (y ∷ ys)) ≡ false
  is_empty-append [] y ys = refl
  is_empty-append (x ∷ xs) y ys = refl

  is_empty-reverse : (xs : List A) → is_empty xs ≡ false → is_empty (reverse xs) ≡ false
  is_empty-reverse [] h = h
  is_empty-reverse (x ∷ xs) h = rw (reverse-cons x xs) (is_empty-append (reverse xs) x [])

split_digits-append :
    (acc ds : Text) (c : ℕ) (t : Text)
    → all is_digit ds ≡ true
    → is_digit c ≡ false
    → split_digits acc (ds ++ (c ∷ t)) ≡ (reverse ds ++ acc, c ∷ t)
unfolding split_digits
split_digits-append acc [] c t h k = rw k
split_digits-append acc (d ∷ ds) c t h k =
    let (hd, hs) = &&-true (is_digit d) (all is_digit ds) h in
    rw (hd, reverse-cons d ds, append_assoc) (split_digits-append (d ∷ acc) ds c t hs k)

drop_newline-append :
    (ds t : Text) → all is_digit ds ≡ true → is_empty ds ≡ false → drop_newline (ds ++ t) ≡ ds ++ t
unfolding drop_newline is_digit
drop_newline-append [] t h e = cc
drop_newline-append (d ∷ ds) t h e = ground arith

groups_lem :
    (ds t : Text)
    → is_empty ds ≡ false
    → is_empty t ≡ false
    → all no_newline t ≡ true
    → groups (ds, 46 ∷ t) ≡ some (reverse t, ds)
unfolding groups
groups_lem [] t hd ht hn = cc
groups_lem (d ∷ ds) [] hd ht hn = cc
groups_lem (d ∷ ds) (b ∷ t) hd ht hn = rw hn

-- A base, a dot and digits are read back as the two groups.
match_version-append :
    (base ds : Text)
    → all no_newline base ≡ true
    → is_empty base ≡ false
    → all is_digit ds ≡ true
    → is_empty ds ≡ false
    → match_version (base ++ (46 ∷ ds)) ≡ some (base, ds)
unfolding match_version is_digit
match_version-append base ds hb eb hd ed =
    let backwards : reverse (base ++ (46 ∷ ds)) ≡ reverse ds ++ (46 ∷ reverse base) =
      rw (reverse-append base (46 ∷ ds), reverse-cons 46 ds, append_assoc) in
    rw backwards (
      rw
        (drop_newline-append (reverse ds) (46 ∷ reverse base) (all-reverse is_digit ds hd)
          (is_empty-reverse ds ed))
        (rw
          (split_digits-append [] (reverse ds) 46 (reverse base) (all-reverse is_digit ds hd) refl)
          (rw (
            reverse-reverse,
            append-nil,
            groups_lem ds (reverse base) ed (is_empty-reverse base eb)
                (all-reverse no_newline base hb),
            reverse-reverse,
          ))))

groups_parts :
    (p : Text × Text) (b ds : Text)
    → groups p ≡ some (b, ds)
    → (all no_newline b ≡ true) × (is_empty b ≡ false) × (is_empty ds ≡ false)
unfolding groups
groups_parts ([], rest) b ds h = cc
groups_parts (d ∷ s, []) b ds h = cc
groups_parts (d ∷ s, c ∷ []) b ds h = cc
groups_parts (d ∷ s, c ∷ x ∷ base) b ds h =
    elim (Bool-cases (c == 46 && all no_newline (x ∷ base))) [
      | inr e ↦ cc (rw e at h)
      | inl e ↦
          let fits : some (reverse (x ∷ base), d ∷ s) ≡ some (b, ds) = rw e at h in
          let same_base : reverse (x ∷ base) ≡ b = cc fits in
          let same_digits : (d ∷ s) ≡ ds = cc fits in
          (
            rw (← same_base) (
                all-reverse no_newline (x ∷ base)
                  (&&-true (c == 46) (all no_newline (x ∷ base)) e).1),
            rw (← same_base) (is_empty-reverse (x ∷ base) refl),
            rw (← same_digits),
          )
    ]

match_version_parts :
    (name b ds : Text)
    → match_version name ≡ some (b, ds)
    → (all no_newline b ≡ true) × (is_empty b ≡ false) × (is_empty ds ≡ false)
unfolding match_version
match_version_parts name b ds h =
    groups_parts (split_digits [] (drop_newline (reverse name))) b ds h

-- The number at the end of a name, and zero where there is none.
abbrev pub sequence : Text → ℕ
sequence name = elim (match_version name) [ none ↦ 0 | some (base, digits) ↦ read_decimal digits ]

-- A name that a connector can have: not empty, and on one line.
pub record IsName (name : Text) : Type 0 where
  pub on_one_line : all no_newline name ≡ true
  pub not_empty : is_empty name ≡ false

not_empty_of_length : (s : Text) → 1 ≤ length s → is_empty s ≡ false
not_empty_of_length [] h = absurd (omega arith)
not_empty_of_length (c ∷ s) h = refl

length_of_not_empty : (s : Text) → is_empty s ≡ false → 1 ≤ length s
length_of_not_empty [] h = cc
length_of_not_empty (c ∷ s) h = omega arith

match_version-next :
    (name : Text)
    → IsName name
    → (digits : Text) × (match_version (next_versioned_connector_name name)
        ≡ some (base_connector_name name, digits))
      × (read_decimal digits ≡ sequence name + 1)
unfolding next_versioned_connector_name base_connector_name
match_version-next name h = elim (Option-cases (match_version name)) [
  | inl e ↦
      rw (e, next_versioned_connector_name, base_connector_name, sequence)
        (
          48 ∷ 48 ∷ 49 ∷ [],
          match_version-append name (48 ∷ 48 ∷ 49 ∷ []) h.on_one_line h.not_empty
              (unfold is_digit in refl) refl,
          (unfold read_from in refl),
        )
  | inr ((base, ds), e) ↦
      let (line, full, some_digits) = match_version_parts name base ds e in
      rw (e, next_versioned_connector_name, base_connector_name, sequence)
        (
          print_padded (length ds) (read_decimal ds + 1),
          match_version-append base (print_padded (length ds) (read_decimal ds + 1)) line full
              (print_padded-digits (length ds) (read_decimal ds + 1))
              (not_empty_of_length _ (
                le_trans (length_of_not_empty ds some_digits)
                  (le-length-print_padded (length ds) (read_decimal ds + 1)))),
          read_decimal-print_padded (length ds) (read_decimal ds + 1),
        )
]

-- The replacement's name is versioned, keeps the base name, and has the next sequence number.
pub next_versioned_connector_name_lem :
    (name : Text)
    → IsName name
    → let next = next_versioned_connector_name name in
      (is_versioned_connector_name next ≡ true)
      × (base_connector_name next ≡ base_connector_name name)
      × (sequence next ≡ sequence name + 1)
unfolding is_versioned_connector_name base_connector_name
next_versioned_connector_name_lem name h =
    let (digits, found, value) = match_version-next name h in
    (rw found, rw (found, base_connector_name), rw (found, sequence) value)

digits_on_one_line : (s : Text) → all is_digit s ≡ true → all no_newline (46 ∷ s) ≡ true
unfolding is_digit
digits_on_one_line [] h = refl
digits_on_one_line (c ∷ s) h = ground (arith, digits_on_one_line s)

IsName-next : (name : Text) → IsName name → IsName (next_versioned_connector_name name)
unfolding next_versioned_connector_name
IsName-next name h = elim (Option-cases (match_version name)) [
  | inl e ↦
      rw (e, next_versioned_connector_name)
        (record {
          on_one_line = all-append no_newline name _ h.on_one_line refl;
          not_empty = is_empty-append name 46 _;
        })
  | inr ((base, ds), e) ↦
      let (line, full, some_digits) = match_version_parts name base ds e in
      rw (e, next_versioned_connector_name)
        (record {
          on_one_line =
              all-append no_newline base _ line (digits_on_one_line _ (print_padded-digits _ _));
          not_empty = is_empty-append base 46 _;
        })
]

-- The name after `k` recreations in a row.
abbrev pub after : ℕ → Text → Text
after zero name = name
after (suc k) name = next_versioned_connector_name (after k name)

IsName-after : (k : ℕ) (name : Text) → IsName name → IsName (after k name)
IsName-after zero name h = h
IsName-after (suc k) name h = IsName-next (after k name) (IsName-after k name h)

sequence-after : (k : ℕ) (name : Text) → IsName name → sequence (after k name) ≡ sequence name + k
sequence-after zero name h = omega arith
sequence-after (suc k) name h = omega (
  arith,
  (next_versioned_connector_name_lem (after k name) (IsName-after k name h)).2,
  sequence-after k name h,
)

-- Recreations in a row never give a name twice.
pub after_injective : (name : Text) (j k : ℕ) → IsName name → after j name ≡ after k name → j ≡ k
after_injective name j k h e =
    omega (arith, sequence-after j name h, sequence-after k name h, ap sequence e)
