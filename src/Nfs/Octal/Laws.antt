-- ===== src/Nfs/Octal/Laws.antt =====
-- The octal numbers that `_chr_encode` of targetd/nfs.py reads back.
use targetd.Prelude.{
  ◌≡◌, refl, ap, ◌∙◌, arith, ℕ, ◌+◌, ◌/◌, ◌%◌, ◌<◌, Bool, true, false, not, ◌&&◌, ◌==◌, ==_iff,
  ==_refl, Text, List, [], ◌∷◌, map, filter, has_code, if◌then◌else◌, Bool-cases, inl, inr,
}
use targetd.Nfs.Octal.{Octal, is_escape, octals, chr_of, replace_octal, replace_all, chr_encode}

-- The code in three octal digits.
abbrev pub octal : ℕ → Octal
octal c = record { high = 48 + c / 64; middle = 48 + c / 8 % 8; low = 48 + c % 8 }

-- A text with the special codes as numbers, as exportfs writes it.
abbrev pub escape : (ℕ → Bool) → Text → Text
escape special [] = []
escape special (c ∷ s) =
    if special c
    then b'\\' ∷ (octal c).high ∷ (octal c).middle ∷ (octal c).low ∷ escape special s
    else c ∷ escape special s

-- What can be written so: no backslash, and special codes of three octal digits.
abbrev pub IsPlain : (ℕ → Bool) → Text → Type 0
IsPlain special [] = Unit {0}
IsPlain special (c ∷ s) = (c ≡ b'\\' → ⊥) × (special c ≡ true → c < 512) × IsPlain special s

chr_of-octal : (c : ℕ) → c < 512 → chr_of (octal c) ≡ c
unfolding chr_of
chr_of-octal c h = omega arith

octals_skip : (c : ℕ) (t : Text) → (c ≡ b'\\' → ⊥) → octals (c ∷ t) ≡ octals t
unfolding octals
octals_skip c [] h = refl
octals_skip c (d ∷ []) h = refl
octals_skip c (d ∷ e ∷ []) h = refl
octals_skip c (d ∷ e ∷ f ∷ s) h = ground (arith, ==_iff c b'\\')

replace_octal_skip :
    (o : Octal) (v c : ℕ) (t : Text)
    → (c ≡ b'\\' → ⊥)
    → replace_octal o v (c ∷ t) ≡ c ∷ replace_octal o v t
unfolding replace_octal
replace_octal_skip o v c [] h = refl
replace_octal_skip o v c (d ∷ []) h = refl
replace_octal_skip o v c (d ∷ e ∷ []) h = refl
replace_octal_skip o v c (d ∷ e ∷ f ∷ s) h = ground (arith, ==_iff c b'\\')

octals_number :
    (c : ℕ) (t : Text)
    → c < 512
    → octals (b'\\' ∷ (octal c).high ∷ (octal c).middle ∷ (octal c).low ∷ t) ≡ octal c ∷ octals t
unfolding octals
octals_number c t h = ground arith

octals-escape :
    (special : ℕ → Bool) (s : Text)
    → IsPlain special s
    → octals (escape special s) ≡ map octal (filter special s)
unfolding octals
octals-escape special [] h = refl
octals-escape special (c ∷ s) (plain, small, rest) = elim (Bool-cases (special c)) [
  | inl e ↦ rw e (
      octals_number c (escape special s) (small e)
      ∙ ap (λ os. octal c ∷ os) (octals-escape special s rest))
  | inr e ↦ rw e (octals_skip c (escape special s) plain ∙ octals-escape special s rest)
]

-- The special codes but one.
abbrev without : ℕ → (ℕ → Bool) → ℕ → Bool
without c special d = special d && not (d == c)

same_digits :
    (c d : ℕ) → is_escape (octal c) b'\\' (octal d).high (octal d).middle (octal d).low ≡ (d == c)
same_digits c d = elim (Bool-cases (d == c)) [
  | inl same ↦ ground (arith, same)
  | inr other ↦ ground (arith, other, differ)
]
  where
    differ :
        48 + d / 64 ≡ 48 + c / 64
        → 48 + d / 8 % 8 ≡ 48 + c / 8 % 8
        → 48 + d % 8 ≡ 48 + c % 8
        → d ≡ c
    differ a b e = omega arith

replace_octal_number :
    (c d : ℕ) (t : Text)
    → d < 512
    → replace_octal (octal c) c (b'\\' ∷ (octal d).high ∷ (octal d).middle ∷ (octal d).low ∷ t) ≡ (
        if d == c
        then c ∷ replace_octal (octal c) c t
        else b'\\'
          ∷ (octal d).high
          ∷ (octal d).middle
          ∷ (octal d).low
          ∷ replace_octal (octal c) c t)
unfolding replace_octal
replace_octal_number c d t hd = rw (same_digits c d, replace_octal) (by_test (d == c))
  where
    digits :
        replace_octal (octal c) c ((octal d).high ∷ (octal d).middle ∷ (octal d).low ∷ t)
        ≡ (octal d).high ∷ (octal d).middle ∷ (octal d).low ∷ replace_octal (octal c) c t
    digits =
        replace_octal_skip (octal c) c (octal d).high ((octal d).middle ∷ (octal d).low ∷ t)
          (λ e. omega arith)
        ∙ ap (λ u. (octal d).high ∷ u)
            (replace_octal_skip (octal c) c (octal d).middle ((octal d).low ∷ t) (λ e. omega arith)
              ∙ ap (λ u. (octal d).middle ∷ u)
                  (replace_octal_skip (octal c) c (octal d).low t (λ e. omega arith)))

    by_test :
        (b : Bool)
        → elim b as (λ _. Text) [
          | true ↦ c ∷ replace_octal (octal c) c t
          | false ↦
              b'\\'
              ∷ replace_octal (octal c) c ((octal d).high ∷ (octal d).middle ∷ (octal d).low ∷ t)
        ]
          ≡ (if b
              then c ∷ replace_octal (octal c) c t
              else b'\\'
                ∷ (octal d).high
                ∷ (octal d).middle
                ∷ (octal d).low
                ∷ replace_octal (octal c) c t)
    by_test true = refl
    by_test false = ap (λ u. b'\\' ∷ u) digits

-- One replacement takes one code off the special ones.
replace_octal-escape :
    (c : ℕ) (special : ℕ → Bool) (s : Text)
    → IsPlain special s
    → replace_octal (octal c) c (escape special s) ≡ escape (without c special) s
replace_octal-escape c special [] h = unfold replace_octal in refl
replace_octal-escape c special (d ∷ s) (plain, small, rest) = ground (
  arith,
  ==_iff d c,
  replace_octal_skip (octal c) c d (escape special s) plain,
  replace_octal_number c d (escape special s),
  replace_octal-escape c special s rest,
)

without-IsPlain :
    (c : ℕ) (special : ℕ → Bool) (s : Text) → IsPlain special s → IsPlain (without c special) s
without-IsPlain c special [] h = tt
without-IsPlain c special (d ∷ s) (plain, small, rest) =
    (plain, (λ e. small (ground (arith, e))), without-IsPlain c special s rest)

-- The special codes but those of a list.
abbrev but : List ℕ → (ℕ → Bool) → ℕ → Bool
but [] special = special
but (c ∷ cs) special = but cs (without c special)

but-false :
    (cs : List ℕ) (special : ℕ → Bool) (d : ℕ) → special d ≡ false → but cs special d ≡ false
but-false [] special d h = h
but-false (c ∷ cs) special d h = but-false cs (without c special) d (ground (arith, h))

but-has_code :
    (cs : List ℕ) (special : ℕ → Bool) (d : ℕ) → has_code d cs ≡ true → but cs special d ≡ false
but-has_code [] special d h = cc
but-has_code (c ∷ cs) special d h = elim (Bool-cases (d == c)) [
  | inl same ↦ but-false cs (without c special) d (ground (arith, same))
  | inr other ↦
      but-has_code cs (without c special) d (ground (arith, other, h, ==_iff d c, ==_iff c d))
]

abbrev AreSmall : List ℕ → Type 0
AreSmall [] = Unit {0}
AreSmall (c ∷ cs) = (c < 512) × AreSmall cs

filter-AreSmall : (special : ℕ → Bool) (s : Text) → IsPlain special s → AreSmall (filter special s)
filter-AreSmall special [] h = tt
filter-AreSmall special (c ∷ s) (plain, small, rest) = elim (Bool-cases (special c)) [
  | inl e ↦ rw e (small e, filter-AreSmall special s rest)
  | inr e ↦ rw e (filter-AreSmall special s rest)
]

replace_all-escape :
    (cs : List ℕ) (special : ℕ → Bool) (s : Text)
    → AreSmall cs
    → IsPlain special s
    → replace_all (map octal cs) (escape special s) ≡ escape (but cs special) s
unfolding replace_all
replace_all-escape [] special s small h = refl
replace_all-escape (c ∷ cs) special s (first, small) h =
    ap (λ v. replace_all (map octal cs) (replace_octal (octal c) v (escape special s)))
      (chr_of-octal c first)
    ∙ (ap (replace_all (map octal cs)) (replace_octal-escape c special s h)
        ∙ replace_all-escape cs (without c special) s small (without-IsPlain c special s h))

-- Nothing is left to write as a number.
escape_clear :
    (cs : List ℕ) (special : ℕ → Bool) (s : Text)
    → ((d : ℕ) → has_code d (filter special s) ≡ true → has_code d cs ≡ true)
    → escape (but cs special) s ≡ s
escape_clear cs special [] h = refl
escape_clear cs special (c ∷ s) h = elim (Bool-cases (special c)) [
  | inr e ↦
      rw (but-false cs special c e)
        (ap (λ t. c ∷ t) (escape_clear cs special s (λ d m. h d (rw e m))))
  | inl e ↦
      rw (but-has_code cs special c (h c (rw e (ground (arith, ==_refl c)))))
        (ap (λ t. c ∷ t) (escape_clear cs special s (λ d m. h d (rw e (ground (arith, m))))))
]

-- `_chr_encode` reads back a text without a backslash in which special codes of up to three octal
-- digits are written as octal numbers, whichever codes are special.
pub chr_encode-escape :
    (special : ℕ → Bool) (s : Text) → IsPlain special s → chr_encode (escape special s) ≡ s
unfolding chr_encode
chr_encode-escape special s h =
    ap (λ os. replace_all os (escape special s)) (octals-escape special s h)
    ∙ (replace_all-escape (filter special s) special s (filter-AreSmall special s h) h
        ∙ escape_clear (filter special s) special s (λ d m. m))
