-- ===== src/Protocol/Decimals.antt =====
-- guardian-network/src/shared/telegram-protocol.ts: numbers and percentages, written and read.
use mathlib.Core.List.{append_assoc}
use attested_capital.Base.{
  ℕ, zero, suc, ◌+◌, ◌-◌, ◌*◌, ◌/◌, ◌%◌, ◌<◌, ltb, Bool, true, false, ◌&&◌, not, some, [], ◌∷◌,
  ◌++◌, if◌then◌else◌, ◌≡◌, refl, ap, ◌∙◌, arith, and_left, and_right, and_intro, if_true, if_false,
}
use attested_capital.Protocol.Texts.{Text, is_space, has_no_space, is_plain, text_eq}
use attested_capital.Protocol.Numbers.{
  natural, number_of, number_text, read_whole, read_fraction, read_decimals, is_digit, all_digits,
  digits, nat_text, value, Percent, digits_of, strip_zeros, fraction_text, percent_text,
  read_percent,
}

value-append :
    (acc : ℕ) (s : Text) (c : ℕ) → value acc (s ++ c ∷ []) ≡ value acc s * 10 + (c - b'0')
unfolding value
value-append acc [] c = refl
value-append acc (d ∷ s) c = value-append (acc * 10 + (d - b'0')) s c

value-digits : (fuel n : ℕ) → n < fuel → value 0 (digits fuel n) ≡ n
unfolding value digits
value-digits zero n h = omega arith
value-digits (suc fuel) n h =
    value-append 0 (if ltb n 10 then [] else digits fuel (n / 10)) (b'0' + n % 10)
    ∙ by_test (ltb n 10) refl (value-digits fuel (n / 10))
  where
    by_test :
        (b : Bool)
        → ltb n 10 ≡ b
        → (n / 10 < fuel → value 0 (digits fuel (n / 10)) ≡ n / 10)
        → value 0 (if b then [] else digits fuel (n / 10)) * 10 + (b'0' + n % 10 - b'0') ≡ n
    by_test true e ih = ground arith
    by_test false e ih = grind (arith, ih)

pub value-nat_text : (n : ℕ) → value 0 (nat_text n) ≡ n
unfolding nat_text
value-nat_text n = value-digits (suc n) n (omega arith)

all_digits-append :
    (s t : Text) → all_digits s ≡ true → all_digits t ≡ true → all_digits (s ++ t) ≡ true
all_digits-append [] t h i = i
all_digits-append (c ∷ s) t h i =
    and_intro _ _ (and_left _ _ h) (all_digits-append s t (and_right _ _ h) i)

is_digit-mod : (n : ℕ) → is_digit (b'0' + n % 10) ≡ true
is_digit-mod n = ground arith

all_digits-digits : (fuel n : ℕ) → all_digits (digits fuel n) ≡ true
unfolding digits
all_digits-digits zero n = refl
all_digits-digits (suc fuel) n =
    all_digits-append (if ltb n 10 then [] else digits fuel (n / 10)) _
      (by_test (ltb n 10) (all_digits-digits fuel (n / 10))) (and_intro _ _ (is_digit-mod n) refl)
  where
    by_test :
        (b : Bool)
        → all_digits (digits fuel (n / 10)) ≡ true
        → all_digits (if b then [] else digits fuel (n / 10)) ≡ true
    by_test true h = refl
    by_test false h = h

digit_no_space : (c : ℕ) → is_digit c ≡ true → is_space c ≡ false
digit_no_space c h = ground arith

digits_no_space : (s : Text) → all_digits s ≡ true → has_no_space s ≡ true
digits_no_space [] h = refl
digits_no_space (c ∷ s) h =
    and_intro _ _ (ap not (digit_no_space c (and_left _ _ h))) (digits_no_space s (and_right _ _ h))

snoc_plain : (s : Text) (c : ℕ) → has_no_space (s ++ c ∷ []) ≡ true → is_plain (s ++ c ∷ []) ≡ true
snoc_plain [] c h = h
snoc_plain (d ∷ s) c h = h

pub nat_text-all_digits : (n : ℕ) → all_digits (nat_text n) ≡ true
unfolding nat_text
nat_text-all_digits n = all_digits-digits (suc n) n

pub nat_text-plain : (n : ℕ) → is_plain (nat_text n) ≡ true
unfolding nat_text digits
nat_text-plain n =
    snoc_plain (if ltb n 10 then [] else digits n (n / 10)) (b'0' + n % 10)
      (digits_no_space (digits (suc n) n) (all_digits-digits (suc n) n))

pub number_of-number_text : (n : ℕ) → number_of (number_text (natural n)) ≡ natural n
unfolding number_of number_text
number_of-number_text n = if_true _ _ _ (nat_text-all_digits n) ∙ ap natural (value-nat_text n)

digits_of-append :
    (s : Text) (c : ℕ) (t : Text)
    → all_digits s ≡ true
    → is_digit c ≡ false
    → digits_of (s ++ c ∷ t) ≡ (s, c ∷ t)
digits_of-append [] c t h i = if_false _ _ _ i
digits_of-append (d ∷ s) c t h i =
    if_true _ ([], d ∷ (s ++ c ∷ t)) (is_digit d) (and_left _ (all_digits s) h)
    ∙ ap (λ r. (d ∷ r.0, r.1)) (digits_of-append s c t (and_right _ _ h) i)

read_whole-plain : (w rest : Text) → is_plain w ≡ true → read_whole (w, rest) ≡ read_fraction w rest
read_whole-plain [] rest h = ground arith
read_whole-plain (c ∷ w) rest h = refl

text_eq→eq : (s t : Text) → text_eq s t ≡ true → s ≡ t
text_eq→eq [] [] h = refl
text_eq→eq [] (d ∷ t) h = ground arith
text_eq→eq (c ∷ s) [] h = ground arith
text_eq→eq (c ∷ s) (d ∷ t) h = grind (arith, text_eq→eq s t)

-- Digits behind the point, the last of which is not zero.
abbrev pub is_canonical : Percent → Bool
is_canonical p = all_digits p.fraction && text_eq (strip_zeros p.fraction) p.fraction

-- `percent_text`, and more.
abbrev percent_then : Percent → Text → Text
percent_then p rest = nat_text p.whole ++ (fraction_text p.fraction ++ b'%' ∷ rest)

read_fraction-text :
    (w f rest : Text)
    → all_digits f ≡ true
    → strip_zeros f ≡ f
    → read_fraction w (fraction_text f ++ b'%' ∷ rest)
      ≡ some (record { whole = value 0 w; fraction = f })
read_fraction-text w [] rest d h = refl
read_fraction-text w (c ∷ f) rest d h =
    ap (read_decimals w) (digits_of-append (c ∷ f) b'%' rest d refl)
    ∙ ap (λ g. some (record { whole = value 0 w; fraction = g })) h

pub read_percent-then :
    (p : Percent) (rest : Text)
    → is_canonical p ≡ true
    → read_percent (percent_then p rest) ≡ some p
unfolding read_percent
read_percent-then p rest h =
    ap read_whole (by_fraction p.fraction)
    ∙ read_whole-plain (nat_text p.whole) _ (nat_text-plain p.whole)
    ∙ read_fraction-text (nat_text p.whole) p.fraction rest (and_left _ _ h)
        (text_eq→eq _ _ (and_right _ _ h))
    ∙ ap (λ n. some (record { whole = n; fraction = p.fraction })) (value-nat_text p.whole)
  where
    by_fraction :
        (f : Text)
        → digits_of (nat_text p.whole ++ (fraction_text f ++ b'%' ∷ rest))
          ≡ (nat_text p.whole, fraction_text f ++ b'%' ∷ rest)
    by_fraction [] = digits_of-append _ b'%' rest (nat_text-all_digits p.whole) refl
    by_fraction (c ∷ f) =
        digits_of-append _ b'.' (c ∷ (f ++ b'%' ∷ rest)) (nat_text-all_digits p.whole) refl

percent_text-append : (p : Percent) (rest : Text) → percent_text p ++ rest ≡ percent_then p rest
unfolding percent_text
percent_text-append p rest = simp (append_assoc)

pub read_percent-percent_text :
    (p : Percent) (rest : Text)
    → is_canonical p ≡ true
    → read_percent (percent_text p ++ rest) ≡ some p
read_percent-percent_text p rest h =
    ap read_percent (percent_text-append p rest) ∙ read_percent-then p rest h

no_space-append :
    (s t : Text) → has_no_space s ≡ true → has_no_space t ≡ true → has_no_space (s ++ t) ≡ true
no_space-append [] t h i = i
no_space-append (c ∷ s) t h i =
    and_intro _ _ (and_left _ _ h) (no_space-append s t (and_right _ _ h) i)

plain-append : (s t : Text) → is_plain s ≡ true → has_no_space t ≡ true → is_plain (s ++ t) ≡ true
plain-append [] t h i = ground arith
plain-append (c ∷ s) t h i = no_space-append (c ∷ s) t h i

fraction_no_space : (f : Text) → all_digits f ≡ true → has_no_space (fraction_text f) ≡ true
fraction_no_space [] h = refl
fraction_no_space (c ∷ f) h = digits_no_space (c ∷ f) h

pub percent_text-plain : (p : Percent) → is_canonical p ≡ true → is_plain (percent_text p) ≡ true
unfolding percent_text
percent_text-plain p h =
    plain-append (nat_text p.whole ++ fraction_text p.fraction) (b'%' ∷ [])
      (plain-append (nat_text p.whole) (fraction_text p.fraction) (nat_text-plain p.whole)
        (fraction_no_space p.fraction (and_left _ _ h)))
      refl
