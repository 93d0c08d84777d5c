-- ===== src/Protocol/Lookup.antt =====
-- guardian-network/src/shared/telegram-protocol.ts: reading a field of a text that was written
-- field by field.
use Prim.Native.String.{String}
use attested_capital.Base.{
  ℕ, ◌==◌, Bool, true, false, ◌&&◌, not, Option, none, some, List, [], ◌∷◌, ◌++◌, if◌then◌else◌,
  ◌≡◌, refl, ap, sym, ◌∙◌, arith, ==→eq, and_left, and_right, false_of_not, if_true, if_false,
  and_left, and_right, false_of_not, if_true, if_false,
}
use attested_capital.Protocol.Texts.{
  Text, codes, is_space, text_eq, strip_prefix, has_no_space, is_plain, word,
}
use attested_capital.Protocol.Numbers.{Percent, read_percent}
use attested_capital.Protocol.Fields.{
  ◌>>=◌, first_some, render, read_here, scan, extract, unless_empty, read_word, extract_field,
  extract_percent_field,
}

-- No equals sign.
abbrev pub has_no_equals : Text → Bool
has_no_equals [] = true
has_no_equals (c ∷ s) = not (c == b'=') && has_no_equals s

abbrev pub is_key : Text → Bool
is_key k = has_no_space k && has_no_equals k

abbrev pub IsWritten : List (Text × Text) → Type 0
IsWritten [] = Unit
IsWritten ((k, v) ∷ rest) = (is_key k ≡ true) × (is_plain v ≡ true) × IsWritten rest

plain_no_space : (v : Text) → is_plain v ≡ true → has_no_space v ≡ true
plain_no_space [] h = refl
plain_no_space (c ∷ v) h = h

module _ {A : Type 0} (read : Text → Option A) (key : Text) where
  scan-append :
      (xs ys : Text) → has_no_space xs ≡ true → scan read key (xs ++ ys) ≡ scan read key ys
  scan-append [] ys h = refl
  scan-append (c ∷ xs) ys h =
      if_false _ _ (is_space c) (false_of_not _ (and_left _ _ h))
      ∙ scan-append xs ys (and_right _ _ h)

-- A key and the sign behind it are a prefix of a field with that key, and of no other.
strip_key :
    (key k rest : Text)
    → has_no_equals key ≡ true
    → has_no_equals k ≡ true
    → strip_prefix (key ++ b'=' ∷ []) (k ++ b'=' ∷ rest)
      ≡ (if text_eq key k then some rest else none)
strip_key [] [] rest h i = refl
strip_key [] (c ∷ k) rest h i = ground arith
strip_key (c ∷ key) [] rest h i = ground arith
strip_key (c ∷ key) (d ∷ k) rest h i =
    by_test (c == d) (strip_key key k rest (and_right _ _ h) (and_right _ _ i))
  where
    by_test :
        (b : Bool) {x : Option Text}
        → x ≡ (if text_eq key k then some rest else none)
        → (if b then x else none) ≡ (if b && text_eq key k then some rest else none)
    by_test true h = h
    by_test false h = refl

not_blank : (c : ℕ) → is_space c ≡ false → (c == b' ') ≡ false
not_blank c h = by_test _ refl
  where
    by_test : (b : Bool) → (c == b' ') ≡ b → b ≡ false
    by_test false e = refl
    by_test true e = sym (ap is_space (==→eq _ _ e)) ∙ h

strip_blank : (key t : Text) → is_key key ≡ true → strip_prefix (key ++ b'=' ∷ []) (b' ' ∷ t) ≡ none
strip_blank [] t h = refl
strip_blank (c ∷ key) t h =
    if_false _ _ _ (not_blank c (false_of_not _ (and_left _ _ (and_left _ _ h))))

strip_nothing : (key : Text) → strip_prefix (key ++ b'=' ∷ []) [] ≡ none
strip_nothing [] = refl
strip_nothing (c ∷ key) = refl

-- What is read of a field, where fields are written.
abbrev pub lookup : {A : Type 0} → (Text → Option A) → Text → List (Text × Text) → Option A
lookup read key [] = none
lookup read key ((k, v) ∷ rest) =
    first_some (if text_eq key k then read (v ++ render rest) else none) (lookup read key rest)

module _ {A : Type 0} (read : Text → Option A) (key : Text) (proper : is_key key ≡ true) where
  read_here-key :
      (k rest : Text)
      → has_no_equals k ≡ true
      → read_here read key (k ++ b'=' ∷ rest) ≡ (if text_eq key k then read rest else none)
  read_here-key k rest h =
      ap (λ o. o >>= read) (strip_key key k rest (and_right _ _ proper) h) ∙ by_test (text_eq key k)
    where
      by_test :
          (b : Bool) → ((if b then some rest else none) >>= read) ≡ (if b then read rest else none)
      by_test true = refl
      by_test false = refl

  scan-render :
      (fs : List (Text × Text)) → IsWritten fs → scan read key (render fs) ≡ lookup read key fs
  scan-render [] w = refl
  scan-render ((k, v) ∷ rest) w =
      ap (λ o. first_some o (scan read key (k ++ b'=' ∷ (v ++ render rest))))
        (read_here-key k (v ++ render rest) (and_right _ _ w.0))
      ∙ ap (first_some (if text_eq key k then read (v ++ render rest) else none)) (
          scan-append read key k (b'=' ∷ (v ++ render rest)) (and_left _ _ w.0)
          ∙ scan-append read key v (render rest) (plain_no_space v w.1)
          ∙ scan-render rest w.2)

  extract-render :
      (fs : List (Text × Text)) → IsWritten fs → extract read key (render fs) ≡ lookup read key fs
  extract-render [] w = ap (λ o. first_some (o >>= read) none) (strip_nothing key)
  extract-render ((k, v) ∷ rest) w =
      ap (λ o. first_some (o >>= read) (scan read key (render ((k, v) ∷ rest))))
        (strip_blank key _ proper)
      ∙ scan-render ((k, v) ∷ rest) w

-- A word ends where the next field begins.
word-render :
    (v : Text) (rest : List (Text × Text)) → has_no_space v ≡ true → word (v ++ render rest) ≡ v
word-render [] [] h = refl
word-render [] ((k, u) ∷ rest) h = refl
word-render (c ∷ v) rest h =
    if_false _ _ (is_space c) (false_of_not _ (and_left _ _ h))
    ∙ ap (◌∷◌ c) (word-render v rest (and_right _ _ h))

read_word-render :
    (v : Text) (rest : List (Text × Text))
    → is_plain v ≡ true
    → read_word (v ++ render rest) ≡ some v
read_word-render [] rest h = ground arith
read_word-render (c ∷ v) rest h = ap unless_empty (word-render (c ∷ v) rest h)

text_eq_refl : (t : Text) → text_eq t t ≡ true
text_eq_refl [] = refl
text_eq_refl (c ∷ t) = ground (arith, text_eq_refl t)

-- No field has the key.
abbrev pub lacks : Text → List (Text × Text) → Bool
lacks key [] = true
lacks key ((k, v) ∷ rest) = not (text_eq key k) && lacks key rest

module _ {A : Type 0} (read : Text → Option A) (key v : Text) (after : List (Text × Text)) where
  lookup-found :
      (a : A) (before : List (Text × Text))
      → lacks key before ≡ true
      → read (v ++ render after) ≡ some a
      → lookup read key (before ++ (key, v) ∷ after) ≡ some a
  lookup-found a [] l h =
      ap (λ o. first_some o (lookup read key after))
        (if_true _ _ (text_eq key key) (text_eq_refl key) ∙ h)
  lookup-found a ((k, u) ∷ before) l h =
      ap (λ o. first_some o (lookup read key (before ++ (key, v) ∷ after)))
        (if_false _ _ (text_eq key k) (false_of_not _ (and_left _ _ l)))
      ∙ lookup-found a before (and_right _ _ l) h

-- A field that was written is what is read under its key.
module _ (key : String) (before : List (Text × Text)) where
  pub extract_field-render :
      (v : Text) (after : List (Text × Text))
      → is_key (codes key) ≡ true
      → IsWritten (before ++ (codes key, v) ∷ after)
      → lacks (codes key) before ≡ true
      → is_plain v ≡ true
      → extract_field (render (before ++ (codes key, v) ∷ after)) key ≡ some v
  unfolding extract_field
  extract_field-render v after k w l h =
      extract-render read_word (codes key) k (before ++ (codes key, v) ∷ after) w
      ∙ lookup-found read_word (codes key) v after v before l (read_word-render v after h)

  pub extract_percent_field-render :
      (p : Percent) (v : Text) (after : List (Text × Text))
      → is_key (codes key) ≡ true
      → IsWritten (before ++ (codes key, v) ∷ after)
      → lacks (codes key) before ≡ true
      → read_percent (v ++ render after) ≡ some p
      → extract_percent_field (render (before ++ (codes key, v) ∷ after)) key ≡ some p
  unfolding extract_percent_field
  extract_percent_field-render p v after k w l h =
      extract-render read_percent (codes key) k (before ++ (codes key, v) ∷ after) w
      ∙ lookup-found read_percent (codes key) v after p before l h
