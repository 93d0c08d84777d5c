-- ===== src/Protocol/Trim.antt =====
-- guardian-network/src/shared/telegram-protocol.ts: a text that was written has no white space
-- around it.
use attested_capital.Base.{
  ℕ, Bool, true, false, List, [], ◌∷◌, ◌++◌, ◌≡◌, refl, ap, ◌∙◌, arith, and_left, and_right,
  false_of_not, if_false,
}
use attested_capital.Protocol.Texts.{Text, is_space, unless_blank, trim_end, has_no_space, is_plain}
use attested_capital.Protocol.Fields.{render}
use attested_capital.Protocol.Lookup.{IsWritten}

abbrev is_nonempty : Text → Bool
is_nonempty [] = false
is_nonempty (c ∷ t) = true

-- A text whose last character is none of white space.
abbrev Ends : Text → Type 0
Ends t = (is_nonempty t ≡ true) × (trim_end t ≡ t)

unless_blank-nonempty : (c : ℕ) (t : Text) → is_nonempty t ≡ true → unless_blank c t ≡ c ∷ t
unless_blank-nonempty c [] h = ground arith
unless_blank-nonempty c (d ∷ t) h = refl

Ends-cons : (c : ℕ) (t : Text) → Ends t → Ends (c ∷ t)
Ends-cons c t e = (refl, ap (unless_blank c) e.1 ∙ unless_blank-nonempty c t e.0)

Ends-append : (s t : Text) → Ends t → Ends (s ++ t)
Ends-append [] t e = e
Ends-append (c ∷ s) t e = Ends-cons c (s ++ t) (Ends-append s t e)

Ends-plain : (c : ℕ) (v : Text) → has_no_space (c ∷ v) ≡ true → Ends (c ∷ v ++ [])
Ends-plain c [] h = (refl, if_false _ _ (is_space c) (false_of_not _ (and_left _ _ h)))
Ends-plain c (d ∷ v) h = Ends-cons c (d ∷ v ++ []) (Ends-plain d v (and_right _ _ h))

Ends-value : (v : Text) → is_plain v ≡ true → Ends (v ++ [])
Ends-value [] h = ground arith
Ends-value (c ∷ v) h = Ends-plain c v h

Ends-render :
    (f : Text × Text) (rest : List (Text × Text)) → IsWritten (f ∷ rest) → Ends (render (f ∷ rest))
Ends-render (k, v) [] w = Ends-cons _ _ (Ends-append k _ (Ends-cons _ _ (Ends-value v w.1)))
Ends-render (k, v) (g ∷ rest) w =
    Ends-cons _ _ (Ends-append k _ (Ends-cons _ _ (Ends-append v _ (Ends-render g rest w.2))))

pub trim_end-render :
    (t : Text) (fs : List (Text × Text))
    → IsWritten fs
    → trim_end (t ++ []) ≡ t ++ []
    → trim_end (t ++ render fs) ≡ t ++ render fs
trim_end-render t [] w h = h
trim_end-render t (f ∷ rest) w h = (Ends-append t _ (Ends-render f rest w)).1
