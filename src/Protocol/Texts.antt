-- ===== src/Protocol/Texts.antt =====
-- The texts of the language that the protocol uses: white space, prefixes, `trim`.
use Prim.Native.Char.{code}
use Prim.Native.String.{String}
use attested_capital.Base.{
  ℕ, leb, ◌==◌, ◌&&◌, ◌||◌, not, Bool, true, false, Option, none, some, List, [], ◌∷◌,
  if◌then◌else◌, any,
}

abbrev pub Text : Type 0
Text = List ℕ

abbrev pub codes : String → Text
codes String.[] = []
codes (String.◌∷◌ c s) = code c ∷ codes s

-- `\s`, which is also what `trim` takes away.
abbrev pub is_space : ℕ → Bool
is_space c =
    (leb 9 c && leb c 13)
    || any (λ s. c == s)
        (32 ∷ 160 ∷ 5760 ∷ 8192 ∷ 8193 ∷ 8194 ∷ 8195 ∷ 8196 ∷ 8197 ∷ 8198 ∷ 8199 ∷ 8200 ∷ 8201
          ∷ 8202 ∷ 8232 ∷ 8233 ∷ 8239 ∷ 8287 ∷ 12288 ∷ 65279 ∷ [])

abbrev pub text_eq : Text → Text → Bool
text_eq [] [] = true
text_eq (a ∷ s) (b ∷ t) = a == b && text_eq s t
text_eq _ _ = false

-- What stands behind a prefix.
abbrev pub strip_prefix : Text → Text → Option Text
strip_prefix [] t = some t
strip_prefix (a ∷ s) [] = none
strip_prefix (a ∷ s) (b ∷ t) = if a == b then strip_prefix s t else none

abbrev pub trim_start : Text → Text
trim_start [] = []
trim_start (c ∷ s) = if is_space c then trim_start s else c ∷ s

abbrev pub unless_blank : ℕ → Text → Text
unless_blank c [] = if is_space c then [] else c ∷ []
unless_blank c (d ∷ s) = c ∷ d ∷ s

abbrev pub trim_end : Text → Text
trim_end [] = []
trim_end (c ∷ s) = unless_blank c (trim_end s)

unfoldable pub trim : Text → Text
trim t = trim_end (trim_start t)

-- No white space, and something.
abbrev pub has_no_space : Text → Bool
has_no_space [] = true
has_no_space (c ∷ s) = not (is_space c) && has_no_space s

abbrev pub is_plain : Text → Bool
is_plain [] = false
is_plain (c ∷ s) = not (is_space c) && has_no_space s

-- The text up to white space.
abbrev pub word : Text → Text
word [] = []
word (c ∷ s) = if is_space c then [] else c ∷ word s
