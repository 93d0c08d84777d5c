-- ===== src/Protocol/Fields.antt =====
-- guardian-network/src/shared/telegram-protocol.ts: `extractField` and `extractPercentField`.
use Prim.Native.String.{String}
use attested_capital.Base.{Option, none, some, List, [], ◌∷◌, ◌++◌, if◌then◌else◌}
use attested_capital.Protocol.Texts.{Text, codes, is_space, strip_prefix, word}
use attested_capital.Protocol.Numbers.{Percent, read_percent}

infixl 5 ◌>>=◌
abbrev pub ◌>>=◌ : {A B : Type 0} → Option A → (A → Option B) → Option B
none >>= f = none
some a >>= f = f a

abbrev pub first_some : {A : Type 0} → Option A → Option A → Option A
first_some none d = d
first_some (some a) d = some a

abbrev pub field : String → Text → Text × Text
field key value = (codes key, value)

-- ` key=value` for each field.
abbrev pub render : List (Text × Text) → Text
render [] = []
render ((key, value) ∷ rest) = b' ' ∷ (key ++ (b'=' ∷ (value ++ render rest)))

-- `key=`, and what is read of the text behind it.
abbrev pub read_here : {A : Type 0} → (Text → Option A) → Text → Text → Option A
read_here read key t = strip_prefix (key ++ b'=' ∷ []) t >>= read

-- The first match of `\skey=…`
abbrev pub scan : {A : Type 0} → (Text → Option A) → Text → Text → Option A
scan read key [] = none
scan read key (c ∷ rest) =
    let later = scan read key rest in
    if is_space c then first_some (read_here read key rest) later else later

-- The first match of `(?:^|\s)key=…`
abbrev pub extract : {A : Type 0} → (Text → Option A) → Text → Text → Option A
extract read key t = first_some (read_here read key t) (scan read key t)

-- `(\S+)`
abbrev pub unless_empty : Text → Option Text
unless_empty [] = none
unless_empty (c ∷ s) = some (c ∷ s)

abbrev pub read_word : Text → Option Text
read_word t = unless_empty (word t)

unfoldable pub extract_field : Text → String → Option Text
extract_field t key = extract read_word (codes key) t

unfoldable pub extract_percent_field : Text → String → Option Percent
extract_percent_field t key = extract read_percent (codes key) t
