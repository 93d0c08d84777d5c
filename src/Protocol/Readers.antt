-- ===== src/Protocol/Readers.antt =====
-- guardian-network/src/shared/telegram-protocol.ts: readers of one, two and three fields.
use Prim.Native.String.{String}
use attested_capital.Base.{true, false, Option, some, [], ◌∷◌, ◌≡◌, refl, ap, ◌∙◌, not, and_intro}
use attested_capital.Protocol.Texts.{Text, codes, text_eq, is_plain}
use attested_capital.Protocol.Fields.{◌>>=◌, field, render, extract_field}
use attested_capital.Protocol.Lookup.{is_key, IsWritten, lacks, extract_field-render}

pub bind_some :
    {A B : Type 0} (f : A → Option B) (o : Option A) (a : A) → o ≡ some a → (o >>= f) ≡ f a
bind_some f o a h = ap (λ x. x >>= f) h

abbrev pub IsKey : String → Type 0
IsKey k = is_key (codes k) ≡ true

abbrev pub Differ : String → String → Type 0
Differ a b = text_eq (codes a) (codes b) ≡ false

lacks_one : (k l : String) (v : Text) → Differ l k → lacks (codes l) (field k v ∷ []) ≡ true
lacks_one k l v h = and_intro _ _ (ap not h) refl

module _ {A : Type 0} where
  pub one_field :
      (f : Text → Option A) (k : String) (v : Text)
      → IsKey k
      → is_plain v ≡ true
      → (extract_field (render (field k v ∷ [])) k >>= f) ≡ f v
  one_field f k v i p = bind_some f _ v (extract_field-render k [] v [] i (i, p, tt) refl p)

  pub two_fields :
      (f : Text → Text → Option A) (k l : String) (v w : Text)
      → IsKey k × IsKey l × Differ l k
      → is_plain v ≡ true
      → is_plain w ≡ true
      → (let rest = render (field k v ∷ field l w ∷ []) in
          extract_field rest k >>= (λ a. extract_field rest l >>= (λ b. f a b)))
        ≡ f v w
  two_fields f k l v w i p q =
      bind_some _ _ v (extract_field-render k [] v (field l w ∷ []) i.0 written refl p)
      ∙ bind_some (f v) _ w
          (extract_field-render l (field k v ∷ []) w [] i.1 written (lacks_one k l v i.2) q)
    where
      written : IsWritten (field k v ∷ field l w ∷ [])
      written = (i.0, p, (i.1, q, tt))

  pub three_fields :
      (f : Text → Text → Text → Option A) (k l m : String) (v w x : Text)
      → IsKey k × IsKey l × IsKey m × Differ l k × Differ m k × Differ m l
      → is_plain v ≡ true
      → is_plain w ≡ true
      → is_plain x ≡ true
      → (let rest = render (field k v ∷ field l w ∷ field m x ∷ []) in
          extract_field rest k
          >>= (λ a. extract_field rest l >>= (λ b. extract_field rest m >>= (λ c. f a b c))))
        ≡ f v w x
  three_fields f k l m v w x i p q r =
      bind_some _ _ v (extract_field-render k [] v (field l w ∷ field m x ∷ []) i.0 written refl p)
      ∙ bind_some _ _ w (
          extract_field-render l (field k v ∷ []) w (field m x ∷ []) i.1 written
            (lacks_one k l v i.3) q)
      ∙ bind_some (f v w) _ x (
          extract_field-render m (field k v ∷ field l w ∷ []) x [] i.2 written
            (and_intro _ _ (ap not i.4) (lacks_one l m w i.5)) r)
    where
      written : IsWritten (field k v ∷ field l w ∷ field m x ∷ [])
      written = (i.0, p, (i.1, q, (i.2, r, tt)))
