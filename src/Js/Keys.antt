-- ===== src/Js/Keys.antt =====
-- An array of two ids as a property key: `[a, b].toString()`, `key.split(",")`, and the object
-- that is used as a dictionary under such keys.
use scale_out_distributed_le.Common.{
  ℕ, ◌≡◌, ◌≢◌, ◌↔◌, refl, sym, ap, Bool, true, false, ◌&&◌, List, [], ◌∷◌, ◌++◌, arith, ◌==◌,
  if◌then◌else◌, All,
}
use scale_out_distributed_le.Js.{Field, undefined, value}
use scale_out_distributed_le.Js.Decimal.{
  Text, comma, IsDigit, to_string, to_string-IsDigit, to_string-injective, to_string-ne-nil,
}

-- The text of an element of a joined array: undefined and null give the empty one.
abbrev pub part : Field → Text
part undefined = []
part Field.null = []
part (value n) = to_string n

-- `[s, t].toString()`
unfoldable pub join : Text → Text → Text
join s t = s ++ comma ∷ t

push_front : ℕ → List Text → List Text
push_front c [] = (c ∷ []) ∷ []
push_front c (s ∷ ss) = (c ∷ s) ∷ ss

-- `s.split(",")`
unfoldable pub split : Text → List Text
unfolding push_front
split [] = [] ∷ []
split (c ∷ s) = let rest = split s in if c == comma then [] ∷ rest else push_front c rest

unfoldable pub text_eq : Text → Text → Bool
text_eq [] [] = true
text_eq (c ∷ s) (d ∷ t) = c == d && text_eq s t
text_eq _ _ = false

pub text_eq_iff : (s t : Text) → (text_eq s t ≡ true) ↔ (s ≡ t)
unfolding text_eq
text_eq_iff [] [] = ((λ _. refl), (λ _. refl))
text_eq_iff [] (d ∷ t) = ground arith
text_eq_iff (c ∷ s) [] = ground arith
text_eq_iff (c ∷ s) (d ∷ t) = ground (arith, text_eq_iff s t)

abbrev pub NoComma : Text → Type 0
NoComma = All (λ c. c ≢ comma)

digits-NoComma : (s : Text) → All IsDigit s → NoComma s
digits-NoComma [] h = tt
digits-NoComma (c ∷ s) h = (omega arith, digits-NoComma s h.1)

pub part-NoComma : (f : Field) → NoComma (part f)
part-NoComma undefined = tt
part-NoComma Field.null = tt
part-NoComma (value n) = digits-NoComma (to_string n) (to_string-IsDigit n)

split_plain : (s : Text) → NoComma s → split s ≡ s ∷ []
unfolding split
split_plain [] h = refl
split_plain (c ∷ s) h = ground (arith, split_plain s h.1)

-- Splitting a joined key gives back the two texts.
pub split-join : (s t : Text) → NoComma s → NoComma t → split (join s t) ≡ s ∷ t ∷ []
unfolding split join
split-join [] t h k = ground (arith, split_plain t k)
split-join (c ∷ s) t h k = ground (arith, split-join s t h.1 k)

pub part-injective : (f : Field) (n : ℕ) → part f ≡ to_string n → f ≡ value n
part-injective undefined n h = absurd (to_string-ne-nil n (sym h))
part-injective Field.null n h = absurd (to_string-ne-nil n (sym h))
part-injective (value m) n h = ap value (to_string-injective m n h)
