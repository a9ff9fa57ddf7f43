-- ===== src/Tests/Tokens.antt =====
-- A codec of page tokens: a number is spelled by as many letters, and ended by a comma.
use chargeflow_registry.Prelude.{
  ℕ, zero, suc, String, Option, none, some, List, [], ◌∷◌, false, ◌==◌, if◌then◌else◌, ◌≡◌, refl,
  Bool-cases, inl, inr, eq_iff,
}
use Prim.Native.Char.{Char}
use chargeflow_registry.Pagination.Token.{Codec}
use chargeflow_registry.Pagination.RoundTrip.{IsCodec}

unfoldable pub spell : ℕ → String → String
spell zero rest = String.◌∷◌ "," rest
spell (suc n) rest = String.◌∷◌ "x" (spell n rest)

unfoldable pub spell_all : List ℕ → String
unfolding spell
spell_all [] = String.◌∷◌ "." ""
spell_all (n ∷ ns) = spell n (spell_all ns)

abbrev pub more : Option (List ℕ) → Option (List ℕ)
more none = none
more (some []) = none
more (some (n ∷ ns)) = some (suc n ∷ ns)

abbrev pub ended : Option (List ℕ) → Option (List ℕ)
ended none = none
ended (some ns) = some (0 ∷ ns)

unfoldable pub read_letters : String → Option (List ℕ)
read_letters String.[] = none
read_letters (String.◌∷◌ c s) =
    if String.◌∷◌ c "" == "."
    then some []
    else if String.◌∷◌ c "" == ","
    then ended (read_letters s)
    else more (read_letters s)

read-spell :
    (n : ℕ) (rest : String) (ns : List ℕ)
    → read_letters rest ≡ some ns
    → read_letters (spell n rest) ≡ some (n ∷ ns)
unfolding spell read_letters
read-spell zero rest ns h = rw h refl
read-spell (suc n) rest ns h = rw (read-spell n rest ns h) refl

read-spell_all : (ns : List ℕ) → read_letters (spell_all ns) ≡ some ns
unfolding spell_all read_letters
read-spell_all [] = refl
read-spell_all (n ∷ ns) = read-spell n (spell_all ns) ns (read-spell_all ns)

cons-not_empty : (c : Char) (s : String) → (String.◌∷◌ c s == "") ≡ false
cons-not_empty c s = elim (Bool-cases (String.◌∷◌ c s == "")) [
  | inr differ ↦ differ
  | inl same ↦ absurd (cc ((eq_iff (String.◌∷◌ c s) "").0 same))
]

spell-not_empty : (n : ℕ) (rest : String) → (spell n rest == "") ≡ false
unfolding spell
spell-not_empty zero rest = cons-not_empty "," rest
spell-not_empty (suc n) rest = cons-not_empty "x" (spell n rest)

abbrev pub head : List ℕ → Option ℕ
head [] = none
head (n ∷ ns) = some n

unfoldable pub letters : Codec
unfolding spell_all read_letters
letters = record {
  encode = spell_all;
  decode = read_letters;
  marshal = λ n. n ∷ [];
  unmarshal = head;
}

pub letters-IsCodec : IsCodec letters
unfolding letters spell_all
letters-IsCodec = record {
  decode-encode = read-spell_all;
  unmarshal-marshal = λ n h. refl;
  token-not_empty = λ n. spell-not_empty n (spell_all []);
}
