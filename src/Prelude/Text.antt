-- ===== src/Prelude/Text.antt =====
-- Go strings: concatenation, and the functions of `strings` and `fmt` that the code calls.
use Prim.Native.Nat.{ℕ, zero, suc, ◌%◌, ◌/◌}
use Prim.Native.String
use Prim.Native.String.{String}
use mathlib.Core.Bool.{Bool, true}
use mathlib.Core.List.{List, [], ◌∷◌}
use text.Mathlib.Text.{◌==◌}
use chargeflow_registry.Prelude.Tests.{if◌then◌else◌, ltb, nat_eq}
use chargeflow_registry.Prelude.Int.{ℤ, pos, negsuc}

infixr 66 ◌<>◌
abbrev pub ◌<>◌ : String → String → String
a <> b = String.◌++◌ a b

-- strings.HasSuffix
unfoldable pub has_suffix : String → String → Bool
has_suffix String.[] suffix = "" == suffix
has_suffix (String.◌∷◌ c s) suffix = if String.◌∷◌ c s == suffix then true else has_suffix s suffix

-- strings.TrimSuffix
unfoldable pub trim_suffix : String → String → String
trim_suffix String.[] suffix = ""
trim_suffix (String.◌∷◌ c s) suffix =
    if String.◌∷◌ c s == suffix then "" else String.◌∷◌ c (trim_suffix s suffix)

-- strings.TrimPrefix(s, "/")
unfoldable pub trim_slash : String → String
trim_slash String.[] = ""
trim_slash (String.◌∷◌ c s) = if String.◌∷◌ c "" == "/" then s else String.◌∷◌ c s

abbrev push_front : String → List String → List String
push_front c [] = c ∷ []
push_front c (part ∷ parts) = (c <> part) ∷ parts

-- strings.SplitN(s, "/", 2)
unfoldable pub split_slash_2 : String → List String
split_slash_2 String.[] = "" ∷ []
split_slash_2 (String.◌∷◌ c s) =
    if String.◌∷◌ c "" == "/" then "" ∷ s ∷ [] else push_front (String.◌∷◌ c "") (split_slash_2 s)

abbrev digit : ℕ → String
digit d =
    if nat_eq d 0
    then "0"
    else if nat_eq d 1
    then "1"
    else if nat_eq d 2
    then "2"
    else if nat_eq d 3
    then "3"
    else if nat_eq d 4
    then "4"
    else if nat_eq d 5
    then "5"
    else if nat_eq d 6
    then "6"
    else if nat_eq d 7
    then "7"
    else if nat_eq d 8
    then "8"
    else "9"

digits : ℕ → ℕ → String → String
digits zero n acc = acc
digits (suc fuel) n acc =
    let text = digit (n % 10) <> acc in
    let rest = digits fuel (n / 10) text in if ltb n 10 then text else rest

-- `%d` of an int, which has at most 19 digits.
unfoldable pub decimal : ℤ → String
unfolding digits
decimal (pos n) = digits 20 n ""
decimal (negsuc n) = "-" <> digits 20 (suc n) ""
