-- ===== src/Prelude/Text.antt =====
-- What the code uses of Go's fmt, strconv and strings packages, over native texts. The texts are
-- those of the Kubernetes API, which are valid UTF-8; `len` and `slice` count bytes, as in Go.
use Prim.Native.Nat.{ℕ, zero, suc, ◌/◌, ◌%◌}
use Prim.Native.Char.{Char, code}
use Prim.Native.String.{String, [], ◌∷◌, ◌++◌}
use mathlib.Core.Path.{◌≡◌, refl}
use mathlib.Core.Bool.{◌||◌}
use mathlib.Core.List.{List}
use curity_operator.Prelude.Tests.{ltb, nat_eq, if◌then◌else◌}
use curity_operator.Prelude.Int.{ℤ, pos, negsuc}

-- The pieces of a `fmt.Sprintf` call, one after another.
abbrev pub sprint : List String → String
sprint List.[] = ""
sprint (List.◌∷◌ s rest) = s ++ sprint rest

-- `strings.Join`
abbrev pub join : List String → String → String
join List.[] sep = ""
join (List.◌∷◌ s List.[]) sep = s
join (List.◌∷◌ s (List.◌∷◌ t rest)) sep = s ++ (sep ++ join (List.◌∷◌ t rest) sep)

-- The decimal digit of a number below ten.
unfoldable pub digit : ℕ → String
digit zero = "0"
digit (suc zero) = "1"
digit (suc (suc zero)) = "2"
digit (suc (suc (suc zero))) = "3"
digit (suc (suc (suc (suc zero)))) = "4"
digit (suc (suc (suc (suc (suc zero))))) = "5"
digit (suc (suc (suc (suc (suc (suc zero)))))) = "6"
digit (suc (suc (suc (suc (suc (suc (suc zero))))))) = "7"
digit (suc (suc (suc (suc (suc (suc (suc (suc zero)))))))) = "8"
digit _ = "9"

-- The digits of a number, the most significant first, on fuel above the number.
unfoldable pub digits : ℕ → ℕ → String
unfolding digit
digits zero n = ""
digits (suc f) n =
    let more = digits f (n / 10) ++ digit (n % 10) in if ltb n 10 then digit n else more

-- `%d` of a number that is not negative
unfoldable pub format_nat : ℕ → String
unfolding digits
format_nat n = digits (suc n) n

-- `strconv.Itoa` and `%d`
unfoldable pub itoa : ℤ → String
unfolding format_nat
itoa (pos n) = format_nat n
itoa (negsuc n) = "-" ++ format_nat (suc n)

hex_digit : ℕ → String
unfolding digit
hex_digit n =
    if ltb n 10
    then digit n
    else if nat_eq n 10
    then "a"
    else if nat_eq n 11
    then "b"
    else if nat_eq n 12
    then "c"
    else if nat_eq n 13
    then "d"
    else if nat_eq n 14
    then "e"
    else "f"

-- One character of `%q`: the escapes of `strconv.Quote`, with every character above ASCII taken as
-- printable.
quote_char : Char → String
unfolding hex_digit
quote_char c =
    let n = code c in
    if nat_eq n b'"'
    then "\\\""
    else if nat_eq n b'\\'
    then "\\\\"
    else if nat_eq n 7
    then "\\a"
    else if nat_eq n 8
    then "\\b"
    else if nat_eq n 12
    then "\\f"
    else if nat_eq n 10
    then "\\n"
    else if nat_eq n 13
    then "\\r"
    else if nat_eq n 9
    then "\\t"
    else if nat_eq n 11
    then "\\v"
    else if ltb n 32 || nat_eq n 127
    then "\\x" ++ (hex_digit (n / 16) ++ hex_digit (n % 16))
    else c ∷ []

quote_all : String → String
unfolding quote_char
quote_all [] = []
quote_all (c ∷ s) = quote_char c ++ quote_all s

-- `%q`
unfoldable pub quote : String → String
unfolding quote_all
quote s = "\"" ++ (quote_all s ++ "\"")

quote_test : quote "a\"b" ≡ "\"a\\\"b\""
unfolding quote
quote_test = refl

itoa_test : itoa (pos 120) ≡ "120"
unfolding itoa
itoa_test = refl

itoa_negative_test : itoa (negsuc 6) ≡ "-7"
unfolding itoa
itoa_negative_test = refl
