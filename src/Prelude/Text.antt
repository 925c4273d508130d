-- ===== src/Prelude/Text.antt =====
-- C strings as lists of character codes (the terminating zero is left out), with the functions of
-- <string.h>, <strings.h> and <stdlib.h> that the program calls.
use Prim.Native.Nat.{ℕ, ◌+◌, ◌-◌, ◌*◌}
use Prim.Native.Char.{code}
use Prim.Native.String.{String}
use mathlib.Core.Path.{◌≡◌, refl}
use mathlib.Core.Bool.{Bool, true, false, ◌&&◌, ◌||◌}
use mathlib.Core.List.{List, [], ◌∷◌, ◌++◌, map}
use native.Mathlib.Omega.{arith}
use serial_proxy_c.Prelude.Tests.{leb, ◌==◌, if◌then◌else◌}
use serial_proxy_c.Prelude.Int.{ℤ, pos, neg_ℕ}

abbrev pub Text : Type 0
Text = List ℕ

abbrev pub codes : String → Text
codes String.[] = []
codes (String.◌∷◌ c s) = code c ∷ codes s

-- `strcmp(s, t) == 0`
unfoldable pub text_eq : Text → Text → Bool
text_eq [] [] = true
text_eq [] (d ∷ t) = false
text_eq (c ∷ s) [] = false
text_eq (c ∷ s) (d ∷ t) = (c == d) && text_eq s t

pub text_eq_refl : (s : Text) → text_eq s s ≡ true
unfolding text_eq
text_eq_refl [] = refl
text_eq_refl (c ∷ s) = ground (arith, text_eq_refl s)

pub eq_of_text_eq : (s t : Text) → text_eq s t ≡ true → s ≡ t
unfolding text_eq
eq_of_text_eq [] [] h = refl
eq_of_text_eq [] (d ∷ t) h = cc
eq_of_text_eq (c ∷ s) [] h = cc
eq_of_text_eq (c ∷ s) (d ∷ t) h = ground (arith, eq_of_text_eq s t)

-- `tolower` in the C locale
abbrev pub to_lower : ℕ → ℕ
to_lower c = if leb b'A' c && leb c b'Z' then c + 32 else c

-- `strcasecmp(s, t) == 0`
unfoldable pub case_eq : Text → Text → Bool
unfolding text_eq
case_eq s t = text_eq (map to_lower s) (map to_lower t)

abbrev pub is_space : ℕ → Bool
is_space c = (c == 32) || (leb 9 c && leb c 13)

abbrev pub is_digit : ℕ → Bool
is_digit c = leb b'0' c && leb c b'9'

-- The value of the leading digits of a text, behind what has been read.
unfoldable pub digits_value : ℕ → Text → ℕ
digits_value acc [] = acc
digits_value acc (c ∷ s) =
    let rest = digits_value (acc * 10 + (c - b'0')) s in if is_digit c then rest else acc

-- An optional sign, then digits.
unfoldable pub signed_value : Text → ℤ
unfolding digits_value
signed_value [] = pos 0
signed_value (c ∷ s) =
    if c == b'-'
    then neg_ℕ (digits_value 0 s)
    else if c == b'+'
    then pos (digits_value 0 s)
    else pos (digits_value 0 (c ∷ s))

-- `atoi`, before its result is held to the range of an `int`: white space, a sign, digits.
unfoldable pub atoi : Text → ℤ
unfolding signed_value
atoi [] = pos 0
atoi (c ∷ s) = let rest = atoi s in if is_space c then rest else signed_value (c ∷ s)

-- The tokens that repeated calls of `strtok(str, " ")` return: the runs of non-blanks, in order.
unfoldable pub tokens_from : Text → Text → List Text
tokens_from [] [] = []
tokens_from (c ∷ cur) [] = (c ∷ cur) ∷ []
tokens_from [] (b ∷ s) =
    let skip = tokens_from [] s in
    let begin = tokens_from (b ∷ []) s in if b == 32 then skip else begin
tokens_from (c ∷ cur) (b ∷ s) =
    let cut = (c ∷ cur) ∷ tokens_from [] s in
    let more = tokens_from ((c ∷ cur) ++ b ∷ []) s in if b == 32 then cut else more

unfoldable pub tokens : Text → List Text
unfolding tokens_from
tokens = tokens_from []
