-- ===== src/Prelude/Text.antt =====
-- Functions of package strings over texts.
use Prim.Native.Nat.{ℕ, zero, suc, ◌+◌}
use Prim.Native.Char.{Char, code}
use Prim.Native.String.{String, compare, ◌++◌}
use mathlib.Core.Option.{Option, none, some}
use mathlib.Core.List.{List, [], ◌∷◌, map}
use mathlib.Core.Bool.{Bool, true, false, ◌||◌, ◌&&◌}
use modular_monolith.Prelude.Tests.{leb, nat_beq, if◌then◌else◌}
use text.Mathlib.Text.{◌==◌, is_le}

-- `unicode.IsSpace`, on a code point.
is_space : ℕ → Bool
is_space c =
    (leb 9 c && leb c 13)
    || nat_beq c 0x20
    || nat_beq c 0x85
    || nat_beq c 0xa0
    || nat_beq c 0x1680
    || (leb 0x2000 c && leb c 0x200a)
    || nat_beq c 0x2028
    || nat_beq c 0x2029
    || nat_beq c 0x202f
    || nat_beq c 0x205f
    || nat_beq c 0x3000

trim_left : String → String
unfolding is_space
trim_left String.[] = String.[]
trim_left (String.◌∷◌ c s) =
    let rest = trim_left s in if is_space (code c) then rest else String.◌∷◌ c s

trim_right : String → String
unfolding is_space
trim_right String.[] = String.[]
trim_right (String.◌∷◌ c s) =
    let rest = trim_right s in if is_space (code c) && rest == "" then "" else String.◌∷◌ c rest

unfoldable pub trim_space : String → String
unfolding trim_left trim_right
trim_space s = trim_right (trim_left s)

abbrev pub codes : String → List ℕ
codes String.[] = []
codes (String.◌∷◌ c s) = code c ∷ codes s

-- `unicode.ToLower` where it can change whether a text holds one of the ASCII words below: outside
-- ASCII only U+0130 has one of their letters, the i, as its lower case.
abbrev lower : ℕ → ℕ
lower c = if leb b'A' c && leb c b'Z' then c + 32 else if nat_beq c 0x130 then b'i' else c

begins : List ℕ → List ℕ → Bool
begins [] s = true
begins (c ∷ word) [] = false
begins (c ∷ word) (d ∷ s) = nat_beq c d && begins word s

holds : List ℕ → List ℕ → Bool
unfolding begins
holds word [] = begins word []
holds word (d ∷ s) = begins word (d ∷ s) || holds word s

-- `strings.Contains(strings.ToLower(text), word)`, for the words "org", "organization" and "role".
unfoldable pub mentions : String → String → Bool
unfolding holds
mentions word text = holds (codes word) (map lower (codes text))

-- The order of `sort.Strings`, by bytes.
abbrev pub text_le : String → String → Bool
text_le s t = is_le (compare s t)

-- `strings.Contains`
unfoldable pub contains_text : String → String → Bool
unfolding holds
contains_text text word = holds (codes word) (codes text)

-- `strings.HasPrefix`
unfoldable pub has_prefix : String → String → Bool
unfolding begins
has_prefix text prefix = begins (codes prefix) (codes text)

-- Texts one after the other.
abbrev pub joined : String → String → String
joined s t = s ++ t

abbrev prepend : Char → List String → List String
prepend d [] = String.◌∷◌ d String.[] ∷ []
prepend d (s ∷ parts) = String.◌∷◌ d s ∷ parts

abbrev keep : Char → Option (String × String) → Option (String × String)
keep d none = none
keep d (some (a, b)) = some (String.◌∷◌ d a, b)

-- `strings.Split` at an ASCII character.
unfoldable pub split_at : ℕ → String → List String
split_at c String.[] = String.[] ∷ []
split_at c (String.◌∷◌ d s) =
    let rest = split_at c s in if nat_beq (code d) c then String.[] ∷ rest else prepend d rest

-- `strings.SplitN(s, c, 2)` where it has two parts.
unfoldable pub cut_at : ℕ → String → Option (String × String)
cut_at c String.[] = none
cut_at c (String.◌∷◌ d s) =
    let rest = cut_at c s in if nat_beq (code d) c then some (String.[], s) else keep d rest

unfoldable pub drop_chars : ℕ → String → String
drop_chars zero s = s
drop_chars (suc n) String.[] = String.[]
drop_chars (suc n) (String.◌∷◌ c s) = drop_chars n s

-- `strings.TrimRight(s, "/")`
unfoldable pub trim_slashes : String → String
trim_slashes String.[] = String.[]
trim_slashes (String.◌∷◌ c s) =
    let rest = trim_slashes s in
    if nat_beq (code c) b'/' && rest == "" then "" else String.◌∷◌ c rest

-- `strings.TrimRight(s, "\n\r")`
unfoldable pub trim_newlines : String → String
trim_newlines String.[] = String.[]
trim_newlines (String.◌∷◌ c s) =
    let rest = trim_newlines s in
    if (nat_beq (code c) 10 || nat_beq (code c) 13) && rest == "" then "" else String.◌∷◌ c rest
