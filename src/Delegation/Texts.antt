-- ===== src/Delegation/Texts.antt =====
-- graph-rag/src/delegation.js: the text operations of `resolveAgentToken`: `startsWith`, `split`, `slice`
-- and its two patterns.
use Prim.Native.Char.{Char, code}
use Prim.Native.String.{String}
use gwarestrin.Base.{
  ℕ, zero, suc, Bool, true, false, ◌&&◌, ◌||◌, Option, none, some, List, [], ◌∷◌, ◌==◌,
  if◌then◌else◌, leb, eqb, length, all,
}
use gwarestrin.Dates.{codes, is_digit}

-- `s.slice(p.length)`, if `s` starts with `p`
abbrev pub after_prefix : String → String → Option String
after_prefix String.[] s = some s
after_prefix (String.◌∷◌ c p) String.[] = none
after_prefix (String.◌∷◌ c p) (String.◌∷◌ d s) =
    let rest = after_prefix p s in if eqb (code c) (code d) then rest else none

abbrev one_text : Char → String
one_text c = String.◌∷◌ c String.[]

abbrev add_first : Char → List String → List String
add_first c [] = one_text c ∷ []
add_first c (w ∷ ws) = String.◌∷◌ c w ∷ ws

-- `s.split(".")`
abbrev pub split_dots : String → List String
split_dots String.[] = String.[] ∷ []
split_dots (String.◌∷◌ c s) =
    let rest = split_dots s in if eqb (code c) b'.' then String.[] ∷ rest else add_first c rest

-- `[body, sig, extra]` with the tests on the three.
abbrev pub two_parts : List String → Option (String × String)
two_parts (body ∷ sig ∷ []) = if body == "" || sig == "" then none else some (body, sig)
two_parts _ = none

-- `s.slice(0, n)`
abbrev pub take_text : ℕ → String → String
take_text zero s = String.[]
take_text (suc n) String.[] = String.[]
take_text (suc n) (String.◌∷◌ c s) = String.◌∷◌ c (take_text n s)

abbrev is_hex_or_dash : ℕ → Bool
is_hex_or_dash c =
    is_digit c || eqb c b'-' || (leb b'a' c && leb c b'f') || (leb b'A' c && leb c b'F')

-- `/^[0-9a-f-]{36}$/i`
abbrev pub is_job_id : String → Bool
is_job_id s = eqb (length (codes s)) 36 && all is_hex_or_dash (codes s)

abbrev digits_end : List ℕ → Bool
digits_end [] = true
digits_end (c ∷ s) = is_digit c && digits_end s

abbrev some_digits : List ℕ → Bool
some_digits [] = false
some_digits (c ∷ s) = is_digit c && digits_end s

abbrev digits_colon : List ℕ → Bool
digits_colon [] = false
digits_colon (c ∷ s) =
    let rest = digits_colon s in
    if is_digit c then rest else if eqb c b':' then some_digits s else false

abbrev digit_first : List ℕ → Bool
digit_first [] = false
digit_first (c ∷ s) = is_digit c && digits_colon s

-- `/^#\d+:\d+$/`
abbrev pub is_rid : List ℕ → Bool
is_rid [] = false
is_rid (c ∷ s) = eqb c b'#' && digit_first s

abbrev pub same_bytes : List ℕ → List ℕ → Bool
same_bytes [] [] = true
same_bytes (a ∷ as') (b ∷ bs) = eqb a b && same_bytes as' bs
same_bytes _ _ = false
