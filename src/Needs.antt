-- ===== src/Needs.antt =====
-- graph-rag/src/needs.js: `ownersFor`, whom a question about data at a home is shown to. `holders` maps
-- each person to the positions they hold.
pub mod Owners
pub mod Views
pub mod Groups
mod Examples
use Prim.Native.String.{String}
use gwarestrin.Base.{
  ℕ, ◌+◌, ◌-◌, ◌*◌, ◌/◌, ◌≡◌, Bool, true, false, not, ◌&&◌, List, [], ◌∷◌, ◌++◌, ◌==◌, map,
  if◌then◌else◌, ltb, eqb, filter, elem, sort,
}
use gwarestrin.Dates.{codes}
use gwarestrin.Positions.{PositionMap, ancestors}

-- A code point in UTF-16, whose order `sort()` follows.
abbrev utf16 : ℕ → List ℕ
utf16 c =
    let high = (c - 65536) / 1024 in
    if ltb c 65536 then c ∷ [] else (55296 + high) ∷ (56320 + ((c - 65536) - high * 1024)) ∷ []

abbrev pub units : List ℕ → List ℕ
units [] = []
units (c ∷ cs) = utf16 c ++ units cs

abbrev units_before : List ℕ → List ℕ → Bool
units_before [] [] = false
units_before [] (d ∷ ds) = true
units_before (c ∷ cs) [] = false
units_before (c ∷ cs) (d ∷ ds) = let rest = units_before cs ds in if eqb c d then rest else ltb c d

abbrev pub text_before : String → String → Bool
text_before s t = units_before (units (codes s)) (units (codes t))

abbrev pub Holders : Type 0
Holders = List (String × List String)

abbrev pub holds_other : String → String → String × List String → Bool
holds_other asker pos h = not (h.0 == asker) && elem pos h.1

abbrev pub owners_at : String → Holders → String → List String
owners_at asker holders pos = map (λ h. h.0) (filter (holds_other asker pos) holders)

abbrev pub is_empty : List String → Bool
is_empty [] = true
is_empty (x ∷ xs) = false

abbrev pub first_owners : String → Holders → List String → List String
first_owners asker holders [] = []
first_owners asker holders (pos ∷ ps) =
    let people = owners_at asker holders pos in
    let rest = first_owners asker holders ps in
    if is_empty people then rest else sort text_before people

unfoldable pub owners_for : PositionMap → String → Holders → String → List String
unfolding ancestors
owners_for m home holders asker = first_owners asker holders (home ∷ ancestors m home)
