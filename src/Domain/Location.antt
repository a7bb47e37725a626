-- ===== src/Domain/Location.antt =====
-- apps/api/internal/domain/location.go: the cities that a worker can stand in. Coordinates, which are
-- floats, are left out, and `equal_fold` is EqualFold of the strings package.
use jg_smm.Prelude.{Bool, true, false, if◌then◌else◌, List, [], ◌∷◌, Option, none, some, String}

abbrev pub cities : List String
cities =
    "Jakarta" ∷ "Bandung" ∷ "Surabaya" ∷ "Medan" ∷ "Semarang" ∷ "Yogyakarta" ∷ "Malang" ∷ "Makassar"
    ∷ "Palembang" ∷ "Denpasar" ∷ "Balikpapan" ∷ "Pekanbaru" ∷ []

abbrev pub find_named : (String → String → Bool) → String → List String → Option String
find_named equal_fold name [] = none
find_named equal_fold name (c ∷ cs) =
    let rest = find_named equal_fold name cs in if equal_fold c name then some c else rest

-- `FindCity`, with the name of the city.
abbrev pub find_city : (String → String → Bool) → String → Option String
find_city equal_fold name = find_named equal_fold name cities

abbrev pub is_city : Option String → Bool
is_city none = false
is_city (some c) = true
