-- ===== src/DepUpgrade/Semver.antt =====
-- roster/dep-upgrade/semver.ts: versions, their order, and the ranges that they satisfy. Texts are
-- lists of character codes; the three regular expressions are written out as scanners, each of
-- which takes the longest run of a class, since what follows a run is never in its class. Numbers
-- are exact.
pub mod Order
pub mod Print
pub mod Ranges
use Prim.Native.Nat.{compare, Ordering}
pub use dacs_agent_reference.Common.Codes.{Text, codes}
use dacs_agent_reference.Common.{
  ℕ, ◌+◌, ◌-◌, ◌*◌, String, Bool, true, false, not, ◌&&◌, ◌||◌, Option, none, some, List, [], ◌∷◌,
  ◌++◌, map, any, every, is_empty, is_some, leb, ltb, ◌==◌, if◌then◌else◌,
}
use dacs_agent_reference.Common.Result.{Result, thrown, ok, ◌>>=◌}

-- the first difference decides
abbrev pub or_else : Ordering → Ordering → Ordering
or_else Ordering.lt later = Ordering.lt
or_else Ordering.eq later = later
or_else Ordering.gt later = Ordering.gt

-- element by element; of two of which one begins the other, the shorter is less
unfoldable pub lexicographic : {A : Type 0} → (A → A → Ordering) → List A → List A → Ordering
lexicographic cmp [] [] = Ordering.eq
lexicographic cmp [] (y ∷ ys) = Ordering.lt
lexicographic cmp (x ∷ xs) [] = Ordering.gt
lexicographic cmp (x ∷ xs) (y ∷ ys) = or_else (cmp x y) (lexicographic cmp xs ys)

-- `<` of texts, by their codes
abbrev pub text_compare : Text → Text → Ordering
text_compare s t = lexicographic compare s t

-- `\s`, what `trim` removes
abbrev pub is_space : ℕ → Bool
is_space c =
    (leb 9 c && leb c 13)
    || c == 32
    || c == 160
    || c == 5760
    || (leb 8192 c && leb c 8202)
    || c == 8232
    || c == 8233
    || c == 8239
    || c == 8287
    || c == 12288
    || c == 65279

abbrev pub is_digit : ℕ → Bool
is_digit c = leb b'0' c && leb c b'9'

-- `[0-9A-Za-z.-]`
abbrev pub is_word : ℕ → Bool
is_word c =
    is_digit c || (leb b'A' c && leb c b'Z') || (leb b'a' c && leb c b'z') || c == b'.' || c == b'-'

-- `[xX*]`
abbrev pub is_wild : ℕ → Bool
is_wild c = c == b'x' || c == b'X' || c == b'*'

abbrev pub drop_spaces : Text → Text
drop_spaces [] = []
drop_spaces (c ∷ s) = if is_space c then drop_spaces s else c ∷ s

-- without the spaces at the end
abbrev pub trim_end : Text → Text
trim_end [] = []
trim_end (c ∷ s) = let rest = trim_end s in if is_space c && is_empty rest then [] else c ∷ rest

abbrev pub trim : Text → Text
trim s = trim_end (drop_spaces s)

-- the longest run of a class, and what follows it
abbrev pub span : (ℕ → Bool) → Text → Text × Text
span p [] = ([], [])
span p (c ∷ s) = let (run, rest) = span p s in if p c then (c ∷ run, rest) else ([], c ∷ s)

-- `Number` of digits, behind a value
abbrev pub number_from : ℕ → Text → ℕ
number_from n [] = n
number_from n (c ∷ s) = number_from (n * 10 + (c - b'0')) s

abbrev pub number : Text → ℕ
number s = number_from 0 s

-- `s.split(c)`
abbrev pub split : ℕ → Text → List Text
split d [] = [] ∷ []
split d (c ∷ s) = elim (split d s) [
  | [] ↦ (c ∷ []) ∷ []
  | ◌∷◌ first rest ↦ if c == d then [] ∷ first ∷ rest else (c ∷ first) ∷ rest
]

pub data Identifier : Type 0 where
  numeric : ℕ → Identifier
  alphanumeric : Text → Identifier

pub record SemVer : Type 0 where
  pub major : ℕ
  pub minor : ℕ
  pub patch : ℕ
  pub prerelease : List Identifier
  pub raw : Text

-- `/^\d+$/.test(id) ? Number(id) : id`
abbrev pub identifier : Text → Identifier
identifier [] = alphanumeric []
identifier (c ∷ s) =
    if every is_digit (c ∷ s) then numeric (number (c ∷ s)) else alphanumeric (c ∷ s)

abbrev pub identifiers : Text → List Identifier
identifiers s = map identifier (split b'.' s)

-- `(?:\+[0-9A-Za-z.-]+)?$`
abbrev pub is_build : Text → Bool
is_build [] = true
is_build (c ∷ s) = c == b'+' && not (is_empty s) && every is_word s

-- `(?:-([0-9A-Za-z.-]+))?(?:\+[0-9A-Za-z.-]+)?$`: the identifiers
unfoldable pub suffix : Text → Option (List Identifier)
suffix [] = some []
suffix (c ∷ s) =
    let (run, rest) = span is_word s in
    if c == b'-'
    then (if not (is_empty run) && is_build rest then some (identifiers run) else none)
    else if is_build (c ∷ s)
    then some []
    else none

-- `(\d+)`
unfoldable pub digits : Text → Option (ℕ × Text)
digits s =
    let (run, rest) = span is_digit s in if is_empty run then none else some (number run, rest)

-- `\.(\d+)`
unfoldable pub dot_digits : Text → Option (ℕ × Text)
dot_digits [] = none
dot_digits (c ∷ s) = if c == b'.' then digits s else none

-- an optional character
abbrev pub skip : ℕ → Text → Text
skip d [] = []
skip d (c ∷ s) = if c == d then s else c ∷ s

-- `FULL_RE` on a trimmed text
unfoldable pub full_version : Text → Option SemVer
full_version s = elim (digits (drop_spaces (skip b'=' (skip b'v' s)))) [
  | none ↦ none
  | some (major, after_major) ↦ elim (dot_digits after_major) [
    | none ↦ none
    | some (minor, after_minor) ↦ elim (dot_digits after_minor) [
      | none ↦ none
      | some (patch, after_patch) ↦ elim (suffix after_patch) [
        | none ↦ none
        | some ids ↦
            some (record { major = major; minor = minor; patch = patch; prerelease = ids; raw = s })
      ]
    ]
  ]
]

unfoldable pub parse_semver : Text → Option SemVer
parse_semver input = full_version (trim input)

-- one round of the loop in `comparePrerelease`
abbrev pub compare_identifier : Identifier → Identifier → Ordering
compare_identifier (numeric x) (numeric y) = compare x y
compare_identifier (numeric x) (alphanumeric t) = Ordering.lt
compare_identifier (alphanumeric s) (numeric y) = Ordering.gt
compare_identifier (alphanumeric s) (alphanumeric t) = text_compare s t

-- the loop of `comparePrerelease`
abbrev pub compare_identifiers : List Identifier → List Identifier → Ordering
compare_identifiers xs ys = lexicographic compare_identifier xs ys

unfoldable pub compare_prerelease : List Identifier → List Identifier → Ordering
compare_prerelease [] [] = Ordering.eq
compare_prerelease [] (y ∷ ys) = Ordering.gt
compare_prerelease (x ∷ xs) [] = Ordering.lt
compare_prerelease (x ∷ xs) (y ∷ ys) = compare_identifiers (x ∷ xs) (y ∷ ys)

unfoldable pub compare_semver : SemVer → SemVer → Ordering
compare_semver a b = or_else (compare a.major b.major) (
    or_else (compare a.minor b.minor)
      (or_else (compare a.patch b.patch) (compare_prerelease a.prerelease b.prerelease)))

abbrev pub is_greater : Ordering → Bool
is_greater Ordering.lt = false
is_greater Ordering.eq = false
is_greater Ordering.gt = true

-- `cmp <= 0`, by which `sort` keeps an element before another
abbrev pub version_le : SemVer → SemVer → Bool
version_le a b = not (is_greater (compare_semver a b))

-- `thrown` is the error that it throws
unfoldable pub compare_versions : Text → Text → Result Text Ordering
compare_versions a b = elim (parse_semver a) [
  | none ↦ thrown a
  | some pa ↦ elim (parse_semver b) [ none ↦ thrown b | some pb ↦ ok (compare_semver pa pb) ]
]

unfoldable pub is_stable : Text → Bool
is_stable version = elim (parse_semver version) [ none ↦ false | some v ↦ is_empty v.prerelease ]

unfoldable pub major_of : Text → Result Text ℕ
major_of version = elim (parse_semver version) [ none ↦ thrown version | some v ↦ ok v.major ]
