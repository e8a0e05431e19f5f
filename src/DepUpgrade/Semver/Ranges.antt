-- ===== src/DepUpgrade/Semver/Ranges.antt =====
-- The ranges of roster/dep-upgrade/semver.ts: comparators, their groups, and the versions of a list
-- that satisfy them.
pub mod Caret
pub mod Best
pub mod ReadBack
use Prim.Native.Nat.{Ordering}
use dacs_agent_reference.Common.{
  ℕ, ◌+◌, Bool, true, false, not, ◌&&◌, ◌||◌, Option, none, some, List, [], ◌∷◌, ◌++◌, map, any,
  every, is_empty, ltb, ◌==◌, if◌then◌else◌,
}
use dacs_agent_reference.Common.Sort.{sort, reverse}
use dacs_agent_reference.Common.Result.{Result, thrown, ok, ◌>>=◌}
use dacs_agent_reference.DepUpgrade.Semver.{
  is_greater, version_le, Text, SemVer, Identifier, is_space, is_digit, is_wild, trim, span, digits,
  skip, suffix, parse_semver, compare_semver,
}
use dacs_agent_reference.DepUpgrade.Semver.Print.{version_text}

pub data Op : Type 0 where
  at_least above at_most below exactly : Op

pub record Comparator : Type 0 where
  pub op : Op
  pub version : SemVer

pub record Partial3 : Type 0 where
  pub major : ℕ
  pub minor : Option ℕ
  pub patch : Option ℕ
  pub prerelease : List Identifier

-- `(?:\.(\d+|[xX*]))?`, and `num` of its match; `none` is a text that the rest cannot match
unfoldable pub dot_part : Text → Option (Option ℕ × Text)
dot_part [] = some (none, [])
dot_part (c ∷ []) = if c == b'.' then none else some (none, c ∷ [])
dot_part (c ∷ d ∷ s) =
    if c == b'.'
    then (if is_wild d
        then some (none, s)
        else elim (digits (d ∷ s)) [ none ↦ none | some (n, rest) ↦ some (some n, rest) ])
    else some (none, c ∷ d ∷ s)

-- `PARTIAL_RE` on a trimmed text
unfoldable pub partial_version : Text → Option Partial3
partial_version s = elim (digits (skip b'v' s)) [
  | none ↦ none
  | some (major, after_major) ↦ elim (dot_part after_major) [
    | none ↦ none
    | some (minor, after_minor) ↦ elim (dot_part after_minor) [
      | none ↦ none
      | some (patch, after_patch) ↦ elim (suffix after_patch) [
        | none ↦ none
        | some ids ↦ some (record { major = major; minor = minor; patch = patch; prerelease = ids })
      ]
    ]
  ]
]

abbrev pub parse_partial : Text → Option Partial3
parse_partial input = partial_version (trim input)

abbrev pub mk : ℕ → ℕ → ℕ → List Identifier → SemVer
mk major minor patch prerelease = record {
  major = major;
  minor = minor;
  patch = patch;
  prerelease = prerelease;
  raw = version_text major minor patch;
}

-- `n ?? 0`
abbrev pub or_zero : Option ℕ → ℕ
or_zero none = 0
or_zero (some n) = n

abbrev pub padded : Partial3 → SemVer
padded p = mk p.major (or_zero p.minor) (or_zero p.patch) p.prerelease

-- `>=lower <upper`
abbrev pub between : SemVer → SemVer → List Comparator
between lower upper =
    record { op = Op.at_least; version = lower } ∷ record { op = Op.below; version = upper } ∷ []

-- the first number above a major version 0, as `caretComparators` takes it
abbrev pub caret_zero : ℕ → Option ℕ → SemVer
caret_zero minor none = mk 0 (minor + 1) 0 []
caret_zero minor (some patch) =
    if ltb 0 minor then mk 0 (minor + 1) 0 [] else mk 0 minor (patch + 1) []

abbrev pub caret_upper : ℕ → Option ℕ → Option ℕ → SemVer
caret_upper major none patch = mk (major + 1) 0 0 []
caret_upper major (some minor) patch =
    if ltb 0 major then mk (major + 1) 0 0 [] else caret_zero minor patch

unfoldable pub caret_comparators : Partial3 → List Comparator
caret_comparators p = between (padded p) (caret_upper p.major p.minor p.patch)

abbrev pub tilde_upper : ℕ → Option ℕ → SemVer
tilde_upper major none = mk (major + 1) 0 0 []
tilde_upper major (some minor) = mk major (minor + 1) 0 []

unfoldable pub tilde_comparators : Partial3 → List Comparator
tilde_comparators p = between (padded p) (tilde_upper p.major p.minor)

unfoldable pub x_range_comparators : Partial3 → List Comparator
x_range_comparators p = between (padded p) (tilde_upper p.major p.minor)

-- The operator in front of a comparator, and what follows it.
pub data Prefix : Type 0 where
  bare caret tilde : Prefix
  compares : Op → Prefix

abbrev pub begins_equal : Text → Bool
begins_equal [] = false
begins_equal (c ∷ s) = c == b'='

abbrev pub prefix : Text → Prefix × Text
prefix [] = (Prefix.bare, [])
prefix (c ∷ s) =
    if c == b'>'
    then (if begins_equal s
        then (Prefix.compares Op.at_least, skip b'=' s)
        else (Prefix.compares Op.above, s))
    else if c == b'<'
    then (if begins_equal s
        then (Prefix.compares Op.at_most, skip b'=' s)
        else (Prefix.compares Op.below, s))
    else if c == b'='
    then (Prefix.compares Op.exactly, s)
    else if c == b'^'
    then (Prefix.caret, s)
    else if c == b'~'
    then (Prefix.tilde, s)
    else (Prefix.bare, c ∷ s)

-- full and bare: exact; partial: an x-range
abbrev pub bare_comparators : Partial3 → Option ℕ → Option ℕ → List Comparator
bare_comparators p (some minor) (some patch) = record { op = Op.exactly; version = padded p } ∷ []
bare_comparators p (some minor) none = x_range_comparators p
bare_comparators p none patch = x_range_comparators p

abbrev pub comparators_of : Prefix → Partial3 → List Comparator
comparators_of Prefix.caret p = caret_comparators p
comparators_of Prefix.tilde p = tilde_comparators p
comparators_of Prefix.bare p = bare_comparators p p.minor p.patch
comparators_of (Prefix.compares op) p = record { op = op; version = padded p } ∷ []

-- `token === "*" || token.toLowerCase() === "x"`
abbrev pub is_star : Text → Bool
is_star (c ∷ []) = is_wild c
is_star [] = false
is_star (c ∷ d ∷ s) = false

unfoldable pub parse_comparator_token : Text → Result Text (List Comparator)
parse_comparator_token token =
    let (op, rest) = prefix token in
    let parsed = parse_partial rest in
    if is_star token
    then ok []
    else elim parsed [ none ↦ thrown token | some p ↦ ok (comparators_of op p) ]

-- a character in front of the first text
abbrev pub cons_first : ℕ → List Text → List Text
cons_first c [] = (c ∷ []) ∷ []
cons_first c (first ∷ rest) = (c ∷ first) ∷ rest

-- `split(/\s+/).filter((t) => t.length > 0)`
abbrev pub tokens : Text → List Text
tokens [] = []
tokens (c ∷ []) = if is_space c then [] else (c ∷ []) ∷ []
tokens (c ∷ d ∷ s) =
    let rest = tokens (d ∷ s) in
    if is_space c then rest else if is_space d then (c ∷ []) ∷ rest else cons_first c rest

abbrev pub parse_tokens : List Text → Result Text (List Comparator)
parse_tokens [] = ok []
parse_tokens (token ∷ rest) = do
  comparators ← parse_comparator_token token
  more ← parse_tokens rest
  ok (comparators ++ more)

abbrev pub parse_group : Text → Result Text (List Comparator)
parse_group group = parse_tokens (tokens group)

-- `split("||")`
abbrev pub split_or : Text → List Text
split_or [] = [] ∷ []
split_or (c ∷ []) = (c ∷ []) ∷ []
split_or (c ∷ d ∷ s) =
    let after_or = split_or s in
    let rest = split_or (d ∷ s) in
    if c == b'|' && d == b'|' then [] ∷ after_or else cons_first c rest

abbrev pub parse_groups : List Text → Result Text (List (List Comparator))
parse_groups [] = ok []
parse_groups (group ∷ rest) = do
  comparators ← parse_group group
  more ← parse_groups rest
  ok (comparators ∷ more)

unfoldable pub parse_range : Text → Result Text (List (List Comparator))
parse_range range =
    let trimmed = trim range in
    if is_empty trimmed || is_star trimmed then ok ([] ∷ []) else parse_groups (split_or trimmed)

abbrev pub is_less : Ordering → Bool
is_less Ordering.lt = true
is_less Ordering.eq = false
is_less Ordering.gt = false

-- `cmp >= 0` and the other tests of its sign
abbrev pub test_op : Op → Ordering → Bool
test_op Op.at_least cmp = not (is_less cmp)
test_op Op.above cmp = is_greater cmp
test_op Op.at_most cmp = not (is_greater cmp)
test_op Op.below cmp = is_less cmp
test_op Op.exactly cmp = not (is_less cmp) && not (is_greater cmp)

unfoldable pub test_comparator : SemVer → Comparator → Bool
test_comparator v c = test_op c.op (compare_semver v c.version)

abbrev pub matches : SemVer → List (List Comparator) → Bool
matches v groups = any (λ group. every (λ c. test_comparator v c) group) groups

-- `thrown` is the error of a range that cannot be parsed
unfoldable pub satisfies : Text → Text → Result Text Bool
satisfies version range = elim (parse_semver version) [
  | none ↦ ok false
  | some v ↦ do groups ← parse_range range; ok (matches v groups)
]

pub record Parsed : Type 0 where
  pub raw : Text
  pub parsed : SemVer

abbrev pub parse_all : List Text → List Parsed
parse_all [] = []
parse_all (raw ∷ rest) =
    let others = parse_all rest in
    elim (parse_semver raw) [ none ↦ others | some v ↦ record { raw = raw; parsed = v } ∷ others ]

abbrev pub parsed_le : Parsed → Parsed → Bool
parsed_le a b = version_le a.parsed b.parsed

abbrev pub sorted_parsed : List Text → List Parsed
sorted_parsed versions = sort parsed_le (parse_all versions)

-- the loop over the versions; `none` is `null`
unfoldable pub first_satisfying : Text → List Parsed → Result Text (Option Text)
first_satisfying range [] = ok none
first_satisfying range (x ∷ xs) =
    let rest = first_satisfying range xs in
    elim (satisfies x.raw range) [
      | thrown e ↦ thrown e
      | ok found ↦ if found then ok (some x.raw) else rest
    ]

unfoldable pub min_satisfying : List Text → Text → Result Text (Option Text)
min_satisfying versions range = first_satisfying range (sorted_parsed versions)

-- from the end of the list
unfoldable pub max_satisfying : List Text → Text → Result Text (Option Text)
max_satisfying versions range = first_satisfying range (reverse (sorted_parsed versions))
