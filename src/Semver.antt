-- ===== src/Semver.antt =====
-- semver/semver.go: semantic versions, when one serves for another, their text form and its
-- parser. A text is the list of its bytes. The regular expression of `ParseVersionStr` is matched
-- by a scanner: its digit groups and its optional dots are over disjoint bytes, so the greedy
-- match never has to give a byte back.
use hdfdata.Base.{
  ℕ, zero, suc, ◌+◌, ◌-◌, ◌*◌, ◌/◌, ◌%◌, ◌^◌, ◌<◌, Bool, true, false, not, ◌&&◌, List, [], ◌∷◌,
  ◌++◌, ltb, leb, ◌==◌, if◌then◌else◌, Option, none, some,
}
pub mod Order
pub mod Digits
pub mod Text
mod Tests

pub record Semver : Type 0 where
  pub major : ℕ
  pub minor : ℕ
  pub patch : ℕ

-- The fields are of type uint32.
pub record IsUint32 (s : Semver) : Type 0 where
  pub major_fits : s.major < 2 ^ 32
  pub minor_fits : s.minor < 2 ^ 32
  pub patch_fits : s.patch < 2 ^ 32

pub new_semver : ℕ → ℕ → ℕ → Semver
new_semver major minor patch = record { major = major; minor = minor; patch = patch }

pub compatible : Semver → Semver → Bool
compatible required actual =
    if not (required.major == actual.major)
    then false
    else if ltb actual.minor required.minor
    then false
    else if (required.minor == actual.minor) && ltb actual.patch required.patch
    then false
    else true

pub any_compatible : List Semver → Semver → Bool
any_compatible [] actual = false
any_compatible (v ∷ vs) actual =
    let rest = any_compatible vs actual in if compatible v actual then true else rest

pub split : Semver → ℕ × ℕ × ℕ
split s = (s.major, s.minor, s.patch)

-- `%d` of an unsigned number, most significant digit first; `n + 1` rounds are enough for `n`.
pub print_digits : ℕ → ℕ → List ℕ
print_digits zero n = []
print_digits (suc fuel) n =
    let rest = print_digits fuel (n / 10) ++ (b'0' + n % 10) ∷ [] in
    if ltb n 10 then (b'0' + n) ∷ [] else rest

pub decimal : ℕ → List ℕ
decimal n = print_digits (suc n) n

-- `Semver.String`
pub to_string : Semver → List ℕ
to_string s = decimal s.major ++ (b'.' ∷ (decimal s.minor ++ (b'.' ∷ decimal s.patch)))

pub data ParseError : Type 0 where
  invalid_version : ParseError
  out_of_range : List ℕ → ParseError

pub data Result {ℓ} (A : Type ℓ) : Type ℓ where
  ok : A → Result A
  err : ParseError → Result A

infixl 5 ◌>>=◌
abbrev pub ◌>>=◌ {ℓ κ} : {A : Type ℓ} {B : Type κ} → Result A → (A → Result B) → Result B
ok a >>= f = f a
err e >>= f = err e

pub is_digit : ℕ → Bool
is_digit c = leb b'0' c && leb c b'9'

-- The greedy `\d*`: the digits, and what follows them.
pub span_digits : List ℕ → List ℕ × List ℕ
unfolding is_digit
span_digits [] = ([], [])
span_digits (c ∷ s) =
    let (ds, rest) = span_digits s in if is_digit c then (c ∷ ds, rest) else ([], c ∷ s)

-- An optional byte.
pub skip : ℕ → List ℕ → List ℕ
skip b [] = []
skip b (c ∷ s) = if c == b then s else c ∷ s

pub is_empty : List ℕ → Bool
is_empty [] = true
is_empty (_ ∷ _) = false

-- The three submatches of `^v?(\d+)\.?(\d*)\.?(\d*)$`.
pub find_submatch : List ℕ → Option (List ℕ × List ℕ × List ℕ)
find_submatch ver =
    let (v, after_major) = span_digits (skip b'v' ver) in
    let (m, after_minor) = span_digits (skip b'.' after_major) in
    let (p, rest) = span_digits (skip b'.' after_minor) in
    if is_empty v then none else if is_empty rest then some (v, m, p) else none

pub digits_value : ℕ → List ℕ → ℕ
digits_value acc [] = acc
digits_value acc (c ∷ s) = digits_value (acc * 10 + (c - b'0')) s

-- `strconv.Atoi` of a text of digits, with a 64-bit int.
pub atoi : List ℕ → Result ℕ
unfolding digits_value
atoi s = if ltb (digits_value 0 s) (2 ^ 63) then ok (digits_value 0 s) else err (out_of_range s)

-- An empty group leaves its variable at 0.
pub group_value : List ℕ → Result ℕ
unfolding atoi
group_value [] = ok 0
group_value (c ∷ s) = atoi (c ∷ s)

-- uint32(x)
pub to_uint32 : ℕ → ℕ
to_uint32 n = n % 2 ^ 32

pub parse_groups : List ℕ × List ℕ × List ℕ → Result Semver
parse_groups (major, minor, patch) = do
  p ← group_value patch
  m ← group_value minor
  v ← group_value major
  ok (new_semver (to_uint32 v) (to_uint32 m) (to_uint32 p))

pub parse_version_str : List ℕ → Result Semver
parse_version_str ver = elim (find_submatch ver) [
  | none ↦ err invalid_version
  | some groups ↦ parse_groups groups
]
