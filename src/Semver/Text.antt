-- ===== src/Semver/Text.antt =====
-- `Semver.String` and `ParseVersionStr` of semver/semver.go: the parser reads what is printed.
use mathlib.Core.List.{append-nil}
use hdfdata.Base.{ℕ, ◌%◌, ◌^◌, ◌<◌, ◌≡◌, refl, false, List, [], ◌∷◌, ◌++◌, arith, some}
use hdfdata.Semver.Digits.{Ends, decimal-cons, span_digits-decimal, group_value-decimal}
use hdfdata.Semver.{
  Semver, IsUint32, new_semver, decimal, to_string, parse_version_str, parse_groups, find_submatch,
  ok, span_digits, skip, is_digit, is_empty, to_uint32, group_value,
}

skip_dot : (s : List ℕ) → skip b'.' (b'.' ∷ s) ≡ s
unfolding skip
skip_dot s = refl

skip-decimal : (n : ℕ) (s : List ℕ) → skip b'v' (decimal n ++ s) ≡ decimal n ++ s
unfolding skip is_digit
skip-decimal n s = let (c, t, e, d) = decimal-cons n in rw e (ground arith)

is_empty-decimal : (n : ℕ) → is_empty (decimal n) ≡ false
unfolding is_empty
is_empty-decimal n = let (c, t, e, d) = decimal-cons n in rw e

Ends-dot : (s : List ℕ) → Ends (b'.' ∷ s)
unfolding is_digit
Ends-dot s = refl

span_digits-whole : (n : ℕ) → span_digits (decimal n) ≡ (decimal n, [])
span_digits-whole n = rw (append-nil (decimal n)) at (span_digits-decimal n [] tt)

skip_whole : (n : ℕ) → skip b'v' (decimal n) ≡ decimal n
skip_whole n = rw (append-nil (decimal n)) at (skip-decimal n [])

module _ (M m p : ℕ) where
  three : List ℕ
  three = decimal M ++ (b'.' ∷ (decimal m ++ (b'.' ∷ decimal p)))

  find_submatch-three : find_submatch three ≡ some (decimal M, decimal m, decimal p)
  unfolding find_submatch three is_digit skip is_empty
  find_submatch-three = ground (
    arith,
    skip-decimal M (b'.' ∷ (decimal m ++ (b'.' ∷ decimal p))),
    span_digits-decimal M (b'.' ∷ (decimal m ++ (b'.' ∷ decimal p))) refl,
    span_digits-decimal m (b'.' ∷ decimal p) refl,
    span_digits-whole p,
    is_empty-decimal M,
  )

  find_submatch-prefixed : find_submatch (b'v' ∷ three) ≡ some (decimal M, decimal m, decimal p)
  unfolding find_submatch three is_digit skip is_empty
  find_submatch-prefixed = ground (
    arith,
    span_digits-decimal M (b'.' ∷ (decimal m ++ (b'.' ∷ decimal p))) refl,
    span_digits-decimal m (b'.' ∷ decimal p) refl,
    span_digits-whole p,
    is_empty-decimal M,
  )

  find_submatch-two :
      find_submatch (decimal M ++ (b'.' ∷ decimal m)) ≡ some (decimal M, decimal m, [])
  unfolding find_submatch is_digit skip is_empty span_digits
  find_submatch-two = ground (
    arith,
    skip-decimal M (b'.' ∷ decimal m),
    span_digits-decimal M (b'.' ∷ decimal m) refl,
    span_digits-whole m,
    is_empty-decimal M,
  )

  find_submatch-one : find_submatch (decimal M) ≡ some (decimal M, [], [])
  unfolding find_submatch is_digit skip is_empty span_digits
  find_submatch-one = ground (arith, skip_whole M, span_digits-whole M, is_empty-decimal M)

parse_groups-decimal :
    (M m p : ℕ)
    → M < 2 ^ 63
    → m < 2 ^ 63
    → p < 2 ^ 63
    → parse_groups (decimal M, decimal m, decimal p)
      ≡ ok (new_semver (to_uint32 M) (to_uint32 m) (to_uint32 p))
unfolding parse_groups
parse_groups-decimal M m p h k l =
    rw (group_value-decimal p l, group_value-decimal m k, group_value-decimal M h)

-- A printed version whose numbers fit a signed 64-bit integer is parsed, with or without the "v",
-- into the fields reduced modulo 2^32: a larger number is no error, it wraps around.
pub parse_version_str_wraps :
    (s : Semver)
    → s.major < 2 ^ 63
    → s.minor < 2 ^ 63
    → s.patch < 2 ^ 63
    → (parse_version_str (to_string s)
        ≡ ok (new_semver (s.major % 2 ^ 32) (s.minor % 2 ^ 32) (s.patch % 2 ^ 32)))
      × (parse_version_str (b'v' ∷ to_string s)
          ≡ ok (new_semver (s.major % 2 ^ 32) (s.minor % 2 ^ 32) (s.patch % 2 ^ 32)))
unfolding parse_version_str to_string three to_uint32
parse_version_str_wraps s h k l = (
  rw (find_submatch-three s.major s.minor s.patch, parse_version_str)
      (parse_groups-decimal s.major s.minor s.patch h k l),
  rw (find_submatch-prefixed s.major s.minor s.patch, parse_version_str)
      (parse_groups-decimal s.major s.minor s.patch h k l),
)

-- Parsing undoes printing: a version with uint32 fields, printed, with or without the "v" prefix,
-- is parsed to itself.
pub parse_version_str-to_string :
    (s : Semver)
    → IsUint32 s
    → (parse_version_str (to_string s) ≡ ok s) × (parse_version_str (b'v' ∷ to_string s) ≡ ok s)
unfolding new_semver
parse_version_str-to_string s u =
    ground (arith, parse_version_str_wraps s (omega arith) (omega arith) (omega arith))

-- The minor and the patch version are optional: a missing one is read as 0.
pub parse_version_str_short :
    (major minor : ℕ)
    → major < 2 ^ 32
    → minor < 2 ^ 32
    → (parse_version_str (decimal major) ≡ ok (new_semver major 0 0))
      × (parse_version_str (decimal major ++ (b'.' ∷ decimal minor))
          ≡ ok (new_semver major minor 0))
unfolding parse_version_str parse_groups group_value to_uint32
parse_version_str_short major minor h k = (
  ground (arith, find_submatch-one major, group_value-decimal major (omega arith)),
  ground (
    arith,
    find_submatch-two major minor,
    group_value-decimal major (omega arith),
    group_value-decimal minor (omega arith),
  ),
)

-- Whatever text is parsed, the fields of the version are in the range of uint32.
pub parse_version_str-IsUint32 :
    (ver : List ℕ) (s : Semver) → parse_version_str ver ≡ ok s → IsUint32 s
unfolding parse_version_str parse_groups to_uint32 new_semver
parse_version_str-IsUint32 ver s h = ground arith
