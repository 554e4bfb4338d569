-- ===== src/Semver/Tests.antt =====
-- Runs of semver/semver.go and its theorems at concrete versions.
use hdfdata.Base.{ℕ, ◌%◌, ◌^◌, ◌≡◌, refl, List, [], ◌∷◌, arith}
use hdfdata.Semver.Text.{parse_version_str_wraps, parse_version_str-to_string}
use hdfdata.Semver.{
  Semver, new_semver, compatible, any_compatible, print_digits, decimal, to_string, ok, err,
  invalid_version, is_digit, span_digits, skip, is_empty, find_submatch, atoi, group_value,
  to_uint32, parse_groups, parse_version_str,
}

program : Unit {0}
unfolding print_digits decimal to_string is_digit span_digits skip is_empty find_submatch atoi
    group_value to_uint32 parse_groups parse_version_str new_semver compatible any_compatible
program = tt

abbrev v503 : Semver
v503 = record { major = 5; minor = 0; patch = 31 }

abbrev v510 : Semver
v510 = record { major = 5; minor = 1; patch = 0 }

abbrev huge : Semver
huge = record { major = 4294967303; minor = 1; patch = 0 }

-- "v5.0.31"
abbrev v503_text : List ℕ
v503_text = b'v' ∷ b'5' ∷ b'.' ∷ b'0' ∷ b'.' ∷ b'3' ∷ b'1' ∷ []

parse_v503 : parse_version_str v503_text ≡ ok v503
unfolding program
parse_v503 = refl

print_v503 : (b'v' ∷ to_string v503) ≡ v503_text
unfolding program
print_v503 = refl

parse_trailing : parse_version_str (b'5' ∷ b'x' ∷ []) ≡ err invalid_version
unfolding program
parse_trailing = refl

parse_version_str_wraps_example :
    (parse_version_str (to_string huge)
      ≡ ok (new_semver ((4294967303) % 2 ^ 32) (1 % 2 ^ 32) (0 % 2 ^ 32)))
    × (parse_version_str (b'v' ∷ to_string huge)
        ≡ ok (new_semver ((4294967303) % 2 ^ 32) (1 % 2 ^ 32) (0 % 2 ^ 32)))
parse_version_str_wraps_example =
    parse_version_str_wraps huge (omega arith) (omega arith) (omega arith)

parse_version_str-to_string_example :
    (parse_version_str (to_string v503) ≡ ok v503)
    × (parse_version_str (b'v' ∷ to_string v503) ≡ ok v503)
parse_version_str-to_string_example = parse_version_str-to_string v503 (omega arith)
