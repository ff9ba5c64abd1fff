-- ===== src/Tests/Settings.antt =====
-- The theorems on the configuration at a concrete environment.
use Prim.Native.String.{◌++◌}
use medods_dvortsov.Prelude.{
  ℕ, zero, suc, none, ◌*◌, ◌/◌, ◌≡◌, refl, pos, negsuc, arith, ◌==◌, if◌then◌else◌, some,
}
use medods_dvortsov.Go.Strconv.{format_int, format_nat}
use medods_dvortsov.Go.Duration.{
  parse_duration, leading_int, leading_fraction, take_unit, unit_of, in_unit, unit_after,
  fraction_after, after_digits, segment, segments, signed, unsigned,
}
use medods_dvortsov.Limiter.{whole_seconds}
use medods_dvortsov.Config.{Environment, new_rate_limiter_config}
use medods_dvortsov.Config.Durations.{new_rate_limiter_config_seconds}

-- The nanoseconds of a fraction, without the rounding of a float64.
abbrev pub exact : ℕ → ℕ → ℕ → ℕ
exact f zero unit = 0
exact f (suc scale) unit = f * unit / suc scale

abbrev set : Environment
set name =
    if name == "RATE_LIMIT_LIMIT"
    then format_int (pos 2)
    else if name == "RATE_LIMIT_INTERVAL"
    then format_nat 10 ++ "s"
    else if name == "RATE_LIMIT_BLOCK_TIME"
    then format_nat 60 ++ "s"
    else ""

new_rate_limiter_config_seconds_example :
    ((new_rate_limiter_config exact set).limit ≡ pos 2)
    × (whole_seconds (new_rate_limiter_config exact set).interval ≡ pos 10)
    × (whole_seconds (new_rate_limiter_config exact set).block_time ≡ pos 60)
new_rate_limiter_config_seconds_example =
    new_rate_limiter_config_seconds exact set 2 10 60 (omega arith) (omega arith) (omega arith) refl
      refl refl

parse_duration_tests :
    (parse_duration exact "1h15m30.5s" ≡ some (pos 4530500000000))
    × (parse_duration exact "-1.5h" ≡ some (negsuc 5399999999999))
    × (parse_duration exact "+5us" ≡ some (pos 5000))
    × (parse_duration exact "0" ≡ some (pos 0))
    × (parse_duration exact "10" ≡ none)
    × (parse_duration exact ".s" ≡ none)
    × (parse_duration exact "9223372036854775808ns" ≡ none)
    × (parse_duration exact "-9223372036854775808ns" ≡ some (negsuc 9223372036854775807))
unfolding parse_duration leading_int leading_fraction take_unit unit_of in_unit unit_after
    fraction_after after_digits segment segments signed unsigned
parse_duration_tests = (refl, refl, refl, refl, refl, refl, refl, refl)
