-- ===== src/Config/Durations.antt =====
-- What the configuration makes of the environment.
use Prim.Native.String.{◌++◌}
use medods_dvortsov.Prelude.{
  ℕ, ◌*◌, ◌^◌, ◌<◌, String, ◌≡◌, refl, ap, ◌∙◌, sym, false, Option, none, some, ℤ, pos, ◌==◌,
  ==-false_of_ne, arith,
}
use medods_dvortsov.Go.Strconv.{format_int, format_nat, parse_int}
use medods_dvortsov.Go.Strconv.RoundTrip.{parse_int-format_int}
use medods_dvortsov.Go.Duration.{parse_duration}
use medods_dvortsov.Go.Duration.Seconds.{parse_duration_seconds}
use medods_dvortsov.Limiter.{whole_seconds}
use medods_dvortsov.Config.{
  Environment, limit_of, parse_duration_or_default, new_rate_limiter_config,
}

module _ (scaled : ℕ → ℕ → ℕ → ℕ) (env : Environment) where
  unset_duration : parse_duration scaled "" ≡ none
  unfolding parse_duration
  unset_duration = refl

  no_duration : (d : ℤ) → ◌≡◌ {A = Option ℤ} none (some d) → ⊥
  no_duration d h = absurd (cc)

  -- A variable that names a whole number of seconds, as in "90s", is read as that duration, and the
  -- default does not count. The duration in nanoseconds is below 2 ^ 63.
  pub parse_duration_or_default_seconds :
      (name : String) (def : ℤ) (n : ℕ)
      → n * 1000000000 < 2 ^ 63
      → env name ≡ format_nat n ++ "s"
      → parse_duration_or_default scaled env name def ≡ pos (n * 1000000000)
  unfolding parse_duration_or_default
  parse_duration_or_default_seconds name def n fits set =
      let read = parse_duration_seconds scaled n fits in
      let there : (env name == "") ≡ false = ==-false_of_ne (env name) "" (λ e.
        no_duration (pos (n * 1000000000))
          (sym unset_duration ∙ ap (parse_duration scaled) (sym e ∙ set) ∙ read)) in
      rw (there, set, read) refl

  unset_int : parse_int "" ≡ none
  unfolding parse_int
  unset_int = refl

  limit_of-format_int : (n : ℕ) → n < 2 ^ 63 → limit_of (format_int (pos n)) ≡ pos n
  limit_of-format_int n fits =
      let read = parse_int-format_int (pos n) (omega arith) in
      let there : (format_int (pos n) == "") ≡ false =
        ==-false_of_ne (format_int (pos n)) ""
          (λ e. no_duration (pos n) (sym unset_int ∙ ap parse_int (sym e) ∙ read)) in
      rw (there, read) refl

  -- A limit of `n` requests, a window of `m` seconds and a block time of `b` seconds, as the variables
  -- name them, are what the rate limiter gives its script. They are in the range of the types.
  pub new_rate_limiter_config_seconds :
      (n m b : ℕ)
      → n < 2 ^ 63
      → m * 1000000000 < 2 ^ 63
      → b * 1000000000 < 2 ^ 63
      → env "RATE_LIMIT_LIMIT" ≡ format_int (pos n)
      → env "RATE_LIMIT_INTERVAL" ≡ format_nat m ++ "s"
      → env "RATE_LIMIT_BLOCK_TIME" ≡ format_nat b ++ "s"
      → ((new_rate_limiter_config scaled env).limit ≡ pos n)
        × (whole_seconds (new_rate_limiter_config scaled env).interval ≡ pos m)
        × (whole_seconds (new_rate_limiter_config scaled env).block_time ≡ pos b)
  unfolding new_rate_limiter_config
  new_rate_limiter_config_seconds n m b n_fits m_fits b_fits limit_set interval_set block_set = (
    ap limit_of limit_set ∙ limit_of-format_int n n_fits,
    ap whole_seconds (
          parse_duration_or_default_seconds "RATE_LIMIT_INTERVAL" (pos 60000000000) m m_fits
            interval_set)
        ∙ ap pos (omega arith),
    ap whole_seconds (
          parse_duration_or_default_seconds "RATE_LIMIT_BLOCK_TIME" (pos 300000000000) b b_fits
            block_set)
        ∙ ap pos (omega arith),
  )
