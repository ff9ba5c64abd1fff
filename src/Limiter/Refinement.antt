-- ===== src/Limiter/Refinement.antt =====
-- The script implements the counter with a fixed window.
use Prim.Native.String.{◌++◌}
use medods_dvortsov.Prelude.{
  ℕ, suc, ◌+◌, ◌*◌, ◌^◌, ◌≤◌, ◌<◌, String, ◌≡◌, ◌≢◌, refl, sym, ap₂, ◌∙◌, inl, inr, Bool, true,
  false, none, some, List, [], ◌∷◌, map, ℤ, pos, ltb, leb, arith, if◌then◌else◌, Bool-cases,
  cons-append, nil-append,
}
use medods_dvortsov.Go.Errors.{Result, ok}
use medods_dvortsov.Go.Strconv.{format_int}
use medods_dvortsov.Models.{Time}
use medods_dvortsov.Platform.{Platform}
use medods_dvortsov.Platform.Redis.{live}
use medods_dvortsov.Platform.Scripts.{RedisScripts, IsExpire}
use medods_dvortsov.Limiter.{current_count, block, set_window, count, limiter_script}
use medods_dvortsov.Limiter.Window.{Counter, counted, window_step, window_run}

-- A key is not its own block key.
extended_ne : (s : String) (t : String) → t ≢ "" → (s ++ t) ≢ s
extended_ne String.[] t h e = h (sym (nil-append t) ∙ e)
extended_ne (String.◌∷◌ c s) t h e = extended_ne s t h (ground (arith, cons-append c s t))

-- The answer of the script for a decision.
abbrev pub answer_of : Bool → Result ℤ
answer_of true = ok (pos 1)
answer_of false = ok (pos 0)

module _ (p : Platform) (scripts : RedisScripts p.redis) where
  -- The key holds the count, with the end of the window as its deadline.
  abbrev pub Represents : ℕ → String → p.redis.Store → Counter → Type 0
  Represents limit key s none = p.redis.entry s key ≡ none
  Represents limit key s (some (n, end)) =
      (0 < n)
      × (n ≤ limit)
      × (p.redis.entry s key ≡ some (record { value = format_int (pos n); deadline = some end }))

  -- The script at each of the times, from the keys that the one before left.
  unfoldable pub script_run : ℕ → ℕ → ℕ → String → List Time → p.redis.Store → List (Result ℤ)
  script_run limit seconds blocked key [] s = []
  script_run limit seconds blocked key (now ∷ times) s =
      let (r, s') = limiter_script p scripts key (pos limit) (pos seconds) (pos blocked) now s in
      r ∷ script_run limit seconds blocked key times s'

  module _ (limit seconds blocked : ℕ) (key : String) (fits : limit < 2 ^ 53)
      (window : IsExpire seconds) (blocks : IsExpire blocked) where
    current_count-counted :
        (s : p.redis.Store) (c : Counter) (now : Time)
        → Represents limit key s c
        → current_count p scripts (scripts.get s now key) ≡ pos (counted now c)
    current_count-counted s none now h = rw (scripts.get-live s now key, h) refl
    current_count-counted s (some (n, end)) now (positive, room, h) =
        rw (scripts.get-live s now key, h)
          (ground (arith, scripts.tonumber-format_int n (omega arith)))

    block_lem :
        (s : p.redis.Store) (now : Time)
        → ((block p scripts key (pos blocked) now s).0 ≡ ok (pos 0))
          × (p.redis.entry (block p scripts key (pos blocked) now s).1 key ≡ p.redis.entry s key)
    unfolding block
    block_lem s now = ground (
      arith,
      scripts.setex_valid s now (key ++ ":block") "1" blocked blocks,
      scripts.setex_ne s now (key ++ ":block") (pos blocked) "1" key
          (extended_ne key ":block" (λ e. cc)),
    )

    Represents-same :
        (s s' : p.redis.Store) (c : Counter)
        → p.redis.entry s' key ≡ p.redis.entry s key
        → Represents limit key s c
        → Represents limit key s' c
    Represents-same s s' none e h = e ∙ h
    Represents-same s s' (some (n, end)) e (positive, room, h) = (positive, room, e ∙ h)

    -- A first request, or the first after the window.
    pub count_first :
        (s : p.redis.Store) (now : Time)
        → 0 < limit
        → live now (p.redis.entry s key) ≡ none
        → ((count p scripts key (pos seconds) (pos 0) now s).0 ≡ ok (pos 1))
          × Represents limit key
              (count p scripts key (pos seconds) (pos 0) now s).1
              (some (1, now + seconds * 1000))
    unfolding count set_window
    count_first s now room absent =
        let (done, entry) = scripts.incr_absent s now key absent in
        let there : live now (p.redis.entry (scripts.incr s now key).1 key)
            ≡ some (format_int (pos 1)) =
          rw entry refl in
        let (set, expiring) =
          scripts.expire_present (scripts.incr s now key).1 now key (format_int (pos 1)) seconds
            there window in
        ground arith

    count_next :
        (s : p.redis.Store) (now end : Time) (n : ℕ)
        → suc n ≤ limit
        → now < end
        → Represents limit key s (some (n, end))
        → ((count p scripts key (pos seconds) (pos n) now s).0 ≡ ok (pos 1))
          × Represents limit key
              (count p scripts key (pos seconds) (pos n) now s).1
              (some (suc n, end))
    unfolding count
    count_next s now end n room before (positive, _, h) =
        let there : live now (p.redis.entry s key) ≡ some (format_int (pos n)) =
          rw h (ground arith) in
        let (done, entry) = scripts.incr_present s now key _ n h there (omega arith) in ground arith

    -- The test of the script and the one of the counter agree, and so do their branches.
    decided :
        (s : p.redis.Store) (c : Counter) (now : Time)
        → Represents limit key s c
        → let (b, c') = window_step limit seconds now c in
          let (r, s') =
            if leb limit (counted now c)
            then block p scripts key (pos blocked) now s
            else count p scripts key (pos seconds) (pos (counted now c)) now s in
          (r ≡ answer_of b) × Represents limit key s' c'
    unfolding window_step
    decided s none now h = elim (Bool-cases (leb limit 0)) [
      | inl over ↦ rw over ((block_lem s now).0, (block_lem s now).1 ∙ h)
      | inr under ↦ rw under (count_first s now (ground arith) (rw h refl))
    ]
    decided s (some (n, end)) now h = elim (Bool-cases (ltb now end)) [
      | inl before ↦ elim (Bool-cases (leb limit n)) [
        | inl over ↦
            rw (before, over)
              ((block_lem s now).0, Represents-same s _ (some (n, end)) (block_lem s now).1 h)
        | inr under ↦ rw (before, under) (count_next s now end n (ground arith) (ground arith) h)
      ]
      | inr over_time ↦ elim (Bool-cases (leb limit 0)) [
        | inl over ↦
            rw (over_time, over)
              ((block_lem s now).0, Represents-same s _ (some (n, end)) (block_lem s now).1 h)
        | inr under ↦
            rw (over_time, under) (count_first s now (ground arith) (rw h.2 (rw over_time refl)))
      ]
    ]

    -- One request.
    limiter_script-step :
        (s : p.redis.Store) (c : Counter) (now : Time)
        → Represents limit key s c
        → let (b, c') = window_step limit seconds now c in
          let (r, s') =
            limiter_script p scripts key (pos limit) (pos seconds) (pos blocked) now s in
          (r ≡ answer_of b) × Represents limit key s' c'
    unfolding limiter_script
    limiter_script-step s c now h = rw (current_count-counted s c now h) (decided s c now h)

    -- From keys that represent a counter, the script answers the requests of one address as the counter
    -- with a fixed window does, at any times, while nothing else writes the counter's key. The limit is
    -- below 2 ^ 53, and the window and the block time are whole seconds from 1 to below 2 ^ 40.
    pub script_run-window_run :
        (times : List Time) (s : p.redis.Store) (c : Counter)
        → Represents limit key s c
        → script_run limit seconds blocked key times s
          ≡ map answer_of (window_run limit seconds times c)
    unfolding script_run window_run
    script_run-window_run [] s c h = refl
    script_run-window_run (now ∷ times) s c h =
        let (b, c') = window_step limit seconds now c in
        let (r, s') = limiter_script p scripts key (pos limit) (pos seconds) (pos blocked) now s in
        let (answer, after) = limiter_script-step s c now h in
        ap₂ ◌∷◌ answer (script_run-window_run times s' c' after)
