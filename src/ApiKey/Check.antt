-- ===== src/ApiKey/Check.antt =====
-- IsValidAPIKey: which keys it accepts.
use medods_dvortsov.Prelude.{
  ℕ, suc, ◌+◌, String, ◌≡◌, ◌≢◌, refl, ◌⊎◌, Bool, true, false, Option, none, some, List, [], ◌∷◌,
  length, sym, arith, eq_iff, ==-false_of_ne, ◌==◌, leb, if◌then◌else◌, not, ◌&&◌, ap, ◌∙◌,
}
use medods_dvortsov.Go.Hex
use medods_dvortsov.Go.Hex.RoundTrip.{decode-encode}
use medods_dvortsov.Go.Errors.{
  Result, ok, err, panicked, Caught, returned, failed, errors_is, sentinel, foreign, redis_nil,
}
use medods_dvortsov.Platform.{Platform}
use medods_dvortsov.Platform.Redis.{Entry, live, answer}
use medods_dvortsov.Program.{program, Worlds, redis_get, when◌then◌else◌, pure, ◌>>=◌}
use medods_dvortsov.Program.Ends.{
  Ends, OnOk, Ends-pure, Ends-wrap_ok, Ends-weaken_ok, Ends-then, Ends-ok, Ends-when, Ends-attempt,
}
use medods_dvortsov.Program.Calls.{lift-Ends, time_now-Ends}
use medods_dvortsov.ApiKey.{
  current_api_key_redis_key, old_api_key_redis_key, api_key_rotation_time_redis_key,
  default_api_key_redis_ttl, hash_api_key, same_hash, value_or_empty, within_grace, check_old,
  is_valid_api_key,
}

-- What a GET of the key answers at the event, or "".
abbrev pub text_of : Option String → String
text_of none = ""
text_of (some v) = v

abbrev pub held : (p : Platform) → (String → Option Entry) → ℕ → String → Option String
held p keys n key = live (p.host.clock n) (keys key)

-- What a GET ends with, by what the key holds: a failure of the call comes with an error of its own.
abbrev pub Read : Option String → Result String → Type 0
Read o (ok a) = o ≡ some a
Read o (err e) = (e ≡ sentinel redis_nil) × (o ≡ none) ⊎ ((m : String) × (e ≡ foreign m))
Read o panicked = ⊥

abbrev pub ReadCaught : Option String → Caught String → Type 0
ReadCaught o (returned a) = Read o (ok a)
ReadCaught o (failed e) = Read o (err e)

abbrev pub holds : Option String → String → Bool
holds none hashed = false
holds (some v) hashed = v == hashed

same_hash-text_of :
    (o : Option String) (hashed : String)
    → hashed ≢ ""
    → same_hash hashed (text_of o) ≡ holds o hashed
same_hash-text_of none hashed h = ==-false_of_ne hashed "" h
same_hash-text_of (some v) hashed h = ground (arith, eq_iff hashed v, eq_iff v hashed)

same_old-text_of :
    (o : Option String) (hashed : String)
    → hashed ≢ ""
    → (not (text_of o == "") && same_hash hashed (text_of o)) ≡ holds o hashed
same_old-text_of none hashed h = refl
same_old-text_of (some v) hashed h =
    ground (arith, eq_iff v "", eq_iff hashed v, eq_iff v hashed, ==-false_of_ne hashed "" h)

-- Which keys are valid at the event `n`: the one whose hash is current, and for 24 hours from the
-- rotation the one whose hash is the old one.
abbrev pub in_grace : Platform → (String → Option Entry) → ℕ → Bool
in_grace p keys n = elim (held p keys n api_key_rotation_time_redis_key) [
  | none ↦ false
  | some stamp ↦ elim (p.host.parse_rfc3339 stamp) [
    | ok rotation ↦ leb (p.host.clock (suc n)) (rotation + default_api_key_redis_ttl)
    | err _ ↦ false
    | panicked ↦ false
  ]
]

abbrev pub accepts : Platform → (String → Option Entry) → ℕ → String → Bool
accepts p keys n key =
    if key == ""
    then false
    else if holds (held p keys n current_api_key_redis_key) (hash_api_key p key)
    then true
    else if holds (held p keys (suc n) old_api_key_redis_key) (hash_api_key p key)
    then in_grace p keys (suc (suc n))
    else false

decode-empty : Hex.decode "" ≡ some []
unfolding Hex.decode
decode-empty = refl

not_empty : (bs : List ℕ) → length bs ≡ 32 → ◌≡◌ {A = Option (List ℕ)} (some bs) (some []) → ⊥
not_empty [] h e = absurd (omega (arith, h))
not_empty (b ∷ bs) h e = cc

module _ (p : Platform) where
  pub hash_api_key-ne : (key : String) → hash_api_key p key ≢ ""
  hash_api_key-ne key h =
      let bs = p.host.sum256 key in
      not_empty bs (p.host.length-sum256 key)
        (sym (decode-encode bs (p.host.sum256_bytes key)) ∙ ap Hex.decode h ∙ decode-empty)

  answer-Read :
      (o : Option String) (r : Result String)
      → (r ≡ answer o) ⊎ ((m : String) × (r ≡ err (foreign m)))
      → Read o r
  answer-Read o (ok a) h = ground arith
  answer-Read o (err e) h = ground arith
  answer-Read o panicked h = ground arith

  pub redis_get-Ends :
      (key : String) (w : Worlds p)
      → Ends (redis_get p key) w (λ r v.
        Read (held p (p.redis.entry w.store) w.events key) r
        × (v.events ≡ suc w.events)
        × (p.redis.entry v.store ≡ p.redis.entry w.store))
  unfolding program
  redis_get-Ends key w = record {
    post = (
      answer-Read _ _ (p.redis.get-answer w.store (p.host.clock w.events) key),
      refl,
      p.redis.entry-get w.store (p.host.clock w.events) key,
    );
  }

  value_or_empty-Ends :
      (m : String) (o : Option String) (r : Caught String) (w : Worlds p)
      → ReadCaught o r
      → Ends (value_or_empty p m r) w (OnOk λ value v. (value ≡ text_of o) × (v ≡ w))
  unfolding program value_or_empty errors_is
  value_or_empty-Ends m o (returned a) w h = record { post = ground arith }
  value_or_empty-Ends m o (failed e) w h = record { post = ground arith }

  within_grace-Ends :
      (w : Worlds p)
      → Ends (within_grace p) w (
          OnOk λ b v.
            (b ≡ in_grace p (p.redis.entry w.store) w.events)
            × (p.redis.entry v.store ≡ p.redis.entry w.store))
  unfolding within_grace
  within_grace-Ends w =
      Ends-then _ _ (Ends-wrap_ok _ _ (Ends-ok (redis_get-Ends api_key_rotation_time_redis_key w)))
        λ stamp w₁ read.
          Ends-then _ _ (Ends-wrap_ok _ _ (lift-Ends (p.host.parse_rfc3339 stamp) w₁))
            λ rotation w₂ parsed.
              Ends-then _ _ (time_now-Ends p w₂) λ now w₃ at. Ends-pure _ (ground arith)

  old_found :
      (hashed : String) (w w₁ : Worlds p) (r : Caught String)
      → hashed ≢ ""
      → ReadCaught (held p (p.redis.entry w.store) w.events old_api_key_redis_key) r
      → w₁.events ≡ suc w.events
      → p.redis.entry w₁.store ≡ p.redis.entry w.store
      → Ends
          (do
            old ← value_or_empty p "failed to get old API key from Redis" r
            when not (old == "") && same_hash hashed old then within_grace p else pure false)
          w₁
          (OnOk λ b v.
            (b ≡ (
              if holds (held p (p.redis.entry w.store) w.events old_api_key_redis_key) hashed
              then in_grace p (p.redis.entry w.store) (suc w.events)
              else false))
            × (p.redis.entry v.store ≡ p.redis.entry w.store))
  old_found hashed w w₁ r h read later same =
      Ends-then _ _ (value_or_empty-Ends "failed to get old API key from Redis" _ r w₁ read)
        λ old w₂ k.
          let o = held p (p.redis.entry w.store) w.events old_api_key_redis_key in
          let test : (not (old == "") && same_hash hashed old) ≡ holds o hashed =
            rw (k.0) (same_old-text_of o hashed h) in
          let kept : p.redis.entry w₂.store ≡ p.redis.entry w.store =
            ap (λ (v : Worlds p). p.redis.entry v.store) k.1 ∙ same in
          let at : w₂.events ≡ suc w.events = ap (λ (v : Worlds p). v.events) k.1 ∙ later in
          Ends-when _ _ _
            (λ matched.
              Ends-weaken_ok (within_grace-Ends w₂)
                λ b v graced. rw (sym test ∙ matched) (rw (← kept, ← at) graced))
            (λ other. Ends-pure _ (rw (sym test ∙ other) (refl, kept)))

  check_old-Ends :
      (hashed : String) (w : Worlds p)
      → hashed ≢ ""
      → Ends (check_old p hashed) w (
          OnOk λ b v.
            (b ≡ (
              if holds (held p (p.redis.entry w.store) w.events old_api_key_redis_key) hashed
              then in_grace p (p.redis.entry w.store) (suc w.events)
              else false))
            × (p.redis.entry v.store ≡ p.redis.entry w.store))
  unfolding check_old
  check_old-Ends hashed w h =
      Ends-attempt _ _ (redis_get-Ends old_api_key_redis_key w)
        (λ a w₁ k. old_found hashed w w₁ (returned a) h k.0 k.1 k.2)
        (λ e w₁ k. old_found hashed w w₁ (failed e) h k.0 k.1 k.2) (λ w₁ k. tt)

  current_found :
      (key : String) (w w₁ : Worlds p) (r : Caught String)
      → (key == "") ≡ false
      → ReadCaught (held p (p.redis.entry w.store) w.events current_api_key_redis_key) r
      → w₁.events ≡ suc w.events
      → p.redis.entry w₁.store ≡ p.redis.entry w.store
      → Ends
          (do
            current ← value_or_empty p "failed to get current API key from Redis" r
            when same_hash (hash_api_key p key) current
                then pure true
                else check_old p (hash_api_key p key))
          w₁
          (OnOk λ b v.
            (b ≡ accepts p (p.redis.entry w.store) w.events key)
            × (p.redis.entry v.store ≡ p.redis.entry w.store))
  current_found key w w₁ r some_key read later same =
      Ends-then _ _ (value_or_empty-Ends "failed to get current API key from Redis" _ r w₁ read)
        λ current w₂ k.
          let o = held p (p.redis.entry w.store) w.events current_api_key_redis_key in
          let test : same_hash (hash_api_key p key) current ≡ holds o (hash_api_key p key) =
            rw (k.0) (same_hash-text_of o (hash_api_key p key) (hash_api_key-ne key)) in
          let kept : p.redis.entry w₂.store ≡ p.redis.entry w.store =
            ap (λ (v : Worlds p). p.redis.entry v.store) k.1 ∙ same in
          let at : w₂.events ≡ suc w.events = ap (λ (v : Worlds p). v.events) k.1 ∙ later in
          Ends-when _ _ _ (λ matched. Ends-pure _ (rw (some_key, sym test ∙ matched) (refl, kept)))
            (λ other.
              Ends-weaken_ok (check_old-Ends (hash_api_key p key) w₂ (hash_api_key-ne key))
                λ b v checked. rw (some_key, sym test ∙ other) (rw (← kept, ← at) checked))

  -- When IsValidAPIKey returns an answer, that is what `accepts` says of the keys in Redis, and the
  -- keys are unchanged.
  pub is_valid_api_key-Ends :
      (key : String) (w : Worlds p)
      → Ends (is_valid_api_key p key) w (
          OnOk λ b v.
            (b ≡ accepts p (p.redis.entry w.store) w.events key)
            × (p.redis.entry v.store ≡ p.redis.entry w.store))
  unfolding is_valid_api_key
  is_valid_api_key-Ends key w =
      Ends-when _ _ _ (λ empty. Ends-pure _ (rw empty (refl, refl)))
        λ some_key.
          Ends-attempt _ _ (redis_get-Ends current_api_key_redis_key w)
            (λ a w₁ k. current_found key w w₁ (returned a) some_key k.0 k.1 k.2)
            (λ e w₁ k. current_found key w w₁ (failed e) some_key k.0 k.1 k.2) (λ w₁ k. tt)
