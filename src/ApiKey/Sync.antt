-- ===== src/ApiKey/Sync.antt =====
-- SyncAPIKey: the keys that it leaves, and how long the old one counts.
use medods_dvortsov.Prelude.{
  ℕ, suc, ◌+◌, ◌*◌, ◌/◌, ◌≤◌, ◌<◌, String, ◌≡◌, ◌≢◌, refl, true, false, inl, inr, Option, none,
  some, List, [], ◌∷◌, arith, eq_refl, ==-false_of_ne, lt→ltb, le→leb, ◌==◌, if◌then◌else◌, ap, ◌∙◌,
}
use medods_dvortsov.Go.Errors.{Result, ok, err, panicked, Caught, returned, failed, errors_is}
use medods_dvortsov.Platform.{Platform}
use medods_dvortsov.Platform.Redis.{Entry, SetCommand, put_all}
use medods_dvortsov.Program.{program, wrap, ◌>>=◌, time_now, Worlds, redis_exec, when◌then◌else◌}
use medods_dvortsov.Program.Ends.{
  Ends, OnOk, value_of, Ends-pure, Ends-throw, Ends-wrap_ok, Ends-weaken_ok, Ends-then, Ends-when,
  Ends-attempt,
}
use medods_dvortsov.Program.Calls.{time_now-Ends}
use medods_dvortsov.ApiKey.{
  current_api_key_redis_key, old_api_key_redis_key, api_key_rotation_time_redis_key,
  default_api_key_redis_ttl, set_command, hash_api_key, same_hash, set_initial_api_key,
  rotation_commands, sync_against, sync_api_key, is_valid_api_key,
}
use medods_dvortsov.ApiKey.Check.{
  held, ReadCaught, redis_get-Ends, is_valid_api_key-Ends, in_grace, accepts,
}

-- The keys after a synchronisation at the event `n` that succeeds.
abbrev pub synced : Platform → (String → Option Entry) → ℕ → String → String → Option Entry
synced p keys n env_key =
    let now = p.host.clock (suc (suc n)) in
    let stamp = p.host.format_rfc3339 (p.host.clock (suc n)) in
    let hashed = hash_api_key p env_key in
    elim (held p keys n current_api_key_redis_key) [
      | none ↦
          put_all now
            (set_command current_api_key_redis_key hashed 0
              ∷ set_command api_key_rotation_time_redis_key stamp 0
              ∷ [])
            keys
      | some current ↦
          if same_hash hashed current
          then keys
          else put_all now (rotation_commands p current hashed stamp) keys
    ]

module _ (p : Platform) where
  executed :
      (r : Result (Unit {0})) (w : Worlds p) (Q : Worlds p → Type 0)
      → (r ≡ ok tt → Q w)
      → OnOk (λ _ v. Q v) r w
  executed (ok u) w Q h = h refl
  executed (err e) w Q h = tt
  executed panicked w Q h = tt

  redis_exec-Ends :
      (commands : List SetCommand) (j : String) (w : Worlds p)
      → Ends (redis_exec p commands) w (
          OnOk λ _ v.
            p.redis.entry v.store j
            ≡ put_all (p.host.clock w.events) commands (p.redis.entry w.store) j)
  unfolding program
  redis_exec-Ends commands j w = record {
    post =
        executed _ _
          (λ v.
            p.redis.entry v.store j
            ≡ put_all (p.host.clock w.events) commands (p.redis.entry w.store) j)
          (p.redis.entry-exec w.store (p.host.clock w.events) commands j);
  }

  -- The pipeline after the time is read, from the world that the first GET left.
  pipeline-Ends :
      (m : String) (commands : String → List SetCommand) (j : String) (w w₁ : Worlds p)
      → w₁.events ≡ suc w.events
      → p.redis.entry w₁.store ≡ p.redis.entry w.store
      → Ends
          (do now ← time_now p; wrap m (redis_exec p (commands (p.host.format_rfc3339 now))))
          w₁
          (OnOk λ _ v.
            p.redis.entry v.store j
            ≡ put_all
                (p.host.clock (suc (suc w.events)))
                (commands (p.host.format_rfc3339 (p.host.clock (suc w.events))))
                (p.redis.entry w.store)
                j)
  pipeline-Ends m commands j w w₁ later same = Ends-then _ _ (time_now-Ends p w₁) λ now w₂ at.
      let time : now ≡ p.host.clock (suc w.events) = at.0 ∙ ap p.host.clock later in
      let next : w₂.events ≡ suc (suc w.events) =
        ap (λ (v : Worlds p). v.events) at.1 ∙ ap suc later in
      let kept : p.redis.entry w₂.store ≡ p.redis.entry w.store =
        ap (λ (v : Worlds p). p.redis.entry v.store) at.1 ∙ same in
      Ends-wrap_ok _ _
        (rw (← next, ← time, ← kept) (redis_exec-Ends (commands (p.host.format_rfc3339 now)) j w₂))

  sync_found :
      (env_key j : String) (w w₁ : Worlds p) (r : Caught String)
      → (env_key == "") ≡ false
      → ReadCaught (held p (p.redis.entry w.store) w.events current_api_key_redis_key) r
      → w₁.events ≡ suc w.events
      → p.redis.entry w₁.store ≡ p.redis.entry w.store
      → Ends (sync_against p env_key r) w₁ (
          OnOk λ _ v. p.redis.entry v.store j ≡ synced p (p.redis.entry w.store) w.events env_key j)
  unfolding sync_against set_initial_api_key errors_is
  sync_found env_key j w w₁ (returned current) some_key read later same =
      Ends-when _ _ _
        (λ matched.
          Ends-pure _ (rw (read, matched, synced) (ap (λ (f : String → Option Entry). f j) same)))
        (λ other.
          rw (read, other, synced)
            (pipeline-Ends "failed to sync API key in Redis"
              (rotation_commands p current (hash_api_key p env_key)) j w w₁ later same))
  sync_found env_key j w w₁ (failed e) some_key (inl (is_nil, absent)) later same =
      Ends-when _ _ _
        (λ missing.
          Ends-when _ _ _ (λ empty. Ends-throw _ tt)
            (λ _.
              rw (absent, synced)
                (pipeline-Ends "init API key"
                  (λ stamp.
                    set_command current_api_key_redis_key (hash_api_key p env_key) 0
                    ∷ set_command api_key_rotation_time_redis_key stamp 0
                    ∷ [])
                  j w w₁ later same)))
        (λ present. Ends-throw _ tt)
  sync_found env_key j w w₁ (failed e) some_key (inr (m, other)) later same =
      Ends-when _ _ _ (λ missing. absurd (ground arith)) (λ present. Ends-throw _ tt)

  -- When SyncAPIKey succeeds, every key of Redis is as `synced` says.
  pub sync_api_key-Ends :
      (env_key j : String) (w : Worlds p)
      → Ends (sync_api_key p env_key) w (
          OnOk λ _ v. p.redis.entry v.store j ≡ synced p (p.redis.entry w.store) w.events env_key j)
  unfolding sync_api_key
  sync_api_key-Ends env_key j w =
      Ends-when _ _ _ (λ empty. Ends-throw _ tt)
        λ some_key.
          Ends-attempt _ _ (redis_get-Ends p current_api_key_redis_key w)
            (λ a w₁ k. sync_found env_key j w w₁ (returned a) some_key k.0 k.1 k.2)
            (λ e w₁ k. sync_found env_key j w w₁ (failed e) some_key k.0 k.1 k.2) (λ w₁ k. tt)

  -- The three entries that a rotation leaves.
  abbrev RotatedEntries : String → String → ℕ → (String → Option Entry) → Type 0
  RotatedEntries hashed old_hash n keys =
      (keys current_api_key_redis_key ≡ some (record { value = hashed; deadline = none }))
      × (keys old_api_key_redis_key
          ≡ some (record {
            value = old_hash;
            deadline = some (p.host.clock (suc (suc n)) + default_api_key_redis_ttl);
          }))
      × (keys api_key_rotation_time_redis_key
          ≡ some (record { value = p.host.format_rfc3339 (p.host.clock (suc n)); deadline = none }))

  synced_rotated :
      (env_key old_hash : String) (n : ℕ) (keys : String → Option Entry)
      → held p keys n current_api_key_redis_key ≡ some old_hash
      → hash_api_key p env_key ≢ old_hash
      → RotatedEntries (hash_api_key p env_key) old_hash n (synced p keys n env_key)
  synced_rotated env_key old_hash n keys was other =
      rw (was, ==-false_of_ne (hash_api_key p env_key) old_hash other, synced) (refl, refl, refl)

  accepts_new :
      (env_key old_hash : String) (n m : ℕ) (keys : String → Option Entry)
      → env_key ≢ ""
      → RotatedEntries (hash_api_key p env_key) old_hash n keys
      → accepts p keys m env_key ≡ true
  accepts_new env_key old_hash n m keys named (current, old, stamp) =
      rw (==-false_of_ne env_key "" named, current, eq_refl (hash_api_key p env_key)) refl

  accepts_old :
      (hashed old_key : String) (n m : ℕ) (keys : String → Option Entry)
      → old_key ≢ ""
      → hashed ≢ hash_api_key p old_key
      → RotatedEntries hashed (hash_api_key p old_key) n keys
      → p.host.clock (suc m) < p.host.clock (suc (suc n)) + default_api_key_redis_ttl
      → p.host.clock (suc (suc (suc m)))
        ≤ p.host.clock (suc n) / 1000 * 1000 + default_api_key_redis_ttl
      → accepts p keys m old_key ≡ true
  accepts_old hashed old_key n m keys named other (current, old, stamp) in_time graced =
      rw
        (
          ==-false_of_ne old_key "" named,
          current,
          ==-false_of_ne hashed (hash_api_key p old_key) other,
          old,
          lt→ltb _ _ in_time,
          eq_refl (hash_api_key p old_key),
          in_grace,
          stamp,
          p.host.parse-format_rfc3339 (p.host.clock (suc n)),
        )
        (le→leb _ _ graced)

  -- After a successful SyncAPIKey that replaced the key `old_key` by one with another hash, both not
  -- empty: while the entry written for the old key has not run out and 24 hours have not passed since
  -- the rotation, taken in whole seconds, an answer of IsValidAPIKey for the new key and one for the
  -- old key is true, if nothing else has written the keys in between.
  pub sync-is_valid :
      (env_key old_key : String) (w v : Worlds p)
      → env_key ≢ ""
      → old_key ≢ ""
      → held p (p.redis.entry w.store) w.events current_api_key_redis_key
        ≡ some (hash_api_key p old_key)
      → hash_api_key p env_key ≢ hash_api_key p old_key
      → (sync_api_key p env_key w).0 ≡ ok tt
      → ((j : String)
          → p.redis.entry v.store j ≡ p.redis.entry (sync_api_key p env_key w).1.store j)
      → p.host.clock (suc v.events) < p.host.clock (suc (suc w.events)) + default_api_key_redis_ttl
      → p.host.clock (suc (suc (suc v.events)))
        ≤ p.host.clock (suc w.events) / 1000 * 1000 + default_api_key_redis_ttl
      → Ends (is_valid_api_key p env_key) v (OnOk λ b _. b ≡ true)
        × Ends (is_valid_api_key p old_key) v (OnOk λ b _. b ≡ true)
  sync-is_valid env_key old_key w v named named_old was other done kept in_time graced =
      let at : (j : String)
          → p.redis.entry v.store j ≡ synced p (p.redis.entry w.store) w.events env_key j =
        λ j. kept j ∙ value_of (sync_api_key-Ends env_key j w) done in
      let (current, old, stamp) =
        synced_rotated env_key (hash_api_key p old_key) w.events (p.redis.entry w.store) was
          other in
      let entries : RotatedEntries (hash_api_key p env_key) (hash_api_key p old_key) w.events
          (p.redis.entry v.store) =
        (
          at current_api_key_redis_key ∙ current,
          at old_api_key_redis_key ∙ old,
          at api_key_rotation_time_redis_key ∙ stamp,
        ) in
      (
        Ends-weaken_ok (is_valid_api_key-Ends p env_key v) λ b u h.
            h.0 ∙ accepts_new env_key _ w.events v.events (p.redis.entry v.store) named entries,
        Ends-weaken_ok (is_valid_api_key-Ends p old_key v) λ b u h.
            h.0
            ∙ accepts_old _ old_key w.events v.events (p.redis.entry v.store) named_old other
                entries in_time graced,
      )
