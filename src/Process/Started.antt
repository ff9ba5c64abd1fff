-- ===== src/Process/Started.antt =====
-- What holds once the process listens.
use medods_dvortsov.Prelude.{
  false, ◌⊎◌, ℕ, String, ◌≡◌, ◌≢◌, refl, true, Option, none, some, ap, ◌∙◌, eq_iff, ◌==◌, arith,
  if◌then◌else◌,
}
use medods_dvortsov.Go.Errors.{ok, Caught, returned, failed}
use medods_dvortsov.Platform.{Platform}
use medods_dvortsov.Program.{Worlds, Action, wrap}
use medods_dvortsov.Program.Ends.{
  Ends, OnOk, value_of, Ends-pure, Ends-throw, Ends-then, Ends-wrap_ok, Ends-ok, Ends-value,
  Ends-weaken_ok,
}
use medods_dvortsov.Program.Calls.{lift-Ends}
use medods_dvortsov.Program.Evolves.{Evolves, Quiet, quiet_rules}
use medods_dvortsov.ApiKey.{
  set_initial_api_key, sync_against, sync_api_key, hash_api_key, is_valid_api_key,
}
use medods_dvortsov.ApiKey.Accepted.{IsLasting, OneOf, sync_api_key-named, sync_api_key-accepts}
use medods_dvortsov.Config.{
  Environment, TokenConfig, new_token_config, new_rate_limiter_config, new_server_config,
  get_webhook_url, new_db_config, new_redis_config,
}
use medods_dvortsov.Storage.Invariant.{IsValid}
use medods_dvortsov.Process.Shutdown.{Process, Run, launched}
use medods_dvortsov.Process.Order.{Ordered, launched-Ordered}
use medods_dvortsov.Process.Startup.{
  Outside, ApiServer, new_token_service, new_api, required, new_db_connection, run_migrations,
  new_redis_client, start,
}

module _ (p : Platform) (outside : Outside p) where
  sync_against-Quiet : (key : String) (r : Caught String) → Evolves Quiet (sync_against p key r)
  unfolding sync_against set_initial_api_key
  sync_against-Quiet key (returned v) = search quiet_rules
  sync_against-Quiet key (failed e) = search quiet_rules

  sync_api_key-Quiet : (key : String) → Evolves Quiet (sync_api_key p key)
  unfolding sync_api_key
  sync_api_key-Quiet key = search (quiet_rules, sync_against-Quiet)

  -- The tables and Redis are those of `w`.
  abbrev pub Kept : Worlds p → Worlds p → Type 0
  Kept w v = (v.db ≡ w.db) × (v.store ≡ w.store)

  required-Ends :
      {A : Type 0} (m : String) (o : Option A) (w : Worlds p)
      → Ends (required p outside m o) w (OnOk λ a v. (o ≡ some a) × (v ≡ w))
  unfolding required
  required-Ends m none w = Ends-throw _ tt
  required-Ends m (some a) w = Ends-pure _ (refl, refl)

  nonempty :
      (m : String) (A : Type 0) (o : Option A) (a : A)
      → (if m == "" then none else o) ≡ some a
      → m ≢ ""
  nonempty m A o a h empty = ground (arith, eq_iff m "")

  wrapped-Kept :
      (m : String) (act : Action p Unit) (w : Worlds p)
      → Kept w (act w).1
      → Ends (wrap m act) w (OnOk λ _ v. Kept w v)
  wrapped-Kept m act w h = Ends-wrap_ok _ _ (Ends-ok {R = λ _ v. Kept w v} (record { post = h }))

  new_db_connection-Ends :
      (env : Environment) (w : Worlds p)
      → Ends (new_db_connection p outside env) w (OnOk λ _ v. Kept w v × (env "DATABASE_URL" ≢ ""))
  unfolding new_db_connection
  new_db_connection-Ends env w =
      Ends-then _ _ (required-Ends _ (new_db_config env) w) λ config w₁ (set, same).
        Ends-then _ _ (Ends-wrap_ok _ _ (lift-Ends (outside.sql_open config.dsn) w₁))
          λ u w₂ (_, same').
            Ends-weaken_ok (wrapped-Kept _ _ w₂ (outside.ping_keeps config.dsn w₂))
              λ u v kept. (rw (← same' ∙ same) kept, nonempty _ _ _ _ set)

  new_redis_client-Ends :
      (env : Environment) (w : Worlds p)
      → Ends (new_redis_client p outside env) w (OnOk λ _ v. (v ≡ w) × (env "REDIS_ADDR" ≢ ""))
  unfolding new_redis_client
  new_redis_client-Ends env w =
      Ends-then _ _ (required-Ends _ (new_redis_config env) w)
        λ config w₁ (set, same). Ends-pure _ (same, nonempty _ _ _ _ set)

  -- What the environment's settings make of the server.
  abbrev pub configured : Environment → TokenConfig → ApiServer p
  configured env tokens =
      new_api p outside (new_token_service tokens) (get_webhook_url env)
        (new_rate_limiter_config outside.scaled env) (new_server_config outside.scaled env)

  -- The process listens, from `w`, with the world `v`: every setting that has no default is there,
  -- the server is put together from the settings, and SyncAPIKey has succeeded on the tables and the
  -- keys of `w`.
  abbrev pub Listens : Environment → Worlds p → ApiServer p → Worlds p → Type 0
  Listens env w server v =
      (env "DATABASE_URL" ≢ "")
      × (env "REDIS_ADDR" ≢ "")
      × (env "AUTH_SERVICE_API_KEY" ≢ "")
      × (v.db ≡ w.db)
      × ((tokens : TokenConfig) × (new_token_config outside.scaled env ≡ some tokens)
          × (server ≡ configured env tokens))
      × ((u : Worlds p) × Kept w u
          × ((sync_api_key p (env "AUTH_SERVICE_API_KEY") u).0 ≡ ok tt)
          × (v ≡ (sync_api_key p (env "AUTH_SERVICE_API_KEY") u).1))

  synchronizes :
      (key : String) (w : Worlds p)
      → Ends
          (sync_api_key p key)
          w
          (OnOk λ _ v. ((sync_api_key p key w).0 ≡ ok tt) × (v ≡ (sync_api_key p key w).1))
  synchronizes key w =
      Ends-weaken_ok
        (Ends-value (Ends-ok {R = λ _ v. v ≡ (sync_api_key p key w).1} (record { post = refl })))
        λ _ v (at, done). (done, at)

  -- When the start comes to its end, without `log.Fatal`, `Listens` holds of what it leaves.
  pub start-Ends :
      (env : Environment) (w : Worlds p)
      → Ends (start p outside env) w (OnOk λ server v. Listens env w server v)
  unfolding start run_migrations
  start-Ends env w = Ends-then _ _ (new_db_connection-Ends env w) λ _ w₁ (kept, dsn).
      Ends-then _ _ (wrapped-Kept _ _ w₁ (outside.goose_keeps "./internal/migrations" w₁))
        λ _ w₂ kept'. Ends-then _ _ (new_redis_client-Ends env w₂) λ _ w₃ (same, addr).
          Ends-then _ _ (synchronizes (env "AUTH_SERVICE_API_KEY") w₃) λ _ w₄ (done, at).
            Ends-then _ _ (required-Ends _ (new_token_config outside.scaled env) w₄)
              λ tokens w₅ (set, same').
                Ends-then _ _ (lift-Ends outside.get_swagger w₅) λ _ w₆ (_, same''). Ends-pure _ (
                  dsn,
                  addr,
                  sync_api_key-named p (env "AUTH_SERVICE_API_KEY") w₃ done,
                  ap (λ (x : Worlds p). x.db) (same'' ∙ same' ∙ at)
                      ∙ ((sync_api_key-Quiet (env "AUTH_SERVICE_API_KEY")).at w₃).0
                      ∙ rw (same) (kept'.0 ∙ kept.0),
                  (tokens, set, refl),
                  (w₃, rw (same) (kept'.0 ∙ kept.0, kept'.1 ∙ kept.1), done, same'' ∙ same' ∙ at),
                )

  -- Where the process listens on keys that are as SyncAPIKey left them, and the current key had no
  -- deadline before the start: an answer of IsValidAPIKey for the key of the environment is true, and
  -- one for any key is false, or the key has that key's hash, or one that stood under the current or
  -- the old key before the start.
  pub start-accepts :
      (env : Environment) (key : String) (w v : Worlds p) (server : ApiServer p)
      → IsLasting (p.redis.entry w.store)
      → (start p outside env w).0 ≡ ok server
      → ((j : String) → p.redis.entry v.store j ≡ p.redis.entry (start p outside env w).1.store j)
      → Ends (is_valid_api_key p (env "AUTH_SERVICE_API_KEY")) v (OnOk λ b _. b ≡ true)
        × Ends (is_valid_api_key p key) v (
            OnOk λ b _.
              (b ≡ false)
              ⊎ OneOf p (p.redis.entry w.store) (env "AUTH_SERVICE_API_KEY") (hash_api_key p key))
  start-accepts env key w v server forever started kept =
      let (_, _, _, _, _, after) = value_of (start-Ends env w) started in
      let (u, (_, stored), done, at) = after in
      let entries : p.redis.entry u.store ≡ p.redis.entry w.store = ap p.redis.entry stored in
      let forever' : IsLasting (p.redis.entry u.store) = rw (entries) forever in
      let (new, known) =
        sync_api_key-accepts p (env "AUTH_SERVICE_API_KEY") key u v forever' done
          (λ j. kept j ∙ ap (λ (x : Worlds p). p.redis.entry x.store j) at) in
      (new, rw (← entries) known)

  -- From a start on valid tables on, in every state that the process reaches the tables are valid, and
  -- the cleanup functions run in their order, the database's first, and none before Shutdown has
  -- returned: from then on no request is in flight, or the time that Shutdown was given is over.
  pub process-Ordered :
      (env : Environment) (w : Worlds p) (server : ApiServer p) {n : ℕ} {t : Process p}
      → IsValid w.db
      → (start p outside env w).0 ≡ ok server
      → Run server.api server.graceful_timeout (launched (start p outside env w).1) n t
      → IsValid t.world.db × Ordered t.phase t
  process-Ordered env w server v started run =
      let (_, _, _, same, _, _) = value_of (start-Ends env w) started in
      launched-Ordered server.api server.graceful_timeout (start p outside env w).1 (rw (same) v)
        run
