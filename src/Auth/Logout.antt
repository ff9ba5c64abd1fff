-- ===== src/Auth/Logout.antt =====
-- Logout: the user's sessions are gone, and the access token is refused until it expires.
use medods_dvortsov.Prelude.{
  ℕ, suc, ◌+◌, ◌-◌, ◌≤◌, ◌<◌, String, ◌≡◌, refl, some, ℤ, pos, arith, reject, ap, ◌∙◌, eq_refl,
}
use medods_dvortsov.Go.Errors.{ok}
use medods_dvortsov.Models.{Time}
use medods_dvortsov.Platform.{Platform}
use medods_dvortsov.Platform.Redis.{Entry}
use medods_dvortsov.Platform.Jwt.{JwtClaims}
use medods_dvortsov.Program.{program, wrap, Worlds, Db}
use medods_dvortsov.Program.Ends.{
  Ends, OnOk, value_of, Ends-same, Ends-value, Ends-throw, Ends-wrap_ok, Ends-weaken_ok, Ends-then,
  Ends-ok, Ends-when,
}
use medods_dvortsov.Program.Calls.{step, lift-Ends, time_now-Ends}
use medods_dvortsov.Storage.Statements.{is_session_of}
use medods_dvortsov.Storage.Effects.{delete_all_user_sessions-Ends}
use medods_dvortsov.Denylist.{invalidated, invalidate_token}
use medods_dvortsov.Token.{
  TokenService, get_claims_from_token, expires_of, parse_user_id,
  validate_access_token_and_get_user_id, invalidate_access_token,
}
use medods_dvortsov.Token.Access.{found_at, is_access_token_invalidated-Ends, validate_revoked}
use medods_dvortsov.Auth.{authenticate_access_token, logout}

-- The entry that revokes a token from the event `n` on.
abbrev pub revoked_entry : (p : Platform) → ℕ → Time → Entry
revoked_entry p n expires = record {
  value = invalidated;
  deadline = some (p.host.clock (suc n) + (expires - p.host.clock n));
}

module _ (p : Platform) (ts : TokenService) where
  parse_user_id-Ends :
      (token : String) (w : Worlds p) → Ends (parse_user_id p ts token) w (OnOk λ _ v. v ≡ step w)
  unfolding parse_user_id
  parse_user_id-Ends token w = Ends-then _ _ (time_now-Ends p w) λ now w₁ at.
      Ends-then _ _ (Ends-wrap_ok _ _ (lift-Ends _ w₁))
        λ parsed w₂ h. Ends-weaken_ok (lift-Ends _ w₂) λ id w₃ k. k.1 ∙ h.1 ∙ at.1

  -- A check of an access token changes no table and no key.
  pub validate-Ends :
      (token : String) (w : Worlds p)
      → Ends (validate_access_token_and_get_user_id p ts token) w (
          OnOk λ _ v.
            (v.db ≡ w.db)
            × (v.events ≡ suc (suc w.events))
            × (p.redis.entry v.store ≡ p.redis.entry w.store))
  unfolding validate_access_token_and_get_user_id
  validate-Ends token w =
      Ends-then _ _ (Ends-wrap_ok _ _ (Ends-ok (is_access_token_invalidated-Ends p ts token w)))
        λ b w₁ k.
          Ends-when _ _ _ (λ revoked. Ends-throw _ tt)
            (λ fine. Ends-weaken_ok (parse_user_id-Ends token w₁) λ id w₂ h. ground arith)

  invalidate_token-Ends :
      (token : String) (d : ℤ) (w : Worlds p)
      → Ends (invalidate_token p token d) w (
          OnOk λ _ v.
            (v.db ≡ w.db)
            × (v.events ≡ suc w.events)
            × (v.store ≡ (p.redis.set w.store (p.host.clock w.events) token invalidated d).1)
            × ((p.redis.set w.store (p.host.clock w.events) token invalidated d).0 ≡ ok tt))
  unfolding program invalidate_token
  invalidate_token-Ends token d w = record { post = ground arith }

  invalidate_access_token_lem :
      (token : String) (claims : JwtClaims) (expires : Time) (w : Worlds p)
      → p.jwt.parse_unverified token ≡ ok claims
      → claims.expires_at ≡ some expires
      → p.host.clock w.events < expires
      → invalidate_access_token p ts token w
        ≡ wrap "invalidate token"
            (invalidate_token p token (pos (expires - p.host.clock w.events)))
            (step w)
  unfolding program invalidate_access_token get_claims_from_token expires_of
  invalidate_access_token_lem token claims expires w parsed has before = ground arith

  -- A SET with a positive expiration sets a deadline.
  revoked_by_set :
      (token : String) (expires : Time) (n : ℕ) (s : p.redis.Store)
      → p.host.clock n < expires
      → (p.redis.set s (p.host.clock (suc n)) token invalidated (pos (expires - p.host.clock n))).0
        ≡ ok tt
      → p.redis.entry
          (p.redis.set s
            (p.host.clock (suc n))
            token
            invalidated
            (pos (expires - p.host.clock n))).1
          token
        ≡ some (revoked_entry p n expires)
  revoked_by_set token expires n s before done =
      p.redis.entry-set s (p.host.clock (suc n)) token invalidated (expires - p.host.clock n) token
        done
      ∙ ground (arith, eq_refl token)

  invalidate_access_token-Ends :
      (token : String) (claims : JwtClaims) (expires : Time) (w : Worlds p)
      → p.jwt.parse_unverified token ≡ ok claims
      → claims.expires_at ≡ some expires
      → p.host.clock w.events < expires
      → Ends (invalidate_access_token p ts token) w (
          OnOk λ _ v.
            (v.db ≡ w.db) × (p.redis.entry v.store token ≡ some (revoked_entry p w.events expires)))
  unfolding invalidate_access_token
  invalidate_access_token-Ends token claims expires w parsed has before =
      Ends-same (invalidate_access_token_lem token claims expires w parsed has before) (
        Ends-wrap_ok _ _ (
          Ends-weaken_ok
            (invalidate_token-Ends token (pos (expires - p.host.clock w.events)) (step w))
            λ _ v h. (h.0, rw h.2 (revoked_by_set token expires w.events w.store before h.3))))

module _ (p : Platform) (ts : TokenService) (webhook_url : String) where
  -- When Logout succeeds with a token that carries an expiry, and the clock had not reached it after
  -- the check of the token: the token's key holds the mark of a revoked token, with a deadline later
  -- than the SET by the time that was left; the token had passed the check of access tokens, and the
  -- sessions of the user it names are deleted, with no other change of the tables.
  pub logout-Ends :
      (token : String) (claims : JwtClaims) (expires : Time) (w : Worlds p)
      → p.jwt.parse_unverified token ≡ ok claims
      → claims.expires_at ≡ some expires
      → p.host.clock (suc (suc w.events)) < expires
      → Ends (logout p ts webhook_url token) w (
          OnOk λ _ v.
            (p.redis.entry v.store token ≡ some (revoked_entry p (suc (suc w.events)) expires))
            × ((user_id : ℤ) × ((validate_access_token_and_get_user_id p ts token w).0 ≡ ok user_id)
                × (v.db ≡ record w.db { sessions = reject (is_session_of user_id) w.db.sessions })))
  unfolding logout
  logout-Ends token claims expires w parsed has before =
      Ends-then _ _ (Ends-wrap_ok _ _ (Ends-value (validate-Ends p ts token w)))
        λ user_id w₁ checked.
          Ends-then _ _
            (Ends-wrap_ok _ _ (
              invalidate_access_token-Ends p ts token claims expires w₁ parsed has
                (rw checked.0.1 before)))
            λ _ w₂ marked. Ends-wrap_ok _ _ (
              Ends-weaken_ok (delete_all_user_sessions-Ends p user_id w₂) λ _ v done. (
                rw (done.1, ← checked.0.1) marked.1,
                (
                  user_id,
                  checked.1,
                  done.0
                      ∙ ap
                          (λ (d : Db). record d {
                            sessions = reject (is_session_of user_id) d.sessions;
                          })
                          (marked.0 ∙ checked.0.0),
                ),
              ))

  found_while_live :
      (token : String) (e : Entry) (deadline : Time) (v : Worlds p)
      → p.redis.entry v.store token ≡ some e
      → e.deadline ≡ some deadline
      → p.host.clock v.events < deadline
      → found_at p token v ≡ some e.value
  found_while_live token e deadline v has at before = ground arith

  -- After a Logout that succeeded before its token's expiry, the token is not accepted again until it
  -- expires, whatever the services answer: the clock must not run backwards, and the token's key must
  -- still hold what Logout wrote.
  pub logout_refuses :
      (clock_le : (a b : ℕ) → a ≤ b → p.host.clock a ≤ p.host.clock b) (token : String)
      (claims : JwtClaims) (expires : Time) (w v : Worlds p)
      → p.jwt.parse_unverified token ≡ ok claims
      → claims.expires_at ≡ some expires
      → p.host.clock (suc (suc w.events)) < expires
      → (logout p ts webhook_url token w).0 ≡ ok tt
      → p.redis.entry v.store token ≡ p.redis.entry (logout p ts webhook_url token w).1.store token
      → p.host.clock v.events < expires
      → Ends (authenticate_access_token p ts webhook_url token) v (OnOk λ _ _. ⊥)
  unfolding authenticate_access_token
  logout_refuses clock_le token claims expires w v parsed has before done kept early =
      let n = suc (suc w.events) in
      let written = (value_of (logout-Ends token claims expires w parsed has before) done).0 in
      Ends-wrap_ok _ _ (
        validate_revoked p ts token v (
          found_while_live token (revoked_entry p n expires) _ v (kept ∙ written) refl
            (omega (arith, clock_le n (suc n), early, before))))
