-- ===== src/Auth/Presented.antt =====
-- The pair of tokens that IssueTokens or RefreshTokens returns passes the checks of RefreshTokens.
use medods_dvortsov.Prelude.{ℕ, String, ◌≡◌, refl, some, ℤ, List, ◌∷◌, find, eq_refl, ap, ◌∙◌}
use medods_dvortsov.Go.Errors.{ok}
use medods_dvortsov.Go.Strings.{split}
use medods_dvortsov.Models.{time_add, Time, RefreshSession, UserMetadata}
use medods_dvortsov.Platform.{Platform}
use medods_dvortsov.Platform.Jwt.{JwtClaims}
use medods_dvortsov.Program.{SessionRow, Db, Worlds}
use medods_dvortsov.Program.Ends.{
  Ends, OnOk, Ends-pure, Ends-wrap_ok, Ends-weaken_ok, Ends-then, Ends-ok,
}
use medods_dvortsov.Program.Calls.{lift-Ends, time_now-Ends, new_uuid-Ends}
use medods_dvortsov.Storage.Statements.{is_active_with, row_session}
use medods_dvortsov.Storage.Effects.{stored}
use medods_dvortsov.Storage.Issue.{issue_tokens_tx-Atomic}
use medods_dvortsov.Token.{
  TokenService, two_parts, access_claims, create_access_token_with_jti, refresh_token_from,
  validate_refresh_token,
}
use medods_dvortsov.Token.Access.{signed_of_created}
use medods_dvortsov.Token.Refresh.{refresh_token_round_trip}
use medods_dvortsov.Auth.{new_session, issue_tokens, refresh_tokens}
use medods_dvortsov.Auth.Rotation.{create_refresh_token-Ends}
use medods_dvortsov.Auth.Refresh.{refresh_tokens-Granted}

-- The tokens pass every check of RefreshTokens on the tables, for the same client.
pub record Presentable (p : Platform) (ts : TokenService) (meta : UserMetadata) (d : Db)
    (tokens : String × String) : Type 0 where
  pub claims : JwtClaims
  pub selector : String
  pub verifier : String
  pub session : RefreshSession
  pub claimed : p.jwt.parse_unverified tokens.0 ≡ ok claims
  pub parts : two_parts (split b'.' tokens.1) ≡ some (selector, verifier)
  pub active : row_session (find (is_active_with selector) d.sessions) ≡ some session
  pub same_token : session.access_token_jti ≡ claims.id
  pub same_agent : session.user_agent ≡ meta.user_agent
  pub valid : validate_refresh_token p ts tokens.1 session.verifier_hash ≡ ok tt

module _ (p : Platform) (ts : TokenService) (meta : UserMetadata) where
  checks_pass :
      (user_id : ℤ) (now expires : Time) (jti access : String) (raw : List ℕ) (n : ℕ)
      (rest : List SessionRow) (d : Db)
      → create_access_token_with_jti p ts user_id now jti ≡ ok access
      → let (_, selector, hash) = refresh_token_from p ts raw in
        d.sessions ≡ stored n user_id (new_session selector hash meta jti now expires) ∷ rest
        → Presentable p ts meta d (access, (refresh_token_from p ts raw).0)
  checks_pass user_id now expires jti access raw n rest d made inserted =
      let (valid, (verifier, parts)) = refresh_token_round_trip p ts raw in
      let (_, selector, hash) = refresh_token_from p ts raw in
      let row = stored n user_id (new_session selector hash meta jti now expires) in
      record {
        claims = access_claims p ts user_id now jti;
        selector = selector;
        verifier = verifier;
        session = row.session;
        claimed =
            p.jwt.parse_unverified-signed ts.jwt_secret_key _ _ access (p.jwt.numeric_date_idem now)
              refl (p.jwt.numeric_date_idem (time_add now ts.access_ttl))
              (signed_of_created p ts user_id now jti access made);
        parts = parts;
        active = rw (inserted) (rw (eq_refl selector) refl);
        same_token = refl;
        same_agent = refl;
        valid = valid;
      }

  checks_pass_made :
      (user_id : ℤ) (now expires : Time) (jti access : String) (made : String × String × String)
      (n : ℕ) (rest : List SessionRow) (d : Db)
      → ((raw : List ℕ) × (made ≡ refresh_token_from p ts raw))
      → create_access_token_with_jti p ts user_id now jti ≡ ok access
      → d.sessions ≡ stored n user_id (new_session made.1 made.2 meta jti now expires) ∷ rest
      → Presentable p ts meta d (access, made.0)
  checks_pass_made user_id now expires jti access made n rest d (raw, e) signed inserted =
      rw (e) (checks_pass user_id now expires jti access raw n rest d signed (rw (← e) inserted))

module _ (p : Platform) (ts : TokenService) (webhook_url : String) where
  -- The pair of tokens that IssueTokens returns passes every check of RefreshTokens, for the same
  -- client, on the tables that IssueTokens leaves.
  pub issue_tokens-Presentable :
      (guid : String) (meta : UserMetadata) (w : Worlds p)
      → Ends
          (issue_tokens p ts webhook_url guid meta)
          w
          (OnOk λ tokens v. Presentable p ts meta v.db tokens)
  unfolding issue_tokens
  issue_tokens-Presentable guid meta w = Ends-then _ _ (time_now-Ends p w) λ now w₁ _.
      Ends-then _ _ (new_uuid-Ends p w₁) λ jti w₂ _.
        Ends-then _ _ (Ends-wrap_ok _ _ (create_refresh_token-Ends p ts w₂)) λ made w₃ k.
          Ends-then _ _ (Ends-wrap_ok _ _ (Ends-ok (issue_tokens_tx-Atomic p guid _ w₃)))
            λ user w₄ issued. Ends-then _ _ (Ends-wrap_ok _ _ (lift-Ends _ w₄)) λ access w₅ signed.
              Ends-pure _ (
                checks_pass_made p ts meta user.id now _ jti access made w₃.db.sessions_seq
                  w₃.db.sessions w₅.db k.0 signed.0
                  (ap (λ (v : Worlds p). v.db.sessions) signed.1 ∙ issued.session))

  -- The pair of tokens that RefreshTokens returns passes every check of RefreshTokens again, for the
  -- same client, on the tables that the call leaves.
  pub refresh_tokens-Presentable :
      (access_token refresh_token : String) (meta : UserMetadata) (w : Worlds p)
      → Ends
          (refresh_tokens p ts webhook_url access_token refresh_token meta)
          w
          (OnOk λ tokens v. Presentable p ts meta v.db tokens)
  refresh_tokens-Presentable access_token refresh_token meta w =
      Ends-weaken_ok (refresh_tokens-Granted p ts webhook_url access_token refresh_token meta w)
        λ (access, refresh) v granted.
          let r = granted.renewed in
          let whole : Presentable p ts meta v.db (access, (refresh_token_from p ts r.raw).0) =
            checks_pass p ts meta granted.session.user_id r.now _ r.jti access r.raw _ _ v.db
              r.access r.rotated.sessions in
          rw (r.refresh) whole
