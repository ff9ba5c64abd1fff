-- ===== src/Auth/Race.antt =====
-- Two calls of RefreshTokens with one refresh token, the second of which has looked its session up
-- before the first one rotated it.
use medods_dvortsov.Prelude.{
  ℕ, suc, String, ◌≡◌, false, none, some, arith, ◌<◌, find, any, eq_iff, List, ◌∷◌,
}
use medods_dvortsov.Go.Errors.{ok}
use medods_dvortsov.Go.Strings.{split}
use medods_dvortsov.Models.{RefreshSession, User, UserMetadata}
use medods_dvortsov.Platform.{Platform}
use medods_dvortsov.Platform.Machine.{answered}
use medods_dvortsov.Program.{program, IpChange, Worlds}
use medods_dvortsov.Program.Ends.{value_of}
use medods_dvortsov.Storage.Statements.{
  max_serial, has_id, is_active_with, has_selector, row_session,
}
use medods_dvortsov.Token.{
  TokenService, raw_token_length, access_claims, two_parts, validate_refresh_token,
  refresh_token_from,
}
use medods_dvortsov.Webhook.{notify_ip_change}
use medods_dvortsov.Auth.{refresh_active, refresh_tokens, notify_if_moved}
use medods_dvortsov.Auth.Refresh.{refresh_tokens-Granted}
use medods_dvortsov.Auth.Replay.{spent}
use medods_dvortsov.Auth.Progress.{rotate_succeeds}

module _ (p : Platform) (ts : TokenService) (webhook_url : String)
    (answers : (n : ℕ) → p.host.reply n ≡ answered) where
  refresh_active_unmoved :
      (jti selector token : String) (meta : UserMetadata) (s : RefreshSession) (v : Worlds p)
      (u : User) (raw : List ℕ) (signed_token : String)
      → s.access_token_jti ≡ jti
      → s.user_agent ≡ meta.user_agent
      → validate_refresh_token p ts token s.verifier_hash ≡ ok tt
      → v.db.sessions_seq < max_serial
      → p.host.random (suc (suc v.events)) raw_token_length ≡ ok raw
      → any (has_selector (refresh_token_from p ts raw).1) v.db.sessions ≡ false
      → find (has_id s.user_id) v.db.users ≡ some u
      → p.jwt.signed_string ts.jwt_secret_key
          (access_claims p ts s.user_id (p.host.clock v.events) (p.host.uuid (suc v.events)))
        ≡ ok signed_token
      → (refresh_active p ts webhook_url jti selector token meta s v).0
        ≡ ok (signed_token, (refresh_token_from p ts raw).0)
  unfolding program refresh_active notify_if_moved notify_ip_change
  refresh_active_unmoved jti selector token meta s v u raw signed_token same_token same_agent
        checked room random fresh known signed =
      let change : IpChange = record {
        user_id = s.user_id;
        old_ip = s.ip_address;
        new_ip = meta.ip_address;
        user_agent = meta.user_agent;
      } in
      let told : Worlds p = record v { notified = change ∷ v.notified } in
      ground (
        arith,
        eq_iff s.access_token_jti jti,
        eq_iff s.user_agent meta.user_agent,
        rotate_succeeds p ts webhook_url answers selector s meta v u raw signed_token room random
            fresh known signed,
        rotate_succeeds p ts webhook_url answers selector s meta told u raw signed_token room random
            fresh known signed,
      )

  module _ (access refresh selector verifier jti : String) (meta : UserMetadata) (w : Worlds p)
      (tokens : String × String) (s : RefreshSession) (u : User) (raw : List ℕ)
      (signed_token : String) where
    -- One refresh token can yield two pairs of tokens. Once a call of RefreshTokens has returned
    -- tokens, its selector has no active session; but a second call that had found the session active
    -- before, and goes on now, returns tokens too. The session matches the second call's access
    -- token, client and verifier, its user is there, the database answers, a row number is left, the
    -- random source and the signing work, and the new selector is not taken.
    pub refresh_active_races :
        (refresh_tokens p ts webhook_url access refresh meta w).0 ≡ ok tokens
        → two_parts (split b'.' refresh) ≡ some (selector, verifier)
        → row_session (find (is_active_with selector) w.db.sessions) ≡ some s
        → s.access_token_jti ≡ jti
        → s.user_agent ≡ meta.user_agent
        → validate_refresh_token p ts refresh s.verifier_hash ≡ ok tt
        → let v = (refresh_tokens p ts webhook_url access refresh meta w).1 in
          v.db.sessions_seq < max_serial
          → p.host.random (suc (suc v.events)) raw_token_length ≡ ok raw
          → any (has_selector (refresh_token_from p ts raw).1) v.db.sessions ≡ false
          → find (has_id s.user_id) v.db.users ≡ some u
          → p.jwt.signed_string ts.jwt_secret_key
              (access_claims p ts s.user_id (p.host.clock v.events) (p.host.uuid (suc v.events)))
            ≡ ok signed_token
          → (find (is_active_with selector) v.db.sessions ≡ none)
            × ((refresh_active p ts webhook_url jti selector refresh meta s v).0
                ≡ ok (signed_token, (refresh_token_from p ts raw).0))
    refresh_active_races done parts was_active same_token same_agent checked room random fresh known
          signed =
        let v = (refresh_tokens p ts webhook_url access refresh meta w).1 in
        (
          spent p ts webhook_url access refresh meta w.db v.db tokens selector verifier
              (value_of (refresh_tokens-Granted p ts webhook_url access refresh meta w) done) parts,
          refresh_active_unmoved jti selector refresh meta s v u raw signed_token same_token
              same_agent checked room random fresh known signed,
        )
