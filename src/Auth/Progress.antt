-- ===== src/Auth/Progress.antt =====
-- RefreshTokens returns tokens when the checks pass and the services answer.
use medods_dvortsov.Prelude.{
  ℕ, suc, String, ◌≡◌, refl, true, false, Bool, none, some, List, [], ◌∷◌, map, arith, ◌<◌, find,
  any, ℤ,
}
use medods_dvortsov.Go.Errors.{ok}
use medods_dvortsov.Go.Strings.{split}
use medods_dvortsov.Models.{time_add, RefreshSession, User, UserMetadata}
use medods_dvortsov.Platform.{Platform}
use medods_dvortsov.Platform.Machine.{answered}
use medods_dvortsov.Platform.Jwt.{JwtClaims}
use medods_dvortsov.Program.{program, IpChange, SessionRow, Worlds}
use medods_dvortsov.Storage.Statements.{
  max_serial, has_id, is_active_with, has_selector, mark_row, select_active_session, insert_session,
  select_user_by_id, update_session_used,
}
use medods_dvortsov.Storage.Users.{run_statement, get_user_by_id, user_or_error}
use medods_dvortsov.Storage.Sessions.{
  session_or_error, get_active_session_by_selector, create_session, mark_session_as_used,
}
use medods_dvortsov.Storage.Transactions.{
  finish, in_transaction, rotate_tokens_body, rotate_tokens_tx,
}
use medods_dvortsov.Token.{
  TokenService, raw_token_length, access_claims, two_parts, get_claims_from_token,
  validate_refresh_token, create_access_token, create_access_token_with_jti, create_refresh_token,
  refresh_token_from,
}
use medods_dvortsov.Webhook.{notify_ip_change}
use medods_dvortsov.Auth.Theft.{verdict}
use medods_dvortsov.Auth.{
  new_session, notify_if_moved, rotate, refresh_active, refresh_found, refresh_parts,
  refresh_tokens,
}

any_of_find {ℓ} :
    {A : Type ℓ} (f : A → Bool) (xs : List A) (x : A) → find f xs ≡ some x → any f xs ≡ true
any_of_find f [] x h = cc
any_of_find f (y ∷ xs) x h = ground (arith, any_of_find f xs x)

any-map_mark :
    (selector old : String) (rows : List SessionRow)
    → any (has_selector selector) (map (mark_row old) rows) ≡ any (has_selector selector) rows
any-map_mark selector old [] = refl
any-map_mark selector old (r ∷ rows) = ground (arith, any-map_mark selector old rows)

module _ (p : Platform) (ts : TokenService) (webhook_url : String)
    (answers : (n : ℕ) → p.host.reply n ≡ answered) where
  rotate_tokens_tx_succeeds :
      (selector : String) (s : RefreshSession) (user_id : ℤ) (w : Worlds p) (u : User)
      → w.db.sessions_seq < max_serial
      → any (has_selector s.selector) w.db.sessions ≡ false
      → find (has_id user_id) w.db.users ≡ some u
      → (rotate_tokens_tx p selector s user_id w).0 ≡ ok u
  unfolding program rotate_tokens_tx rotate_tokens_body in_transaction finish mark_session_as_used
      create_session get_user_by_id user_or_error run_statement update_session_used insert_session
      select_user_by_id
  rotate_tokens_tx_succeeds selector s user_id w u room fresh known = ground (
    arith,
    answers w.events,
    answers (suc w.events),
    answers (suc (suc w.events)),
    answers (suc (suc (suc w.events))),
    answers (suc (suc (suc (suc w.events)))),
    any-map_mark s.selector selector w.db.sessions,
    any_of_find (has_id user_id) w.db.users u known,
  )

  -- What `rotate` returns, from the world after its three events.
  pub rotate_succeeds :
      (selector : String) (active : RefreshSession) (meta : UserMetadata) (w : Worlds p) (u : User)
      (raw : List ℕ) (token : String)
      → w.db.sessions_seq < max_serial
      → p.host.random (suc (suc w.events)) raw_token_length ≡ ok raw
      → any (has_selector (refresh_token_from p ts raw).1) w.db.sessions ≡ false
      → find (has_id active.user_id) w.db.users ≡ some u
      → p.jwt.signed_string ts.jwt_secret_key
          (access_claims p ts active.user_id (p.host.clock w.events) (p.host.uuid (suc w.events)))
        ≡ ok token
      → (rotate p ts webhook_url selector active meta w).0
        ≡ ok (token, (refresh_token_from p ts raw).0)
  unfolding program rotate create_access_token create_access_token_with_jti create_refresh_token
  rotate_succeeds selector active meta w u raw token room random fresh known signed =
      let (_, new_selector, new_hash) = refresh_token_from p ts raw in
      let now = p.host.clock w.events in
      ground (
        arith,
        rotate_tokens_tx_succeeds selector
            (new_session new_selector new_hash meta (p.host.uuid (suc w.events)) now
              (time_add now ts.refresh_ttl))
            active.user_id (record w { events = suc (suc (suc w.events)) }) u room fresh known,
      )

  -- While the database answers, RefreshTokens renews a session that is judged as valid: if its user is
  -- there, a row number is left, the random source and the signing work and the new selector is not
  -- taken, it returns the new access token and the refresh token of the random bytes.
  pub refresh_tokens_succeeds :
      (access_token refresh_token selector verifier : String) (meta : UserMetadata) (w : Worlds p)
      (claims : JwtClaims) (row : SessionRow) (u : User) (raw : List ℕ) (token : String)
      → p.jwt.parse_unverified access_token ≡ ok claims
      → two_parts (split b'.' refresh_token) ≡ some (selector, verifier)
      → find (is_active_with selector) w.db.sessions ≡ some row
      → verdict selector claims.id meta.user_agent
          (validate_refresh_token p ts refresh_token)
          w.db.sessions
        ≡ none
      → validate_refresh_token p ts refresh_token row.session.verifier_hash ≡ ok tt
      → find (has_id row.session.user_id) w.db.users ≡ some u
      → w.db.sessions_seq < max_serial
      → p.host.random (suc (suc (suc w.events))) raw_token_length ≡ ok raw
      → any (has_selector (refresh_token_from p ts raw).1) w.db.sessions ≡ false
      → p.jwt.signed_string ts.jwt_secret_key (
          access_claims p ts row.session.user_id
            (p.host.clock (suc w.events))
            (p.host.uuid (suc (suc w.events))))
        ≡ ok token
      → (refresh_tokens p ts webhook_url access_token refresh_token meta w).0
        ≡ ok (token, (refresh_token_from p ts raw).0)
  unfolding program refresh_tokens refresh_parts refresh_found refresh_active notify_if_moved
      notify_ip_change get_claims_from_token get_active_session_by_selector session_or_error
      run_statement select_active_session
  refresh_tokens_succeeds access_token refresh_token selector verifier meta w claims row u raw token
        claimed parts found judged checked known room random fresh signed =
      let change : IpChange = record {
        user_id = row.session.user_id;
        old_ip = row.session.ip_address;
        new_ip = meta.ip_address;
        user_agent = meta.user_agent;
      } in
      let still : Worlds p = record w { events = suc w.events } in
      let told : Worlds p = record still { notified = change ∷ w.notified } in
      ground (
        arith,
        answers w.events,
        rotate_succeeds selector row.session meta still u raw token room random fresh known signed,
        rotate_succeeds selector row.session meta told u raw token room random fresh known signed,
      )
