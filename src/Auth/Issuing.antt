-- ===== src/Auth/Issuing.antt =====
-- IssueTokens returns tokens when the services answer.
use medods_dvortsov.Prelude.{
  [], ◌∷◌, ℕ, suc, String, ◌≡◌, refl, true, false, Option, none, some, List, arith, ◌<◌, find, any,
  pos, Bool, int_eq_refl,
}
use medods_dvortsov.Go.Errors.{ok, errors_is}
use medods_dvortsov.Models.{time_add, RefreshSession, User, UserMetadata}
use medods_dvortsov.Platform.{Platform}
use medods_dvortsov.Platform.Machine.{answered}
use medods_dvortsov.Program.{program, Db, Worlds}
use medods_dvortsov.Storage.Statements.{
  max_serial, has_id, has_guid, has_selector, insert_user, insert_session, select_user_by_guid,
}
use medods_dvortsov.Storage.Users.{run_statement, create_user, get_user_by_guid, user_or_error}
use medods_dvortsov.Storage.Sessions.{create_session}
use medods_dvortsov.Storage.Transactions.{
  finish, in_transaction, found_or_created, issue_tokens_body, issue_tokens_tx,
}
use medods_dvortsov.Token.{
  TokenService, raw_token_length, access_claims, create_access_token_with_jti, create_refresh_token,
  refresh_token_from,
}
use medods_dvortsov.Auth.{new_session, issue_tokens}

-- The user of the GUID: the one that is there, or the next one.
abbrev pub owner_of : Option User → String → Db → User
owner_of (some u) guid d = u
owner_of none guid d = record { id = pos (suc d.users_seq); guid = guid }

known_id :
    (f : User → Bool) (us : List User) (u : User) → find f us ≡ some u → any (has_id u.id) us ≡ true
known_id f [] u h = absurd (ground arith)
known_id f (v ∷ us) u h = ground (arith, known_id f us u, int_eq_refl u.id)

none_with : (f : User → Bool) (us : List User) → find f us ≡ none → any f us ≡ false
none_with f [] h = refl
none_with f (v ∷ us) h = ground (arith, none_with f us)

module _ (p : Platform) (ts : TokenService) (webhook_url : String)
    (answers : (n : ℕ) → p.host.reply n ≡ answered) where
  issue_tokens_tx_succeeds :
      (found : Option User) (guid : String) (s : RefreshSession) (w : Worlds p)
      → p.host.is_uuid guid ≡ true
      → find (has_guid guid) w.db.users ≡ found
      → w.db.users_seq < max_serial
      → w.db.sessions_seq < max_serial
      → any (has_selector s.selector) w.db.sessions ≡ false
      → (issue_tokens_tx p guid s w).0 ≡ ok (owner_of found guid w.db)
  unfolding program issue_tokens_tx issue_tokens_body in_transaction finish found_or_created
      create_user create_session get_user_by_guid user_or_error run_statement insert_user
      insert_session select_user_by_guid errors_is
  issue_tokens_tx_succeeds (some u) guid s w uuid known users room fresh = ground (
    arith,
    answers w.events,
    answers (suc w.events),
    answers (suc (suc w.events)),
    answers (suc (suc (suc w.events))),
    known_id (has_guid guid) w.db.users u known,
  )
  issue_tokens_tx_succeeds none guid s w uuid unknown users room fresh = ground (
    arith,
    answers w.events,
    answers (suc w.events),
    answers (suc (suc w.events)),
    answers (suc (suc (suc w.events))),
    answers (suc (suc (suc (suc w.events)))),
    none_with (has_guid guid) w.db.users unknown,
    int_eq_refl (pos (suc w.db.users_seq)),
  )

  -- While the database answers, IssueTokens returns tokens for every UUID, known or new, if row numbers
  -- are left, the random source and the signing work and the new selector is not taken: the access
  -- token is the one for the GUID's user, and the refresh token the one of the random bytes.
  pub issue_tokens_succeeds :
      (guid : String) (meta : UserMetadata) (w : Worlds p) (raw : List ℕ) (token : String)
      → p.host.is_uuid guid ≡ true
      → w.db.users_seq < max_serial
      → w.db.sessions_seq < max_serial
      → p.host.random (suc (suc w.events)) raw_token_length ≡ ok raw
      → any (has_selector (refresh_token_from p ts raw).1) w.db.sessions ≡ false
      → p.jwt.signed_string ts.jwt_secret_key (
          access_claims p ts
            (owner_of (find (has_guid guid) w.db.users) guid w.db).id
            (p.host.clock w.events)
            (p.host.uuid (suc w.events)))
        ≡ ok token
      → (issue_tokens p ts webhook_url guid meta w).0 ≡ ok (token, (refresh_token_from p ts raw).0)
  unfolding program issue_tokens create_access_token_with_jti create_refresh_token
  issue_tokens_succeeds guid meta w raw token uuid users room random fresh signed =
      let (_, new_selector, new_hash) = refresh_token_from p ts raw in
      let now = p.host.clock w.events in
      ground (
        arith,
        issue_tokens_tx_succeeds (find (has_guid guid) w.db.users) guid
            (new_session new_selector new_hash meta (p.host.uuid (suc w.events)) now
              (time_add now ts.refresh_ttl))
            (record w { events = suc (suc (suc w.events)) }) uuid refl users room fresh,
      )
