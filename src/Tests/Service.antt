-- ===== src/Tests/Service.antt =====
-- The theorems on the service's operations and the tables at concrete inputs.
use medods_dvortsov.Prelude.{String, ℤ, ◌≡◌, refl, pos, false, [], arith, reject, any, some, none}
use medods_dvortsov.Go.Errors.{ok, err, text, errors_is}
use medods_dvortsov.Go.Strings.{split}
use medods_dvortsov.Go.Hex
use medods_dvortsov.Go.Base64
use medods_dvortsov.Go.Strconv.{format_int, parse_int}
use medods_dvortsov.Go.Subtle.{constant_time_compare}
use medods_dvortsov.Models.{RefreshSession}
use medods_dvortsov.Program.{program, active, used, Worlds}
use medods_dvortsov.Program.Ends.{Ends, OnOk}
use medods_dvortsov.Storage.Statements.{delete_user_sessions, is_session_of, has_selector}
use medods_dvortsov.Storage.Invariant.{IsValid}
use medods_dvortsov.Storage.Effects.{Issued, Rotated}
use medods_dvortsov.Storage.Atomicity.{Atomic}
use medods_dvortsov.Storage.Issue.{issue_tokens_tx-Atomic}
use medods_dvortsov.Storage.Rotate.{rotate_tokens_tx-Atomic}
use medods_dvortsov.Storage.Transactions.{issue_tokens_tx, rotate_tokens_tx}
use medods_dvortsov.Token.{
  two_parts, is_access_token_invalidated, parse_user_id, parsed_user_id, invalidate_access_token,
  get_claims_from_token, expires_of, access_claims, validate_refresh_token, refresh_token_from,
  validate_access_token_and_get_user_id,
}
use medods_dvortsov.Denylist.{is_token_invalidated, read_mark, invalidate_token}
use medods_dvortsov.Storage.Users.{run_statement}
use medods_dvortsov.Storage.Sessions.{delete_all_user_sessions}
use medods_dvortsov.Auth.{new_session, refresh_tokens, logout, authenticate_access_token}
use medods_dvortsov.Auth.Refresh.{Granted, refresh_tokens-Granted}
use medods_dvortsov.Auth.Theft.{verdict, refresh_tokens_refused}
use medods_dvortsov.Auth.Progress.{refresh_tokens_succeeds}
use medods_dvortsov.Auth.Logout.{revoked_entry, logout-Ends, logout_refuses}
use medods_dvortsov.Tests.Sample.{
  replicate, sample, sample_tokens, sample_meta, sample_user, sample_session, db_with, world_with,
  no_keys, claims_of,
}

abbrev pub before : Worlds sample
before = world_with (db_with active) no_keys

abbrev spent : Worlds sample
spent = world_with (db_with used) no_keys

abbrev pub url : String
url = "http://hook"

abbrev other : RefreshSession
other = new_session "other" "hash" sample_meta "t" 5000 605000

pub accepted :
    validate_refresh_token sample sample_tokens "sel.ver" sample_session.verifier_hash ≡ ok tt
unfolding validate_refresh_token split Hex.encode Hex.decode constant_time_compare
accepted = refl

pub two_parts_of_sample : two_parts (split b'.' "sel.ver") ≡ some ("sel", "ver")
unfolding split
two_parts_of_sample = refl

judged :
    verdict "sel" "jti" "agent"
      (validate_refresh_token sample sample_tokens "sel.ver")
      before.db.sessions
    ≡ none
judged = rw (accepted, verdict) refl

unused :
    any
      (has_selector (refresh_token_from sample sample_tokens (replicate 32 3)).1)
      (db_with active).sessions
    ≡ false
unfolding refresh_token_from Base64.encode Base64.sextet
unused = refl

pub signed :
    sample.jwt.signed_string sample_tokens.jwt_secret_key
      (access_claims sample sample_tokens (pos 1) 5000 "new-jti")
    ≡ ok "new-jti"
unfolding format_int
signed = refl

pub renewed :
    (refresh_tokens sample sample_tokens url "jti" "sel.ver" sample_meta before).0
    ≡ ok ("new-jti", (refresh_token_from sample sample_tokens (replicate 32 3)).0)
renewed =
    refresh_tokens_succeeds sample sample_tokens url (λ n. refl) "jti" "sel.ver" "sel" "ver"
      sample_meta before (claims_of "jti") (record { session = sample_session; status = active })
      sample_user (replicate 32 3) "new-jti" refl two_parts_of_sample refl judged accepted refl
      (omega arith) refl unused signed

refresh_tokens_succeeds_example :
    (refresh_tokens sample sample_tokens url "jti" "sel.ver" sample_meta before).0
    ≡ ok ("new-jti", (refresh_token_from sample sample_tokens (replicate 32 3)).0)
refresh_tokens_succeeds_example =
    refresh_tokens_succeeds sample sample_tokens url (λ n. refl) "jti" "sel.ver" "sel" "ver"
      sample_meta before (claims_of "jti") (record { session = sample_session; status = active })
      sample_user (replicate 32 3) "new-jti" refl two_parts_of_sample refl judged accepted refl
      (omega arith) refl unused signed

refresh_tokens-Granted_example :
    Ends (refresh_tokens sample sample_tokens url "jti" "sel.ver" sample_meta) before (
      OnOk
        λ tokens v. Granted sample sample_tokens "jti" "sel.ver" sample_meta before.db v.db tokens)
refresh_tokens-Granted_example =
    refresh_tokens-Granted sample sample_tokens url "jti" "sel.ver" sample_meta before

abbrev pub after : Worlds sample
after = (refresh_tokens sample sample_tokens url "jti" "sel.ver" sample_meta before).1

refresh_tokens_refused_example :
    ((refresh_tokens sample sample_tokens url "jti" "sel.ver" sample_meta spent).0
      ≡ err (text "token reuse detected, all sessions revoked"))
    × ((refresh_tokens sample sample_tokens url "jti" "sel.ver" sample_meta spent).1.db
        ≡ record (db_with used) { sessions = [] })
refresh_tokens_refused_example =
    refresh_tokens_refused sample sample_tokens url "jti" "sel.ver" "sel" "ver" sample_meta spent
      (claims_of "jti") (text "token reuse detected, all sessions revoked") [] refl
      two_parts_of_sample refl refl refl refl

logout-Ends_example : Ends (logout sample sample_tokens url "jti") before (
    OnOk λ _ v.
      (v.store "jti" ≡ some (revoked_entry sample 2 65000))
      × ((user_id : ℤ) × ((validate_access_token_and_get_user_id sample sample_tokens "jti"
              before).0
            ≡ ok user_id)
          × (v.db ≡ record (db_with active) {
            sessions = reject (is_session_of user_id) (db_with active).sessions;
          })))
logout-Ends_example =
    logout-Ends sample sample_tokens url "jti" (claims_of "jti") 65000 before refl refl
      (omega arith)

logged_out : (logout sample sample_tokens url "jti" before).0 ≡ ok tt
unfolding program logout validate_access_token_and_get_user_id is_access_token_invalidated
    is_token_invalidated read_mark errors_is parse_user_id parsed_user_id parse_int
    invalidate_access_token get_claims_from_token expires_of invalidate_token
    delete_all_user_sessions run_statement delete_user_sessions
logged_out = refl

logout_refuses_example :
    Ends
      (authenticate_access_token sample sample_tokens url "jti")
      (logout sample sample_tokens url "jti" before).1
      (OnOk λ _ _. ⊥)
logout_refuses_example =
    logout_refuses sample sample_tokens url (λ a b h. omega arith) "jti" (claims_of "jti") 65000
      before (logout sample sample_tokens url "jti" before).1 refl refl (omega arith) logged_out
      refl (omega arith)

issue_tokens_tx-Atomic_example :
    Ends
      (issue_tokens_tx sample "guid" other)
      before
      (Atomic (λ u e. Issued "guid" other before.db e u) before.db)
issue_tokens_tx-Atomic_example = issue_tokens_tx-Atomic sample "guid" other before

rotate_tokens_tx-Atomic_example :
    Ends
      (rotate_tokens_tx sample "sel" other (pos 1))
      before
      (Atomic (λ u e. Rotated "sel" other (pos 1) before.db e u) before.db)
rotate_tokens_tx-Atomic_example = rotate_tokens_tx-Atomic sample "sel" other (pos 1) before

pub before-IsValid : IsValid before.db
before-IsValid = record {
  users_valid = ((omega arith, omega arith), refl, refl, tt);
  users_fit = omega arith;
  sessions_valid = ((omega arith, omega arith), refl, refl, tt);
}
