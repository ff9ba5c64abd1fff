-- ===== src/Tests/Lifetimes.antt =====
-- The theorems on the life of a session at concrete inputs.
use medods_dvortsov.Prelude.{
  ℕ, List, ◌≡◌, refl, ap, ◌∙◌, sym, pos, [], ◌∷◌, arith, suc, none, some, false, any, find,
}
use medods_dvortsov.Go.Errors.{ok}
use medods_dvortsov.Go.Base64
use medods_dvortsov.Program.{program, Db}
use medods_dvortsov.Program.Ends.{Ends, OnOk}
use medods_dvortsov.Token.{
  refresh_token_from, get_claims_from_token, validate_refresh_token, create_access_token,
  create_access_token_with_jti, create_refresh_token,
}
use medods_dvortsov.Auth.{
  issue_tokens, issue_call, refresh_call, logout_call, run, handle, refresh_tokens, notify_if_moved,
  rotate, refresh_active, refresh_found, refresh_parts,
}
use medods_dvortsov.Storage.Statements.{
  has_id, is_active_with, has_selector, select_active_session, insert_session, select_user_by_id,
  update_session_used,
}
use medods_dvortsov.Storage.Users.{run_statement, get_user_by_id, user_or_error}
use medods_dvortsov.Storage.Sessions.{
  session_or_error, get_active_session_by_selector, create_session, mark_session_as_used,
}
use medods_dvortsov.Storage.Transactions.{
  finish, in_transaction, rotate_tokens_body, rotate_tokens_tx,
}
use medods_dvortsov.Webhook.{notify_ip_change}
use medods_dvortsov.Go.Strings.{split}
use medods_dvortsov.Go.Hex
use medods_dvortsov.Go.Subtle.{constant_time_compare}
use medods_dvortsov.Go.Strconv.{format_int}
use medods_dvortsov.Auth.Issuing.{issue_tokens_succeeds}
use medods_dvortsov.Auth.Notified.{Notes, refresh_tokens-Notes}
use medods_dvortsov.Models.{UserMetadata}
use medods_dvortsov.Auth.Race.{refresh_active_races}
use medods_dvortsov.Auth.Moves.{Move}
use medods_dvortsov.Auth.View.{view}
use medods_dvortsov.Auth.Steps.{Generated}
use medods_dvortsov.Auth.Permits.{Permits}
use medods_dvortsov.Auth.Refined.{handle-Move}
use medods_dvortsov.Auth.Lifetime.{refresh_tokens_never_again}
use medods_dvortsov.Tests.Sample.{
  world_with, no_keys, replicate, letters, sample, sample_tokens, sample_meta, sample_user,
  sample_session,
}
use medods_dvortsov.Tests.Service.{
  url, before, before-IsValid, after, renewed, two_parts_of_sample, signed, accepted,
}

-- A selector of the random source is longer than "sel".
pub generated_long :
    (n : ℕ) (raw : List ℕ)
    → sample.host.random n 32 ≡ ok raw
    → "sel" ≡ (refresh_token_from sample sample_tokens raw).1
    → ⊥
unfolding refresh_token_from Base64.encode
generated_long n raw made same =
    let raw_eq : replicate 32 n ≡ raw = cc in
    let long : 3 ≡ letters (refresh_token_from sample sample_tokens (replicate 32 n)).1 =
      ap letters same
      ∙ ap (λ (r : List ℕ). letters (refresh_token_from sample sample_tokens r).1) (sym raw_eq) in
    absurd (omega arith)

never-Generated : Generated sample sample_tokens after "sel" → ⊥
never-Generated (n, raw, _, made, same) = generated_long n raw made same

handle-Move_example :
    Move
      (Permits sample sample_tokens before (refresh_call "jti" "sel.ver" sample_meta))
      (view before.db)
      (view (handle sample sample_tokens url (refresh_call "jti" "sel.ver" sample_meta) before).db)
handle-Move_example =
    handle-Move sample sample_tokens url (refresh_call "jti" "sel.ver" sample_meta) before
      before-IsValid

refresh_tokens_never_again_example :
    Ends
      (refresh_tokens sample sample_tokens url "new-jti" "sel.ver" sample_meta)
      (run sample sample_tokens url
        (issue_call "guid" sample_meta
          ∷ refresh_call "jti" "sel.ver" sample_meta
          ∷ logout_call "t"
          ∷ [])
        after)
      (OnOk λ _ _. ⊥)
refresh_tokens_never_again_example =
    refresh_tokens_never_again sample sample_tokens url "jti" "sel.ver" "sel" "ver" sample_meta
      before ("new-jti", (refresh_token_from sample sample_tokens (replicate 32 3)).0)
      (issue_call "guid" sample_meta
        ∷ refresh_call "jti" "sel.ver" sample_meta
        ∷ logout_call "t"
        ∷ [])
      "new-jti" sample_meta before-IsValid renewed two_parts_of_sample never-Generated

after_rotation :
    (after.events ≡ 9)
    × (after.db.sessions_seq ≡ 2)
    × (any
          (has_selector (refresh_token_from sample sample_tokens (replicate 32 11)).1)
          after.db.sessions
        ≡ false)
    × (find (has_id (pos 1)) after.db.users ≡ some sample_user)
unfolding program refresh_tokens refresh_parts refresh_found refresh_active notify_if_moved
    notify_ip_change get_claims_from_token get_active_session_by_selector session_or_error
    run_statement select_active_session rotate create_access_token create_access_token_with_jti
    create_refresh_token rotate_tokens_tx rotate_tokens_body in_transaction finish
    mark_session_as_used create_session get_user_by_id user_or_error update_session_used
    insert_session select_user_by_id validate_refresh_token refresh_token_from split Hex.encode
    Hex.decode constant_time_compare Base64.encode Base64.sextet format_int
after_rotation = (refl, refl, refl, refl)

random_after : sample.host.random (suc (suc after.events)) 32 ≡ ok (replicate 32 11)
random_after = ap (λ (n : ℕ). sample.host.random (suc (suc n)) 32) after_rotation.0

refresh_active_races_example :
    (find (is_active_with "sel") after.db.sessions ≡ none)
    × ((refresh_active sample sample_tokens url "jti" "sel" "sel.ver" sample_meta sample_session
          after).0
        ≡ ok ("new-jti", (refresh_token_from sample sample_tokens (replicate 32 11)).0))
refresh_active_races_example =
    refresh_active_races sample sample_tokens url (λ n. refl) "jti" "sel.ver" "sel" "ver" "jti"
      sample_meta before ("new-jti", (refresh_token_from sample sample_tokens (replicate 32 3)).0)
      sample_session sample_user (replicate 32 11) "new-jti" renewed two_parts_of_sample refl refl
      refl accepted (omega (arith, after_rotation.1)) random_after after_rotation.2 after_rotation.3
      signed

abbrev no_rows : Db
no_rows = record { users = []; users_seq = 0; sessions = []; sessions_seq = 0 }

issue_tokens_succeeds_example :
    (issue_tokens sample sample_tokens url "new guid" sample_meta (world_with no_rows no_keys)).0
    ≡ ok ("new-jti", (refresh_token_from sample sample_tokens (replicate 32 2)).0)
issue_tokens_succeeds_example =
    issue_tokens_succeeds sample sample_tokens url (λ n. refl) "new guid" sample_meta
      (world_with no_rows no_keys) (replicate 32 2) "new-jti" refl (omega arith) (omega arith) refl
      refl signed

-- The client at another address.
abbrev away : UserMetadata
away = record sample_meta { ip_address = "10.0.0.9" }

refresh_tokens-Notes_example :
    Ends
      (refresh_tokens sample sample_tokens url "jti" "sel.ver" away)
      before
      (λ r v. Notes url "sel.ver" away before.db [] r v.notified)
refresh_tokens-Notes_example =
    refresh_tokens-Notes sample sample_tokens url "sel.ver" away "jti" before
