-- ===== src/Auth/Silent.antt =====
-- What the service does without a notification.
use medods_dvortsov.Prelude.{ℕ, suc, inl, inr, refl, ◌≡◌, ◌∙◌, arith, String, ℤ}
use medods_dvortsov.Go.Errors.{Result, ok, err, panicked, Caught, returned, failed}
use medods_dvortsov.Models.{Time, RefreshSession, User, UserMetadata}
use medods_dvortsov.Platform.{Platform}
use medods_dvortsov.Platform.Machine.{Reply-cases}
use medods_dvortsov.Program.{program, Db, World, Action, Worlds, time_now, new_uuid, rand_read}
use medods_dvortsov.Program.Evolves.{
  Evolves, Evolves-pure, Evolves-throw, Evolves-lift, Evolves-wrap, Evolves-attempt, Evolves-when,
  Evolves-bind,
}
use medods_dvortsov.Storage.Users.{run_statement, user_or_error, get_user_by_id}
use medods_dvortsov.Storage.Sessions.{
  session_or_error, get_active_session_by_selector, find_session_by_selector, create_session,
  mark_session_as_used, delete_all_user_sessions,
}
use medods_dvortsov.Storage.Transactions.{
  finish, in_transaction, rotate_tokens_body, rotate_tokens_tx,
}
use medods_dvortsov.Token.{TokenService, create_access_token, create_refresh_token}
use medods_dvortsov.Auth.{revoke_stolen, detect_theft_and_revoke, rotate}

-- No notification is handed over.
abbrev pub Silent : {S : Type 0} → World S → World S → Type 0
Silent w v = v.notified ≡ w.notified

Silent-refl : {S : Type 0} (w : World S) → Silent w w
Silent-refl w = refl

Silent-trans : {S : Type 0} (u v w : World S) → Silent u v → Silent v w → Silent u w
Silent-trans u v w h k = k ∙ h

ruleset silent_rules = (
  Silent-refl, Silent-trans, Evolves-pure, Evolves-throw, Evolves-lift, Evolves-wrap,
  Evolves-attempt, Evolves-when, Evolves-bind,
)

module _ (p : Platform) where
  time_now-Silent : Evolves Silent (time_now p)
  unfolding program
  time_now-Silent = record { at = λ w. refl }

  new_uuid-Silent : Evolves Silent (new_uuid p)
  unfolding program
  new_uuid-Silent = record { at = λ w. refl }

  rand_read-Silent : (n : ℕ) → Evolves Silent (rand_read p n)
  unfolding program
  rand_read-Silent n = record { at = λ w. refl }

  run_statement-Silent :
      {A : Type 0} (op : Db → Result A × Db) → Evolves Silent (run_statement p op)
  unfolding run_statement
  run_statement-Silent op = record { at = λ w. ground arith }

  finish-Silent : {A : Type 0} (d : Db) (r : Result A) (w : Worlds p) → Silent w (finish p d r w).1
  unfolding finish
  finish-Silent d (ok a) w = ground arith
  finish-Silent d (err e) w = refl
  finish-Silent d panicked w = refl

  in_transaction-Silent :
      {A : Type 0} (body : Action p A)
      → Evolves Silent body
      → Evolves Silent (in_transaction p body)
  unfolding in_transaction
  in_transaction-Silent body h = record {
    at = λ w. elim (Reply-cases (p.host.reply w.events)) [
      | inl (inl e) ↦
          let v : Worlds p = record w { events = suc w.events } in
          rw (e, in_transaction) (finish-Silent w.db (body v).0 (body v).1 ∙ h.at v)
      | inl (inr (m, e)) ↦ rw (e, in_transaction) refl
      | inr (m, e) ↦ rw (e, in_transaction) refl
    ];
  }

  session_or_error-Silent :
      (selector : String) (r : Caught RefreshSession)
      → Evolves Silent (session_or_error p selector r)
  unfolding session_or_error
  session_or_error-Silent selector (returned s) = search silent_rules
  session_or_error-Silent selector (failed e) = search silent_rules

  user_or_error-Silent : (m : String) (r : Caught User) → Evolves Silent (user_or_error p m r)
  unfolding user_or_error
  user_or_error-Silent m (returned u) = search silent_rules
  user_or_error-Silent m (failed e) = search silent_rules

  pub get_active_session_by_selector-Silent :
      (selector : String) → Evolves Silent (get_active_session_by_selector p selector)
  unfolding get_active_session_by_selector
  get_active_session_by_selector-Silent selector =
      search (silent_rules, run_statement-Silent, session_or_error-Silent)

  find_session_by_selector-Silent :
      (selector : String) → Evolves Silent (find_session_by_selector p selector)
  unfolding find_session_by_selector
  find_session_by_selector-Silent selector =
      search (silent_rules, run_statement-Silent, session_or_error-Silent)

  pub delete_all_user_sessions-Silent : (id : ℤ) → Evolves Silent (delete_all_user_sessions p id)
  unfolding delete_all_user_sessions
  delete_all_user_sessions-Silent id = search (silent_rules, run_statement-Silent)

  rotate_tokens_tx-Silent :
      (selector : String) (s : RefreshSession) (id : ℤ)
      → Evolves Silent (rotate_tokens_tx p selector s id)
  unfolding rotate_tokens_tx rotate_tokens_body mark_session_as_used create_session get_user_by_id
  rotate_tokens_tx-Silent selector s id =
      search (silent_rules, in_transaction-Silent, run_statement-Silent, user_or_error-Silent) depth
        14

module _ (p : Platform) (ts : TokenService) (webhook_url : String) where
  create_access_token-Silent :
      (id : ℤ) (now : Time) → Evolves Silent (create_access_token p ts id now)
  unfolding create_access_token
  create_access_token-Silent id now = search (silent_rules, new_uuid-Silent)

  create_refresh_token-Silent : Evolves Silent (create_refresh_token p ts)
  unfolding create_refresh_token
  create_refresh_token-Silent = search (silent_rules, rand_read-Silent)

  pub rotate-Silent :
      (selector : String) (s : RefreshSession) (m : UserMetadata)
      → Evolves Silent (rotate p ts webhook_url selector s m)
  unfolding rotate
  rotate-Silent selector s m =
      search
        (
          silent_rules, time_now-Silent, create_access_token-Silent, create_refresh_token-Silent,
          rotate_tokens_tx-Silent,
        )
        depth 14

  revoke_stolen-Silent :
      (A : Type 0) (r : Caught RefreshSession)
      → Evolves Silent (revoke_stolen p ts webhook_url {A = A} r)
  unfolding revoke_stolen
  revoke_stolen-Silent A (failed e) = search silent_rules
  revoke_stolen-Silent A (returned s) = search (silent_rules, delete_all_user_sessions-Silent)

  pub detect_theft_and_revoke-Silent :
      (A : Type 0) (selector : String)
      → Evolves Silent (detect_theft_and_revoke p ts webhook_url {A = A} selector)
  unfolding detect_theft_and_revoke
  detect_theft_and_revoke-Silent A selector =
      search (silent_rules, find_session_by_selector-Silent, revoke_stolen-Silent)
