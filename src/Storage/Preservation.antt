-- ===== src/Storage/Preservation.antt =====
-- The repositories and the transactions keep what the schema promises, whatever the server answers.
use medods_dvortsov.Prelude.{Bool, suc, inl, inr, String, ℤ}
use medods_dvortsov.Go.Errors.{Result, ok, err, panicked, Caught, returned, failed}
use medods_dvortsov.Models.{RefreshSession, User}
use medods_dvortsov.Platform.{Platform}
use medods_dvortsov.Platform.Machine.{Reply-cases}
use medods_dvortsov.Program.{Db, Action, Worlds}
use medods_dvortsov.Program.Changes.{Changes, change_rules}
use medods_dvortsov.Storage.Statements.{
  select_user_by_guid, select_user_by_id, select_active_session, select_session,
}
use medods_dvortsov.Storage.Users.{
  run_statement, user_or_error, create_user, get_user_by_guid, get_user_by_id,
}
use medods_dvortsov.Storage.Sessions.{
  create_session, session_or_error, get_active_session_by_selector, find_session_by_selector,
  mark_session_as_used, delete_session, delete_all_user_sessions,
}
use medods_dvortsov.Storage.Transactions.{
  roll_back, finish, in_transaction, found_or_created, issue_tokens_body, issue_tokens_tx,
  rotate_tokens_body, rotate_tokens_tx,
}
use medods_dvortsov.Storage.Invariant.{
  Preserves, Preserves-refl, Preserves-trans, insert_user-Preserves, insert_session-Preserves,
  update_session_used-Preserves, delete_session_row-Preserves, delete_user_sessions-Preserves,
  roll_back-Preserves,
}

module _ (p : Platform) (R : Db → Db → Type 0) (R_refl : (d : Db) → R d d) where
  pub run_statement-Changes :
      {A : Type 0} (op : Db → Result A × Db)
      → ((d : Db) → R d (op d).1)
      → Changes R (run_statement p op)
  unfolding run_statement
  run_statement-Changes op h = record {
    at = λ w. elim (Reply-cases (p.host.reply w.events)) [
      | inl (inl e) ↦ rw (e, run_statement) (h w.db)
      | inl (inr (m, e)) ↦ rw (e, run_statement) (R_refl w.db)
      | inr (m, e) ↦ rw (e, run_statement) (h w.db)
    ];
  }

  finish-R :
      {A : Type 0} (d : Db) (r : Result A) (w : Worlds p)
      → ((e : Db) → R d e → R d (roll_back d e))
      → R d w.db
      → R d (finish p d r w).1.db
  unfolding finish
  finish-R d (err e) w back h = back w.db h
  finish-R d panicked w back h = back w.db h
  finish-R d (ok a) w back h = elim (Reply-cases (p.host.reply w.events)) [
    | inl (inl e) ↦ rw (e, finish) h
    | inl (inr (m, e)) ↦ rw (e, finish) (back w.db h)
    | inr (m, e) ↦ rw (e, finish) h
  ]

  pub in_transaction-Changes :
      {A : Type 0} (body : Action p A)
      → ((d e : Db) → R d e → R d (roll_back d e))
      → Changes R body
      → Changes R (in_transaction p body)
  unfolding in_transaction
  in_transaction-Changes body back h = record {
    at = λ w. elim (Reply-cases (p.host.reply w.events)) [
      | inl (inl e) ↦
          let w₁ : Worlds p = record w { events = suc w.events } in
          rw (e, in_transaction) (finish-R w.db (body w₁).0 (body w₁).1 (back w.db) (h.at w₁))
      | inl (inr (m, e)) ↦ rw (e, in_transaction) (R_refl w.db)
      | inr (m, e) ↦ rw (e, in_transaction) (R_refl w.db)
    ];
  }

module _ (p : Platform) where
  pub statement :
      {A : Type 0} (op : Db → Result A × Db)
      → ((d : Db) → Preserves d (op d).1)
      → Changes Preserves (run_statement p op)
  statement op h = run_statement-Changes p Preserves Preserves-refl op h

  pub transaction :
      {A : Type 0} (body : Action p A)
      → Changes Preserves body
      → Changes Preserves (in_transaction p body)
  transaction body h = in_transaction-Changes p Preserves Preserves-refl body roll_back-Preserves h

  pub select_user_by_guid-Preserves :
      (u : String → Bool) (g : String) (d : Db) → Preserves d (select_user_by_guid u g d).1
  unfolding select_user_by_guid
  select_user_by_guid-Preserves u g d = Preserves-refl d

  pub select_user_by_id-Preserves : (id : ℤ) (d : Db) → Preserves d (select_user_by_id id d).1
  unfolding select_user_by_id
  select_user_by_id-Preserves id d = Preserves-refl d

  pub select_active_session-Preserves :
      (s : String) (d : Db) → Preserves d (select_active_session s d).1
  unfolding select_active_session
  select_active_session-Preserves s d = Preserves-refl d

  pub select_session-Preserves : (s : String) (d : Db) → Preserves d (select_session s d).1
  unfolding select_session
  select_session-Preserves s d = Preserves-refl d

pub ruleset preserving = (
  change_rules, Preserves-refl, Preserves-trans, statement, transaction, insert_user-Preserves,
  insert_session-Preserves, update_session_used-Preserves, delete_session_row-Preserves,
  delete_user_sessions-Preserves, select_user_by_guid-Preserves, select_user_by_id-Preserves,
  select_active_session-Preserves, select_session-Preserves,
)

module _ (p : Platform) where
  user_or_error-Changes : (m : String) (r : Caught User) → Changes Preserves (user_or_error p m r)
  unfolding user_or_error
  user_or_error-Changes m (returned u) = search preserving
  user_or_error-Changes m (failed e) = search preserving

  create_user-Changes : (guid : String) → Changes Preserves (create_user p guid)
  unfolding create_user
  create_user-Changes guid = search preserving

  get_user_by_guid-Changes : (guid : String) → Changes Preserves (get_user_by_guid p guid)
  unfolding get_user_by_guid
  get_user_by_guid-Changes guid = search (preserving, user_or_error-Changes)

  pub get_user_by_id-Changes : (id : ℤ) → Changes Preserves (get_user_by_id p id)
  unfolding get_user_by_id
  get_user_by_id-Changes id = search (preserving, user_or_error-Changes)

  create_session-Changes : (s : RefreshSession) → Changes Preserves (create_session p s)
  unfolding create_session
  create_session-Changes s = search preserving

  session_or_error-Changes :
      (s : String) (r : Caught RefreshSession) → Changes Preserves (session_or_error p s r)
  unfolding session_or_error
  session_or_error-Changes s (returned x) = search preserving
  session_or_error-Changes s (failed e) = search preserving

  pub get_active_session_by_selector-Changes :
      (s : String) → Changes Preserves (get_active_session_by_selector p s)
  unfolding get_active_session_by_selector
  get_active_session_by_selector-Changes s = search (preserving, session_or_error-Changes)

  pub find_session_by_selector-Changes :
      (s : String) → Changes Preserves (find_session_by_selector p s)
  unfolding find_session_by_selector
  find_session_by_selector-Changes s = search (preserving, session_or_error-Changes)

  mark_session_as_used-Changes : (s : String) → Changes Preserves (mark_session_as_used p s)
  unfolding mark_session_as_used
  mark_session_as_used-Changes s = search preserving

  pub delete_session-Changes : (s : String) → Changes Preserves (delete_session p s)
  unfolding delete_session
  delete_session-Changes s = search preserving

  pub delete_all_user_sessions-Changes :
      (id : ℤ) → Changes Preserves (delete_all_user_sessions p id)
  unfolding delete_all_user_sessions
  delete_all_user_sessions-Changes id = search preserving

  found_or_created-Changes :
      (guid : String) (r : Caught User) → Changes Preserves (found_or_created p guid r)
  unfolding found_or_created
  found_or_created-Changes guid (returned u) = search preserving
  found_or_created-Changes guid (failed e) = search (preserving, create_user-Changes)

  -- Issuing keeps the tables valid, whatever the server answers.
  pub issue_tokens_tx-Changes :
      (guid : String) (s : RefreshSession) → Changes Preserves (issue_tokens_tx p guid s)
  unfolding issue_tokens_tx issue_tokens_body
  issue_tokens_tx-Changes guid s =
      search
        (preserving, get_user_by_guid-Changes, found_or_created-Changes, create_session-Changes)
        depth 9

  -- So does rotating.
  pub rotate_tokens_tx-Changes :
      (selector : String) (s : RefreshSession) (id : ℤ)
      → Changes Preserves (rotate_tokens_tx p selector s id)
  unfolding rotate_tokens_tx rotate_tokens_body
  rotate_tokens_tx-Changes selector s id =
      search
        (preserving, mark_session_as_used-Changes, create_session-Changes, get_user_by_id-Changes)
        depth 9
