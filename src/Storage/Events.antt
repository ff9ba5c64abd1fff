-- ===== src/Storage/Events.antt =====
-- The transactions and the statements count their calls.
use medods_dvortsov.Prelude.{suc, inl, inr, arith, String, ℤ}
use medods_dvortsov.Go.Errors.{Result, ok, err, panicked, Caught, returned, failed}
use medods_dvortsov.Models.{RefreshSession, User}
use medods_dvortsov.Platform.{Platform}
use medods_dvortsov.Platform.Machine.{Reply-cases}
use medods_dvortsov.Program.{Db, Action, Worlds}
use medods_dvortsov.Program.Evolves.{Evolves, Later, Later-Quiet, later_rules}
use medods_dvortsov.Storage.Users.{run_statement, create_user, get_user_by_guid, get_user_by_id}
use medods_dvortsov.Storage.Sessions.{
  create_session, mark_session_as_used, delete_all_user_sessions,
}
use medods_dvortsov.Storage.Transactions.{
  finish, in_transaction, found_or_created, issue_tokens_body, issue_tokens_tx, rotate_tokens_body,
  rotate_tokens_tx,
}
use medods_dvortsov.Storage.Quiet.{get_user_by_guid-Quiet, get_user_by_id-Quiet}

module _ (p : Platform) where
  run_statement-Later : {A : Type 0} (op : Db → Result A × Db) → Evolves Later (run_statement p op)
  unfolding run_statement
  run_statement-Later op = record { at = λ w. ground arith }

  finish-Later : {A : Type 0} (d : Db) (r : Result A) (w : Worlds p) → Later w (finish p d r w).1
  unfolding finish
  finish-Later d (ok a) w = ground arith
  finish-Later d (err e) w = omega arith
  finish-Later d panicked w = omega arith

  in_transaction-Later :
      {A : Type 0} (body : Action p A) → Evolves Later body → Evolves Later (in_transaction p body)
  unfolding in_transaction
  in_transaction-Later body h = record {
    at = λ w. elim (Reply-cases (p.host.reply w.events)) [
      | inl (inl e) ↦
          let v : Worlds p = record w { events = suc w.events } in
          rw (e, in_transaction) (omega (arith, h.at v, finish-Later w.db (body v).0 (body v).1))
      | inl (inr (m, e)) ↦ rw (e, in_transaction) (omega arith)
      | inr (m, e) ↦ rw (e, in_transaction) (omega arith)
    ];
  }

  found_or_created-Later :
      (guid : String) (r : Caught User) → Evolves Later (found_or_created p guid r)
  unfolding found_or_created create_user
  found_or_created-Later guid (returned u) = search later_rules
  found_or_created-Later guid (failed e) = search (later_rules, run_statement-Later)

  create_session-Later : (s : RefreshSession) → Evolves Later (create_session p s)
  unfolding create_session
  create_session-Later s = search (later_rules, run_statement-Later)

  mark_session_as_used-Later : (s : String) → Evolves Later (mark_session_as_used p s)
  unfolding mark_session_as_used
  mark_session_as_used-Later s = search (later_rules, run_statement-Later)

  pub delete_all_user_sessions-Later : (id : ℤ) → Evolves Later (delete_all_user_sessions p id)
  unfolding delete_all_user_sessions
  delete_all_user_sessions-Later id = search (later_rules, run_statement-Later)

  get_user_by_guid-Later : (guid : String) → Evolves Later (get_user_by_guid p guid)
  get_user_by_guid-Later guid = Later-Quiet _ (get_user_by_guid-Quiet p guid)

  get_user_by_id-Later : (id : ℤ) → Evolves Later (get_user_by_id p id)
  get_user_by_id-Later id = Later-Quiet _ (get_user_by_id-Quiet p id)

  pub issue_tokens_tx-Later :
      (guid : String) (s : RefreshSession) → Evolves Later (issue_tokens_tx p guid s)
  unfolding issue_tokens_tx issue_tokens_body
  issue_tokens_tx-Later guid s =
      search
        (
          later_rules, in_transaction-Later, get_user_by_guid-Later, found_or_created-Later,
          create_session-Later,
        )
        depth 12

  pub rotate_tokens_tx-Later :
      (selector : String) (s : RefreshSession) (id : ℤ)
      → Evolves Later (rotate_tokens_tx p selector s id)
  unfolding rotate_tokens_tx rotate_tokens_body
  rotate_tokens_tx-Later selector s id =
      search
        (
          later_rules, in_transaction-Later, mark_session_as_used-Later, create_session-Later,
          get_user_by_id-Later,
        )
        depth 12
