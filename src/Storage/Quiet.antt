-- ===== src/Storage/Quiet.antt =====
-- The look-ups, which change no table.
use medods_dvortsov.Prelude.{String, ℤ, ◌≡◌, refl, arith}
use medods_dvortsov.Go.Errors.{Result, Caught, returned, failed}
use medods_dvortsov.Models.{RefreshSession, User}
use medods_dvortsov.Platform.{Platform}
use medods_dvortsov.Program.{Db}
use medods_dvortsov.Program.Evolves.{Evolves, Quiet, quiet_rules}
use medods_dvortsov.Storage.Statements.{
  select_user_by_guid, select_user_by_id, select_active_session, select_session,
}
use medods_dvortsov.Storage.Users.{run_statement, user_or_error, get_user_by_guid, get_user_by_id}
use medods_dvortsov.Storage.Sessions.{
  session_or_error, get_active_session_by_selector, find_session_by_selector,
}

module _ (p : Platform) where
  statement-Quiet :
      {A : Type 0} (op : Db → Result A × Db)
      → ((d : Db) → (op d).1 ≡ d)
      → Evolves Quiet (run_statement p op)
  unfolding run_statement
  statement-Quiet op h = record { at = λ w. ground (arith, h w.db) }

  pub select_user_by_guid-Quiet :
      (guid : String) → Evolves Quiet (run_statement p (select_user_by_guid p.host.is_uuid guid))
  unfolding select_user_by_guid
  select_user_by_guid-Quiet guid = statement-Quiet _ (λ d. refl)

  select_user_by_id-Quiet : (id : ℤ) → Evolves Quiet (run_statement p (select_user_by_id id))
  unfolding select_user_by_id
  select_user_by_id-Quiet id = statement-Quiet _ (λ d. refl)

  select_active_session-Quiet :
      (selector : String) → Evolves Quiet (run_statement p (select_active_session selector))
  unfolding select_active_session
  select_active_session-Quiet selector = statement-Quiet _ (λ d. refl)

  select_session-Quiet :
      (selector : String) → Evolves Quiet (run_statement p (select_session selector))
  unfolding select_session
  select_session-Quiet selector = statement-Quiet _ (λ d. refl)

  user_or_error-Quiet : (m : String) (r : Caught User) → Evolves Quiet (user_or_error p m r)
  unfolding user_or_error
  user_or_error-Quiet m (returned u) = search quiet_rules
  user_or_error-Quiet m (failed e) = search quiet_rules

  session_or_error-Quiet :
      (selector : String) (r : Caught RefreshSession)
      → Evolves Quiet (session_or_error p selector r)
  unfolding session_or_error
  session_or_error-Quiet selector (returned s) = search quiet_rules
  session_or_error-Quiet selector (failed e) = search quiet_rules

  pub get_user_by_guid-Quiet : (guid : String) → Evolves Quiet (get_user_by_guid p guid)
  unfolding get_user_by_guid
  get_user_by_guid-Quiet guid = search (quiet_rules, select_user_by_guid-Quiet, user_or_error-Quiet)

  pub get_user_by_id-Quiet : (id : ℤ) → Evolves Quiet (get_user_by_id p id)
  unfolding get_user_by_id
  get_user_by_id-Quiet id = search (quiet_rules, select_user_by_id-Quiet, user_or_error-Quiet)

  pub get_active_session_by_selector-Quiet :
      (selector : String) → Evolves Quiet (get_active_session_by_selector p selector)
  unfolding get_active_session_by_selector
  get_active_session_by_selector-Quiet selector =
      search (quiet_rules, select_active_session-Quiet, session_or_error-Quiet)

  pub find_session_by_selector-Quiet :
      (selector : String) → Evolves Quiet (find_session_by_selector p selector)
  unfolding find_session_by_selector
  find_session_by_selector-Quiet selector =
      search (quiet_rules, select_session-Quiet, session_or_error-Quiet)
