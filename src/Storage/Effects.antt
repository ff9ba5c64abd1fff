-- ===== src/Storage/Effects.antt =====
-- What the repositories' calls and the two transactions do to the tables.
use medods_dvortsov.Prelude.{
  reject, true, ℕ, suc, ◌≡◌, refl, ◌⊎◌, String, ℤ, pos, Bool, false, none, some, List, [], ◌∷◌, map,
  arith, find, any, eq_iff,
}
use medods_dvortsov.Go.Errors.{Caught, returned, failed, errors_is, session_not_found}
use medods_dvortsov.Models.{RefreshSession, User}
use medods_dvortsov.Platform.{Platform}
use medods_dvortsov.Program.{program, attempt, Db, SessionRow, Worlds, active}
use medods_dvortsov.Program.Ends.{Ends, OnOk}
use medods_dvortsov.Storage.Statements.{
  is_active_with, is_session_of, row_session, select_active_session, select_session,
  delete_user_sessions, has_selector, has_guid, has_id, mark_row, insert_user, insert_session,
  select_user_by_guid, select_user_by_id, update_session_used,
}
use medods_dvortsov.Storage.Users.{
  run_statement, user_or_error, create_user, get_user_by_guid, get_user_by_id,
}
use medods_dvortsov.Storage.Sessions.{
  find_session_by_selector, get_active_session_by_selector, session_or_error,
  delete_all_user_sessions, create_session, mark_session_as_used,
}

-- The row that a session becomes.
abbrev pub stored : ℕ → ℤ → RefreshSession → SessionRow
stored n user_id s = record {
  session = record s { id = pos (suc n); user_id = user_id };
  status = active;
}

-- The user is the one that the table had under the GUID, or a new one.
abbrev pub FoundOrCreated : String → Db → Db → User → Type 0
FoundOrCreated guid d e u =
    ((find (has_guid guid) d.users ≡ some u) × (e.users ≡ d.users))
    ⊎ ((find (has_guid guid) d.users ≡ none)
        × (u.id ≡ pos (suc d.users_seq))
        × (e.users ≡ u ∷ d.users))

-- Issuing adds one active session of the user to the table, and nothing else.
pub record Issued (guid : String) (s : RefreshSession) (d e : Db) (u : User) : Type 0 where
  pub user : FoundOrCreated guid d e u
  pub owner : u.guid ≡ guid
  pub fresh : any (has_selector s.selector) d.sessions ≡ false
  pub session : e.sessions ≡ stored d.sessions_seq u.id s ∷ d.sessions

pub find-has_guid :
    (guid : String) (us : List User) (u : User) → find (has_guid guid) us ≡ some u → u.guid ≡ guid
find-has_guid guid [] u h = cc
find-has_guid guid (x ∷ us) u h = ground (arith, eq_iff x.guid guid, find-has_guid guid us u)

pub find-none_of_any {ℓ} :
    {A : Type ℓ} (f : A → Bool) (xs : List A) → any f xs ≡ false → find f xs ≡ none
find-none_of_any f [] h = refl
find-none_of_any f (x ∷ xs) h = ground (arith, find-none_of_any f xs)

-- Rotating marks the sessions of the old selector as used and adds one active session of the user.
pub record Rotated (selector : String) (s : RefreshSession) (user_id : ℤ) (d e : Db) (u : User)
    : Type 0 where
  pub user : find (has_id user_id) d.users ≡ some u
  pub users : e.users ≡ d.users
  pub fresh : any (has_selector s.selector) (map (mark_row selector) d.sessions) ≡ false
  pub sessions : e.sessions ≡ stored d.sessions_seq user_id s ∷ map (mark_row selector) d.sessions

module _ (p : Platform) where
  pub get_user_by_guid-Ends :
      (guid : String) (w : Worlds p)
      → Ends
          (get_user_by_guid p guid)
          w
          (λ r w'. (w'.db ≡ w.db) × OnOk (λ u v. find (has_guid guid) w.db.users ≡ some u) r w')
  unfolding program get_user_by_guid run_statement user_or_error select_user_by_guid
  get_user_by_guid-Ends guid w = record { post = ground arith }

  pub get_user_by_id-Ends :
      (id : ℤ) (w : Worlds p)
      → Ends
          (get_user_by_id p id)
          w
          (λ r w'. (w'.db ≡ w.db) × OnOk (λ u v. find (has_id id) w.db.users ≡ some u) r w')
  unfolding program get_user_by_id run_statement user_or_error select_user_by_id
  get_user_by_id-Ends id w = record { post = ground arith }

  pub create_user-Ends :
      (guid : String) (w : Worlds p)
      → Ends (create_user p guid) w (
          OnOk λ u w'.
            (u.guid ≡ guid)
            × (find (has_guid guid) w.db.users ≡ none)
            × (u.id ≡ pos (suc w.db.users_seq))
            × (w'.db.users ≡ u ∷ w.db.users)
            × (w'.db.sessions ≡ w.db.sessions)
            × (w'.db.sessions_seq ≡ w.db.sessions_seq))
  unfolding program create_user run_statement insert_user
  create_user-Ends guid w = record {
    post = ground (arith, find-none_of_any (has_guid guid) w.db.users);
  }

  pub create_session-Ends :
      (s : RefreshSession) (w : Worlds p)
      → Ends (create_session p s) w (
          OnOk λ n w'.
            (w'.db.users ≡ w.db.users)
            × (any (has_selector s.selector) w.db.sessions ≡ false)
            × (w'.db.sessions ≡ stored w.db.sessions_seq s.user_id s ∷ w.db.sessions))
  unfolding program create_session run_statement insert_session
  create_session-Ends s w = record { post = ground arith }

  pub mark_session_as_used-Ends :
      (selector : String) (w : Worlds p)
      → Ends (mark_session_as_used p selector) w (
          OnOk λ _ w'.
            (w'.db.users ≡ w.db.users)
            × (w'.db.sessions ≡ map (mark_row selector) w.db.sessions)
            × (w'.db.sessions_seq ≡ w.db.sessions_seq))
  unfolding program mark_session_as_used run_statement update_session_used
  mark_session_as_used-Ends selector w = record { post = ground arith }

  -- What a look-up of the active session finds.
  pub get_active_session_by_selector-Ends :
      (selector : String) (w : Worlds p)
      → Ends (get_active_session_by_selector p selector) w (λ r w'.
        (w'.db ≡ w.db)
        × OnOk (λ s _. row_session (find (is_active_with selector) w.db.sessions) ≡ some s) r w')
  unfolding program get_active_session_by_selector run_statement session_or_error
      select_active_session
  get_active_session_by_selector-Ends selector w = record { post = ground arith }

  -- What a look-up by the selector alone finds.
  pub find_session_by_selector-Ends :
      (selector : String) (w : Worlds p)
      → Ends
          (find_session_by_selector p selector)
          w
          (OnOk λ s _. row_session (find (has_selector selector) w.db.sessions) ≡ some s)
  unfolding program find_session_by_selector run_statement session_or_error select_session
  find_session_by_selector-Ends selector w = record { post = ground arith }

  -- What a look-up of the active session tells: the session, or that there is none where the error is
  -- ErrSessionNotFound.
  abbrev pub Looked : String → Db → Caught RefreshSession → Type 0
  Looked selector d (returned s) = row_session (find (is_active_with selector) d.sessions) ≡ some s
  Looked selector d (failed e) =
      errors_is e session_not_found ≡ true → find (is_active_with selector) d.sessions ≡ none

  pub get_active_session_by_selector-Looked :
      (selector : String) (w : Worlds p)
      → Ends
          (attempt (get_active_session_by_selector p selector))
          w
          (OnOk λ r _. Looked selector w.db r)
  unfolding program get_active_session_by_selector run_statement session_or_error
      select_active_session errors_is
  get_active_session_by_selector-Looked selector w = record { post = ground arith }

  pub delete_all_user_sessions-Ends :
      (id : ℤ) (w : Worlds p)
      → Ends (delete_all_user_sessions p id) w (
          OnOk λ _ w'.
            (w'.db ≡ record w.db { sessions = reject (is_session_of id) w.db.sessions })
            × (w'.store ≡ w.store))
  unfolding program delete_all_user_sessions run_statement delete_user_sessions
  delete_all_user_sessions-Ends id w = record { post = ground arith }
