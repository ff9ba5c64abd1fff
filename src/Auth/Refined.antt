-- ===== src/Auth/Refined.antt =====
-- The service implements the moves: what each of its operations does to the view of the sessions.
use medods_dvortsov.Prelude.{
  String, ℤ, Option, none, some, ◌≡◌, refl, arith, find, reject, inl, inr, ◌⊎◌, ◌∙◌, ◌≤◌, eq_iff,
}
use medods_dvortsov.Go.Errors.{Caught, ok, returned, failed}
use medods_dvortsov.Go.Strings.{split}
use medods_dvortsov.Models.{RefreshSession, UserMetadata, User}
use medods_dvortsov.Platform.{Platform}
use medods_dvortsov.Platform.Machine.{Reply-cases}
use medods_dvortsov.Program.{program, Db, Worlds}
use medods_dvortsov.Auth.Made.{create_refresh_token-Made, Covers, Covers-later}
use medods_dvortsov.Program.Ends.{any_value, Held, Ends-wrap_ok, Ends-weaken_ok, Ends-value}
use medods_dvortsov.Program.Calls.{lift-Ends}
use medods_dvortsov.Program.Evolves.{
  quiet_rules, Evolves-wrap, Evolves-attempt, time_now-Quiet, new_uuid-Quiet,
}
use medods_dvortsov.Storage.Statements.{
  has_selector, is_active_with, is_session_of, row_session, delete_user_sessions,
}
use medods_dvortsov.Storage.Users.{run_statement}
use medods_dvortsov.Storage.Sessions.{delete_all_user_sessions}
use medods_dvortsov.Storage.Invariant.{IsValid}
use medods_dvortsov.Storage.Effects.{
  FoundOrCreated, Looked, find_session_by_selector-Ends, get_active_session_by_selector-Looked,
}
use medods_dvortsov.Storage.Quiet.{
  get_active_session_by_selector-Quiet, find_session_by_selector-Quiet,
}
use medods_dvortsov.Storage.Rotate.{rotate_tokens_tx-Atomic}
use medods_dvortsov.Storage.Issue.{issue_tokens_tx-Atomic}
use medods_dvortsov.Token.{TokenService, two_parts, get_claims_from_token, validate_refresh_token}
use medods_dvortsov.Auth.Refresh.{hash_of_checked, claims_of_parsed}
use medods_dvortsov.Auth.Permits.{Owns, Reused, Moved, Permits}
use medods_dvortsov.Platform.Jwt.{JwtClaims}
use medods_dvortsov.Auth.{
  Request, issue_call, refresh_call, logout_call, public_guid_call, authenticate_call, handle,
  issue_tokens, revoke_stolen, detect_theft_and_revoke, rotate, refresh_active, refresh_found,
  refresh_parts, refresh_tokens, logout,
}
use medods_dvortsov.Auth.Moves.{Change, rotating, revoking, Move}
use medods_dvortsov.Auth.View.{view, view_same, Issued-Move, Rotated-Move, rejected_Move}
use medods_dvortsov.Auth.Quiet.{
  create_access_token-Quiet, create_refresh_token-Quiet, notify_if_moved-Quiet, validate-Quiet,
  invalidate_access_token-Quiet, get_public_guid-Quiet, authenticate-Quiet,
}
use medods_dvortsov.Auth.Steps.{
  Generated-mono, Moves, Moves-bind, Moves-last, Moves-wrap, Moves-when, Moves-throw, Moves-same,
  Ends-caught, Moves-Atomic,
}

module _ (p : Platform) (ts : TokenService) (webhook_url : String) (K : Change → Type 0) where
  delete_all_user_sessions-Moves :
      (id : ℤ) (w : Worlds p) → K (revoking id) → Moves p K w (delete_all_user_sessions p id w).1
  unfolding delete_all_user_sessions run_statement delete_user_sessions program
  delete_all_user_sessions-Moves id w k valid =
      let e : Db = record w.db { sessions = reject (is_session_of id) w.db.sessions } in
      elim (Reply-cases (p.host.reply w.events)) [
        | inl (inl h) ↦ rw (h, run_statement) (rejected_Move K w.db e id k valid refl)
        | inl (inr (m, h)) ↦ rw (h, run_statement) (view_same K w.db w.db refl)
        | inr (m, h) ↦ rw (h, run_statement) (rejected_Move K w.db e id k valid refl)
      ]

  -- The rotation of the session: a new selector from `w` on.
  abbrev Renews : String → RefreshSession → Worlds p → Type 0
  Renews selector s w = Covers p ts (λ new. K (rotating selector new s.user_id)) w

  Renews-later :
      (selector : String) (s : RefreshSession) (w v : Worlds p)
      → w.events ≤ v.events
      → Renews selector s w
      → Renews selector s v
  Renews-later selector s w v later h =
      Covers-later p ts (λ new. K (rotating selector new s.user_id)) w v later h

  rotate-Moves :
      (selector : String) (active : RefreshSession) (meta : UserMetadata) (w : Worlds p)
      → Renews selector active w
      → row_session (find (is_active_with selector) w.db.sessions) ≡ some active
      → Moves p K w (rotate p ts webhook_url selector active meta w).1
  unfolding rotate
  rotate-Moves selector active meta w renews found =
      Moves-bind p K _ _ w _ (time_now-Quiet p) (any_value _ w) λ now w₁ (same₁, e₁) _.
        Moves-bind p K _ _ w₁ _
          (Evolves-wrap _ _ (create_access_token-Quiet p ts active.user_id now)) (any_value _ w₁)
          λ access w₂ (same₂, e₂) _.
            Moves-bind p K _ _ w₂ _ (Evolves-wrap _ _ (create_refresh_token-Quiet p ts))
              (Ends-wrap_ok _ _ (create_refresh_token-Made p ts w₂))
              λ made w₃ (same₃, e₃) new.
                Moves-last p K _ _ w₃
                  (Moves-wrap p K _ _ w₃ (
                    Moves-Atomic p K _ _ w₃ (rotate_tokens_tx-Atomic p selector _ active.user_id w₃)
                      λ u e valid.
                        Rotated-Move K w₃.db e selector _ active u valid
                          (Renews-later selector active w w₂ (omega arith) renews made.1 new.0)
                          (rw (same₃, same₂, same₁) found)))
                  (λ _. search quiet_rules)

  refresh_active-Moves :
      (jti selector token : String) (m : UserMetadata) (s : RefreshSession) (w : Worlds p)
      → (s.access_token_jti ≡ jti
          → s.user_agent ≡ m.user_agent
          → validate_refresh_token p ts token s.verifier_hash ≡ ok tt
          → Renews selector s w)
      → (s.access_token_jti ≡ jti → (s.user_agent ≡ m.user_agent → ⊥) → K (revoking s.user_id))
      → row_session (find (is_active_with selector) w.db.sessions) ≡ some s
      → Moves p K w (refresh_active p ts webhook_url jti selector token m s w).1
  unfolding refresh_active
  refresh_active-Moves jti selector token m s w renews stolen found =
      Moves-when p K _ _ _ w (λ _. Moves-throw p K _ _ w)
        λ jti_same.
          let same_token : s.access_token_jti ≡ jti =
            ground (arith, eq_iff s.access_token_jti jti) in
          Moves-when p K _ _ _ w
            (λ other.
              Moves-last p K _ _ w
                (Moves-wrap p K _ _ w (
                  delete_all_user_sessions-Moves s.user_id w
                    (stolen same_token (λ same. ground (arith, eq_iff s.user_agent m.user_agent)))))
                (λ _. search quiet_rules))
            λ agent_same.
              Moves-bind p K _ _ w _ (notify_if_moved-Quiet p ts webhook_url s m) (any_value _ w)
                λ _ w₁ (same₁, e₁) _.
                  Moves-bind p K _ _ w₁ _ (search quiet_rules) (lift-Ends _ w₁)
                    λ _ w₂ (same₂, e₂) checked.
                      rotate-Moves selector s m w₂
                        (Renews-later selector s w w₂ (omega arith) (
                          renews same_token (ground (arith, eq_iff s.user_agent m.user_agent))
                            checked.0))
                        (rw (same₂, same₁) found)

  revoke_stolen-Moves :
      (A : Type 0) (r : Caught RefreshSession) (w : Worlds p)
      → Held (λ s _. K (revoking s.user_id)) r w
      → Moves p K w (revoke_stolen p ts webhook_url {A = A} r w).1
  unfolding revoke_stolen
  revoke_stolen-Moves A (failed e) w h = Moves-throw p K _ _ w
  revoke_stolen-Moves A (returned s) w h =
      Moves-last p K _ _ w (Moves-wrap p K _ _ w (delete_all_user_sessions-Moves s.user_id w h))
        (λ _. search quiet_rules)

  detect_theft_and_revoke-Moves :
      (A : Type 0) (selector : String) (w : Worlds p)
      → ((s : RefreshSession)
          → row_session (find (has_selector selector) w.db.sessions) ≡ some s
          → K (revoking s.user_id))
      → Moves p K w (detect_theft_and_revoke p ts webhook_url {A = A} selector w).1
  unfolding detect_theft_and_revoke
  detect_theft_and_revoke-Moves A selector w stolen =
      Moves-bind p K _ _ w _ (Evolves-attempt _ (find_session_by_selector-Quiet p selector))
        (Ends-caught p K _ w
          (Ends-weaken_ok (find_session_by_selector-Ends p selector w) (λ s v h. stolen s h)))
        (λ r v _ held. revoke_stolen-Moves A r v held)

  refresh_found-Moves :
      (jti selector token : String) (m : UserMetadata) (r : Caught RefreshSession) (w : Worlds p)
      → ((s : RefreshSession)
          → row_session (find (is_active_with selector) w.db.sessions) ≡ some s
          → s.access_token_jti ≡ jti
          → s.user_agent ≡ m.user_agent
          → validate_refresh_token p ts token s.verifier_hash ≡ ok tt
          → Renews selector s w)
      → ((s : RefreshSession)
          → Reused selector w.db s ⊎ Moved jti selector m w.db s
          → K (revoking s.user_id))
      → Looked p selector w.db r
      → Moves p K w (refresh_found p ts webhook_url jti selector token m r w).1
  unfolding refresh_found
  refresh_found-Moves jti selector token m (returned s) w renews stolen found =
      refresh_active-Moves jti selector token m s w (renews s found)
        (λ same other. stolen s (inr (found, same, other))) found
  refresh_found-Moves jti selector token m (failed e) w renews stolen found =
      Moves-when p K _ _ _ w
        (λ absent.
          detect_theft_and_revoke-Moves _ selector w (λ s h. stolen s (inl (found absent, h))))
        (λ _. Moves-throw p K _ _ w)

module _ (p : Platform) (ts : TokenService) (webhook_url : String) where
  refresh_parts-Moves :
      (access token : String) (m : UserMetadata) (u : Worlds p) (claims : JwtClaims)
      (parts : Option (String × String)) (w : Worlds p)
      → (w.db ≡ u.db) × (u.events ≤ w.events)
      → p.jwt.parse_unverified access ≡ ok claims
      → two_parts (split b'.' token) ≡ parts
      → Moves p
          (Permits p ts u (refresh_call access token m))
          w
          (refresh_parts p ts webhook_url claims.id parts token m w).1
  unfolding refresh_parts
  refresh_parts-Moves access token m u claims none w at claimed split_up = Moves-throw p _ _ _ w
  refresh_parts-Moves access token m u claims (some (selector, verifier)) w at claimed split_up =
      Moves-bind p _ _ _ w _ (Evolves-attempt _ (get_active_session_by_selector-Quiet p selector))
        (get_active_session_by_selector-Looked p selector w)
        λ r v (same, e) looked.
          let here : v.db ≡ u.db = same ∙ at.0 in
          refresh_found-Moves p ts webhook_url (Permits p ts u (refresh_call access token m))
            claims.id selector token m r v
            (λ s found jti agent checked new made. (
              Generated-mono p ts u v new (omega (arith, at.1)) made,
              record {
                claims = claims;
                verifier = verifier;
                session = s;
                claimed = claimed;
                parts = split_up;
                active = rw (← here) found;
                same_token = jti;
                same_agent = agent;
                same_hash =
                    hash_of_checked p ts token selector verifier s.verifier_hash split_up checked;
                owned = refl;
              },
            ))
            (λ s theft. record {
              claims = claims;
              selector = selector;
              verifier = verifier;
              session = s;
              claimed = claimed;
              parts = split_up;
              theft = rw (← here) theft;
              owned = refl;
            })
            (rw (same) looked)

  pub refresh_tokens-Moves :
      (access token : String) (m : UserMetadata) (w : Worlds p)
      → Moves p
          (Permits p ts w (refresh_call access token m))
          w
          (refresh_tokens p ts webhook_url access token m w).1
  unfolding refresh_tokens
  refresh_tokens-Moves access token m w =
      Moves-bind p _ _ _ w _ (search quiet_rules)
        (Ends-wrap_ok _ _ (lift-Ends (get_claims_from_token p ts access) w))
        λ claims v (same, e) got.
          refresh_parts-Moves access token m w claims (two_parts (split b'.' token)) v (same, e)
            (claims_of_parsed p ts access claims got.0) refl

  owner_of : (guid : String) (d e : Db) (u : User) → FoundOrCreated guid d e u → Owns guid d u.id
  owner_of guid d e u (inl (found, _)) = inl (u, found, refl)
  owner_of guid d e u (inr (absent, id, _)) = inr (absent, id)

  pub issue_tokens-Moves :
      (guid : String) (m : UserMetadata) (w : Worlds p)
      → Moves p (Permits p ts w (issue_call guid m)) w (issue_tokens p ts webhook_url guid m w).1
  unfolding issue_tokens
  issue_tokens-Moves guid m w =
      Moves-bind p _ _ _ w _ (time_now-Quiet p) (any_value _ w) λ now w₁ (same₁, e₁) _.
        Moves-bind p _ _ _ w₁ _ (new_uuid-Quiet p) (any_value _ w₁) λ jti w₂ (same₂, e₂) _.
          Moves-bind p _ _ _ w₂ _ (Evolves-wrap _ _ (create_refresh_token-Quiet p ts))
            (Ends-wrap_ok _ _ (create_refresh_token-Made p ts w₂))
            λ made w₃ (same₃, e₃) new.
              Moves-last p _ _ _ w₃
                (Moves-wrap p _ _ _ w₃ (
                  Moves-Atomic p _ _ _ w₃ (issue_tokens_tx-Atomic p guid _ w₃) λ u e valid issued.
                    let here : w₃.db ≡ w.db = same₃ ∙ same₂ ∙ same₁ in
                    Issued-Move (Permits p ts w (issue_call guid m)) w₃.db e guid _ u
                      (
                        Generated-mono p ts w w₂ made.1 (omega arith) new.0,
                        rw (← here) (owner_of guid w₃.db e u issued.user),
                      )
                      issued))
                (λ _. search quiet_rules)

  pub logout-Moves :
      (access : String) (w : Worlds p)
      → Moves p (Permits p ts w (logout_call access)) w (logout p ts webhook_url access w).1
  unfolding logout
  logout-Moves access w =
      Moves-bind p _ _ _ w _ (Evolves-wrap _ _ (validate-Quiet p ts access))
        (Ends-wrap_ok _ _ (Ends-value (any_value _ w)))
        λ id w₁ _ got.
          Moves-bind p _ _ _ w₁ _ (Evolves-wrap _ _ (invalidate_access_token-Quiet p ts access))
            (any_value _ w₁)
            λ _ w₂ _ _. Moves-wrap p _ _ _ w₂ (
              delete_all_user_sessions-Moves p ts webhook_url (Permits p ts w (logout_call access))
                id w₂ got.1)

  -- One call of the service, from valid tables, makes one move at most on the view of the sessions,
  -- and the one that it is for, whatever the services answer and however it ends. IssueTokens opens a
  -- session of the GUID's user, or of the next user, under a selector that was free. RefreshTokens
  -- replaces the active session that is presented, if it names the access token and the user agent and
  -- has the hash of the verifier, by another of its owner, and marks it as used; or it ends every
  -- session of the owner of the presented selector, if its session was not active, or was active for
  -- another user agent and named the access token. Logout ends every session of the user that the
  -- access token is accepted as. The other calls change nothing. A new selector comes from what the
  -- random source gives from the call on.
  pub handle-Move :
      (r : Request) (w : Worlds p)
      → IsValid w.db
      → Move (Permits p ts w r) (view w.db) (view (handle p ts webhook_url r w).db)
  unfolding handle
  handle-Move (issue_call guid m) w = issue_tokens-Moves guid m w
  handle-Move (refresh_call access token m) w = refresh_tokens-Moves access token m w
  handle-Move (logout_call access) w = logout-Moves access w
  handle-Move (public_guid_call id) w =
      Moves-same p (Permits p ts w (public_guid_call id)) _ w
        (get_public_guid-Quiet p ts webhook_url id)
  handle-Move (authenticate_call access) w =
      Moves-same p (Permits p ts w (authenticate_call access)) _ w
        (authenticate-Quiet p ts webhook_url access)
