-- ===== src/Storage/Issue.antt =====
-- What IssueTokensTx does to the tables.
use medods_dvortsov.Prelude.{◌≡◌, String, some, arith, find}
use medods_dvortsov.Go.Errors.{Caught, returned, failed}
use medods_dvortsov.Models.{RefreshSession, User}
use medods_dvortsov.Platform.{Platform}
use medods_dvortsov.Program.{Worlds, pure, wrap, ◌>>=◌}
use medods_dvortsov.Program.Ends.{
  Ends, OnOk, Held, Ends-pure, Ends-throw, Ends-wrap_ok, Ends-when, Ends-weaken_ok, Ends-then,
  Ends-attempt,
}
use medods_dvortsov.Storage.Statements.{has_guid}
use medods_dvortsov.Storage.Sessions.{create_session}
use medods_dvortsov.Storage.Transactions.{found_or_created, issue_tokens_body, issue_tokens_tx}
use medods_dvortsov.Storage.Effects.{
  FoundOrCreated, Issued, find-has_guid, get_user_by_guid-Ends, create_user-Ends,
  create_session-Ends,
}
use medods_dvortsov.Storage.Atomicity.{Atomic, in_transaction-Atomic}

module _ (p : Platform) where
  abbrev Got : String → Worlds p → User → Worlds p → Type 0
  Got guid w u w' =
      FoundOrCreated guid w.db w'.db u
      × (u.guid ≡ guid)
      × (w'.db.sessions ≡ w.db.sessions)
      × (w'.db.sessions_seq ≡ w.db.sessions_seq)

  found_or_created-Ends :
      (guid : String) (w w₁ : Worlds p) (r : Caught User)
      → w₁.db ≡ w.db
      → Held (λ u v. find (has_guid guid) w.db.users ≡ some u) r w₁
      → Ends (found_or_created p guid r) w₁ (OnOk (Got guid w))
  unfolding found_or_created
  found_or_created-Ends guid w w₁ (returned u) same h =
      Ends-pure _ (ground (arith, find-has_guid guid w.db.users u))
  found_or_created-Ends guid w w₁ (failed e) same h =
      Ends-when _ _ _
        (λ absent.
          Ends-wrap_ok _ _
            (Ends-weaken_ok (create_user-Ends p guid w₁) (λ u w₂ made. ground arith)))
        (λ other. Ends-throw _ tt)

  store_session :
      (guid : String) (s : RefreshSession) (w w₁ : Worlds p) (r : Caught User)
      → w₁.db ≡ w.db
      → Held (λ u v. find (has_guid guid) w.db.users ≡ some u) r w₁
      → Ends
          (do
            user ← found_or_created p guid r
            _ ←
                wrap "failed to create session in tx"
                  (create_session p (record s { user_id = user.id }))
            pure user)
          w₁
          (OnOk λ u w'. Issued guid s w.db w'.db u)
  store_session guid s w w₁ r same h =
      Ends-then _ _ (found_or_created-Ends guid w w₁ r same h) λ u w₂ got.
        Ends-then _ _ (Ends-wrap_ok _ _ (create_session-Ends p (record s { user_id = u.id }) w₂))
          λ n w₃ h. Ends-pure _ (ground arith)

  issue_tokens_body-Ends :
      (guid : String) (s : RefreshSession) (w : Worlds p)
      → Ends (issue_tokens_body p guid s) w (OnOk λ u w'. Issued guid s w.db w'.db u)
  unfolding issue_tokens_body
  issue_tokens_body-Ends guid s w =
      Ends-attempt _ _ (get_user_by_guid-Ends p guid w)
        (λ u w₁ h. store_session guid s w w₁ (returned u) h.0 h.1)
        (λ e w₁ h. store_session guid s w w₁ (failed e) h.0 h.1) (λ w₁ h. tt)

  -- IssueTokensTx is atomic, whatever the database answers. When it returns a user, the tables hold one
  -- more active session, with the user's identifier and a selector that no session had, and the user
  -- is the one with the GUID, found or created. After an error they are as before, or, where the
  -- answer to COMMIT was lost, changed in just that way; after a panic they are as before.
  pub issue_tokens_tx-Atomic :
      (guid : String) (s : RefreshSession) (w : Worlds p)
      → Ends (issue_tokens_tx p guid s) w (Atomic (λ u e. Issued guid s w.db e u) w.db)
  unfolding issue_tokens_tx
  issue_tokens_tx-Atomic guid s w =
      in_transaction-Atomic p (λ u e. Issued guid s w.db e u) (issue_tokens_body p guid s) w
        (λ v same. rw (← same) (issue_tokens_body-Ends guid s v))
