-- ===== src/Auth/Lifetime.antt =====
-- A refresh token after its use, through every later call of the service.
use medods_dvortsov.Prelude.{
  ◌≡◌, ◌∙◌, sym, String, ℤ, Option, none, some, List, [], ◌∷◌, find, false, arith, Bool-cases, inl,
  inr,
}
use medods_dvortsov.Go.Errors.{ok}
use medods_dvortsov.Go.Strings.{split}
use medods_dvortsov.Models.{UserMetadata}
use medods_dvortsov.Platform.{Platform}
use medods_dvortsov.Program.{SessionRow, Db, Worlds, active, used, Status}
use medods_dvortsov.Program.Ends.{Ends, OnOk, Ends-weaken_ok, value_of}
use medods_dvortsov.Storage.Statements.{has_selector, is_active, is_active_with}
use medods_dvortsov.Storage.Invariant.{IsValid}
use medods_dvortsov.Token.{TokenService, two_parts}
use medods_dvortsov.Auth.{Request, refresh_call, handle, run, refresh_tokens}
use medods_dvortsov.Auth.Moves.{IsSpent, Move-IsSpent}
use medods_dvortsov.Auth.View.{rows_view, view, view_active}
use medods_dvortsov.Auth.Steps.{Generated, Generated-mono}
use medods_dvortsov.Auth.Permits.{Permits, Permits-Generated}
use medods_dvortsov.Auth.Refined.{handle-Move}
use medods_dvortsov.Auth.Events.{handle-Later}
use medods_dvortsov.Auth.Invariant.{handle-IsValid, run-IsValid}
use medods_dvortsov.Auth.Refresh.{Granted, refresh_tokens-Granted}
use medods_dvortsov.Auth.Replay.{same_parts, spent}

used-IsSpent : (id : ℤ) (st : Status) → is_active st ≡ false → IsSpent (some (id, st))
used-IsSpent id active h = absurd (cc)
used-IsSpent id used h = tt

pub inactive-IsSpent :
    (s : String) (rows : List SessionRow)
    → find (is_active_with s) rows ≡ none
    → IsSpent (rows_view rows s)
inactive-IsSpent s [] h = tt
inactive-IsSpent s (r ∷ rows) h = elim (Bool-cases (has_selector s r)) [
  | inl same ↦ rw same (used-IsSpent r.session.user_id r.status (ground arith))
  | inr other ↦ rw other (inactive-IsSpent s rows (ground arith))
]

active_not_spent : (x : Option (ℤ × Status)) (id : ℤ) → x ≡ some (id, active) → IsSpent x → ⊥
active_not_spent none id h k = absurd (cc)
active_not_spent (some (o, active)) id h k = k
active_not_spent (some (o, used)) id h k = absurd (cc)

module _ (p : Platform) (ts : TokenService) (webhook_url : String) where
  -- A spent selector that the random source does not give again stays spent, through every sequence of
  -- calls from valid tables.
  pub run-IsSpent :
      (rs : List Request) (w : Worlds p) (s : String)
      → IsValid w.db
      → (Generated p ts w s → ⊥)
      → IsSpent (view w.db s)
      → IsSpent (view (run p ts webhook_url rs w).db s)
  unfolding run
  run-IsSpent [] w s valid fresh h = h
  run-IsSpent (r ∷ rs) w s valid fresh h =
      let v = handle p ts webhook_url r w in
      run-IsSpent rs v s (handle-IsValid p ts webhook_url r w valid)
        (λ g. fresh (Generated-mono p ts w v s (handle-Later p ts webhook_url r w) g))
        (Move-IsSpent (Permits p ts w r) (view w.db) (view v.db) s
          (λ c k brings. fresh (Permits-Generated p ts w r s c k brings))
          (handle-Move p ts webhook_url r w valid) h)

  pub not-Granted :
      (access refresh selector verifier : String) (m : UserMetadata) (d e : Db)
      (tokens : String × String)
      → IsValid d
      → two_parts (split b'.' refresh) ≡ some (selector, verifier)
      → IsSpent (view d selector)
      → Granted p ts access refresh m d e tokens
      → ⊥
  not-Granted access refresh selector verifier m d e tokens valid parts gone granted =
      let (same, _) =
        same_parts granted.selector granted.verifier selector verifier
          (sym granted.parts ∙ parts) in
      let found : rows_view d.sessions selector ≡ some (granted.session.user_id, active) =
        view_active d.sessions_seq d.users selector d.sessions granted.session valid.sessions_valid
          (rw (← same) granted.active) in
      active_not_spent (view d selector) granted.session.user_id found gone

  refreshed-IsValid :
      (access refresh : String) (m : UserMetadata) (w : Worlds p)
      → IsValid w.db
      → IsValid (refresh_tokens p ts webhook_url access refresh m w).1.db
  unfolding handle
  refreshed-IsValid access refresh m w valid =
      handle-IsValid p ts webhook_url (refresh_call access refresh m) w valid

  module _ (access refresh selector verifier : String) (meta : UserMetadata) (w : Worlds p)
      (tokens : String × String) where
    -- A refresh token yields tokens once, for good. After a call of RefreshTokens on valid tables has
    -- returned tokens, and whatever calls of the service come after it, no call with the same refresh
    -- token returns tokens, whatever access token and client come with it and whatever the services
    -- answer, unless the random source gives the selector of that token again.
    pub refresh_tokens_never_again :
        (rs : List Request) (again : String) (m : UserMetadata)
        → IsValid w.db
        → (refresh_tokens p ts webhook_url access refresh meta w).0 ≡ ok tokens
        → two_parts (split b'.' refresh) ≡ some (selector, verifier)
        → (Generated p ts (refresh_tokens p ts webhook_url access refresh meta w).1 selector → ⊥)
        → Ends
            (refresh_tokens p ts webhook_url again refresh m)
            (run p ts webhook_url rs (refresh_tokens p ts webhook_url access refresh meta w).1)
            (OnOk λ _ _. ⊥)
    refresh_tokens_never_again rs again m valid done parts fresh =
        let v = (refresh_tokens p ts webhook_url access refresh meta w).1 in
        let u = run p ts webhook_url rs v in
        let granted : Granted p ts access refresh meta w.db v.db tokens =
          value_of (refresh_tokens-Granted p ts webhook_url access refresh meta w) done in
        let v_valid : IsValid v.db = refreshed-IsValid access refresh meta w valid in
        let gone : IsSpent (view v.db selector) = inactive-IsSpent selector v.db.sessions (
          spent p ts webhook_url access refresh meta w.db v.db tokens selector verifier granted
            parts) in
        Ends-weaken_ok (refresh_tokens-Granted p ts webhook_url again refresh m u) λ more x h.
          not-Granted again refresh selector verifier m u.db x.db more
            (run-IsValid p ts webhook_url rs v v_valid) parts
            (run-IsSpent rs v selector v_valid fresh gone) h
