-- ===== src/Auth/Permits.antt =====
-- The change of the sessions that each call of internal/service/auth.go may make, as the tables and the
-- services stand when it is called.
use medods_dvortsov.Prelude.{String, ℤ, pos, suc, ◌≡◌, ◌⊎◌, none, some, find}
use medods_dvortsov.Go.Errors.{ok}
use medods_dvortsov.Go.Hex
use medods_dvortsov.Go.Strings.{split}
use medods_dvortsov.Models.{RefreshSession, UserMetadata, User}
use medods_dvortsov.Platform.{Platform}
use medods_dvortsov.Platform.Jwt.{JwtClaims}
use medods_dvortsov.Program.{Db, Worlds}
use medods_dvortsov.Storage.Statements.{is_active_with, has_selector, has_guid, row_session}
use medods_dvortsov.Token.{TokenService, two_parts, validate_access_token_and_get_user_id}
use medods_dvortsov.Auth.{
  Request, issue_call, refresh_call, logout_call, public_guid_call, authenticate_call,
}
use medods_dvortsov.Auth.Moves.{Change, opening, rotating, revoking, Brings}
use medods_dvortsov.Auth.Steps.{Generated}

-- The identifier of the user with the GUID, or the next one where there is no such user.
abbrev pub Owns : String → Db → ℤ → Type 0
Owns guid d id =
    ((u : User) × (find (has_guid guid) d.users ≡ some u) × (u.id ≡ id))
    ⊎ ((find (has_guid guid) d.users ≡ none) × (id ≡ pos (suc d.users_seq)))

-- The selector is the one that the refresh token presents, and its active session belongs to the
-- owner, names the access token and the user agent, and has the hash of the token's other part.
pub record Renewable (p : Platform) (access_token refresh_token : String) (meta : UserMetadata)
    (d : Db) (selector : String) (owner : ℤ) : Type 0 where
  pub claims : JwtClaims
  pub verifier : String
  pub session : RefreshSession
  pub claimed : p.jwt.parse_unverified access_token ≡ ok claims
  pub parts : two_parts (split b'.' refresh_token) ≡ some (selector, verifier)
  pub active : row_session (find (is_active_with selector) d.sessions) ≡ some session
  pub same_token : session.access_token_jti ≡ claims.id
  pub same_agent : session.user_agent ≡ meta.user_agent
  pub same_hash : Hex.decode session.verifier_hash ≡ some (p.host.sum256 verifier)
  pub owned : session.user_id ≡ owner

-- A session of the selector that is not active any more.
abbrev pub Reused : String → Db → RefreshSession → Type 0
Reused selector d session =
    (find (is_active_with selector) d.sessions ≡ none)
    × (row_session (find (has_selector selector) d.sessions) ≡ some session)

-- The active session of the selector names the access token and another user agent.
abbrev pub Moved : String → String → UserMetadata → Db → RefreshSession → Type 0
Moved jti selector meta d session =
    (row_session (find (is_active_with selector) d.sessions) ≡ some session)
    × (session.access_token_jti ≡ jti)
    × (session.user_agent ≡ meta.user_agent → ⊥)

-- The selector that the refresh token presents is known, with a session of the owner that has been
-- used, or that is active for another user agent.
pub record Stolen (p : Platform) (access_token refresh_token : String) (meta : UserMetadata)
    (d : Db) (owner : ℤ) : Type 0 where
  pub claims : JwtClaims
  pub selector : String
  pub verifier : String
  pub session : RefreshSession
  pub claimed : p.jwt.parse_unverified access_token ≡ ok claims
  pub parts : two_parts (split b'.' refresh_token) ≡ some (selector, verifier)
  pub theft : Reused selector d session ⊎ Moved claims.id selector meta d session
  pub owned : session.user_id ≡ owner

module _ (p : Platform) (ts : TokenService) where
  -- New selectors are from what the random source gives from the call on.
  abbrev pub Permits : Worlds p → Request → Change → Type 0
  Permits w (issue_call guid meta) (opening new id) = Generated p ts w new × Owns guid w.db id
  Permits w (issue_call guid meta) (rotating old new id) = ⊥
  Permits w (issue_call guid meta) (revoking id) = ⊥
  Permits w (refresh_call access token meta) (opening new id) = ⊥
  Permits w (refresh_call access token meta) (rotating old new id) =
      Generated p ts w new × Renewable p access token meta w.db old id
  Permits w (refresh_call access token meta) (revoking id) = Stolen p access token meta w.db id
  Permits w (logout_call access) (opening new id) = ⊥
  Permits w (logout_call access) (rotating old new id) = ⊥
  Permits w (logout_call access) (revoking id) =
      (validate_access_token_and_get_user_id p ts access w).0 ≡ ok id
  Permits w (public_guid_call id) c = ⊥
  Permits w (authenticate_call access) c = ⊥

  -- A selector that a call brings is from the random source.
  pub Permits-Generated :
      (w : Worlds p) (r : Request) (s : String) (c : Change)
      → Permits w r c
      → Brings s c
      → Generated p ts w s
  Permits-Generated w (issue_call guid m) s (opening new id) h same = rw (← same) h.0
  Permits-Generated w (issue_call guid m) s (rotating old new id) h same = absurd h
  Permits-Generated w (issue_call guid m) s (revoking id) h same = absurd same
  Permits-Generated w (refresh_call a t m) s (opening new id) h same = absurd h
  Permits-Generated w (refresh_call a t m) s (rotating old new id) h same = rw (← same) h.0
  Permits-Generated w (refresh_call a t m) s (revoking id) h same = absurd same
  Permits-Generated w (logout_call a) s (opening new id) h same = absurd h
  Permits-Generated w (logout_call a) s (rotating old new id) h same = absurd h
  Permits-Generated w (logout_call a) s (revoking id) h same = absurd same
  Permits-Generated w (public_guid_call id) s c h same = absurd h
  Permits-Generated w (authenticate_call a) s c h same = absurd h
