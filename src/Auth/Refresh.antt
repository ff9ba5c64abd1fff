-- ===== src/Auth/Refresh.antt =====
-- RefreshTokens as a whole: what has been checked when it returns tokens.
use medods_dvortsov.Prelude.{
  String, ◌≡◌, refl, Option, none, some, arith, find, eq_iff, ap, ◌∙◌, sym,
}
use medods_dvortsov.Go.Errors.{ok, Caught, returned, failed}
use medods_dvortsov.Go.Strings.{split}
use medods_dvortsov.Go.Hex
use medods_dvortsov.Models.{RefreshSession, UserMetadata}
use medods_dvortsov.Platform.{Platform}
use medods_dvortsov.Platform.Jwt.{JwtClaims}
use medods_dvortsov.Program.{Db, Worlds}
use medods_dvortsov.Program.Ends.{
  Ends, OnOk, Held, Ends-throw, Ends-wrap_ok, Ends-weaken_ok, Ends-then, Ends-ok, Ends-when,
  Ends-attempt,
}
use medods_dvortsov.Program.Calls.{lift-Ends}
use medods_dvortsov.Storage.Statements.{is_active_with, row_session}
use medods_dvortsov.Storage.Effects.{
  get_active_session_by_selector-Ends, delete_all_user_sessions-Ends,
}
use medods_dvortsov.Token.{TokenService, two_parts, get_claims_from_token, validate_refresh_token}
use medods_dvortsov.Token.Refresh.{validate_refresh_token_iff}
use medods_dvortsov.Storage.Sessions.{find_session_by_selector}
use medods_dvortsov.Auth.{
  revoke_stolen, detect_theft_and_revoke, refresh_active, refresh_found, refresh_parts,
  refresh_tokens,
}
use medods_dvortsov.Auth.Rotation.{Renewed, rotate-Ends, notify_if_moved-Ends}

-- The presented session was active, is the one the access token names, belongs to the same client
-- and has the hash of the presented verifier; the tokens and the tables are its renewal.
pub record Granted (p : Platform) (ts : TokenService) (access_token refresh_token : String)
    (meta : UserMetadata) (d e : Db) (tokens : String × String) : Type 0 where
  pub claims : JwtClaims
  pub selector : String
  pub verifier : String
  pub session : RefreshSession
  pub claimed : p.jwt.parse_unverified access_token ≡ ok claims
  pub parts : two_parts (split b'.' refresh_token) ≡ some (selector, verifier)
  pub active : row_session (find (is_active_with selector) d.sessions) ≡ some session
  pub same_token : session.access_token_jti ≡ claims.id
  pub same_agent : session.user_agent ≡ meta.user_agent
  pub same_hash : Hex.decode session.verifier_hash ≡ some (p.host.sum256 verifier)
  pub renewed : Renewed p ts selector session meta d e tokens

module _ (p : Platform) (ts : TokenService) where
  second :
      (s v s' v' : String)
      → ◌≡◌ {A = Option (String × String)} (some (s, v)) (some (s', v'))
      → v' ≡ v
  second s v s' v' h = cc

  pub hash_of_checked :
      (token selector verifier verifier_hash : String)
      → two_parts (split b'.' token) ≡ some (selector, verifier)
      → validate_refresh_token p ts token verifier_hash ≡ ok tt
      → Hex.decode verifier_hash ≡ some (p.host.sum256 verifier)
  hash_of_checked token selector verifier verifier_hash parts checked =
      let (s, v, parts', hash) = (validate_refresh_token_iff p ts token verifier_hash).0 checked in
      hash
      ∙ ap (λ (x : String). some (p.host.sum256 x))
          (second selector verifier s v (sym parts ∙ parts'))

  pub claims_of_parsed :
      (token : String) (claims : JwtClaims)
      → get_claims_from_token p ts token ≡ ok claims
      → p.jwt.parse_unverified token ≡ ok claims
  unfolding get_claims_from_token
  claims_of_parsed token claims h = ground arith

module _ (p : Platform) (ts : TokenService) (webhook_url : String) where
  -- Finding a session by its selector alone never yields tokens.
  revoke_stolen-Ends :
      {A : Type 0} (r : Caught RefreshSession) (w : Worlds p)
      → Ends (revoke_stolen p ts webhook_url {A = A} r) w (OnOk λ _ _. ⊥)
  unfolding revoke_stolen
  revoke_stolen-Ends (failed e) w = Ends-throw _ tt
  revoke_stolen-Ends (returned s) w =
      Ends-then _ _ (Ends-wrap_ok _ _ (delete_all_user_sessions-Ends p s.user_id w))
        λ _ w₁ _. Ends-throw _ tt

  pub detect_theft_and_revoke-Ends :
      {A : Type 0} (selector : String) (w : Worlds p)
      → Ends (detect_theft_and_revoke p ts webhook_url {A = A} selector) w (OnOk λ _ _. ⊥)
  unfolding detect_theft_and_revoke
  detect_theft_and_revoke-Ends selector w =
      Ends-attempt {Q = λ _ _. Unit} (find_session_by_selector p selector) _ (record { post = tt })
        (λ s w₁ _. revoke_stolen-Ends (returned s) w₁) (λ e w₁ _. revoke_stolen-Ends (failed e) w₁)
        (λ w₁ _. tt)

  module _ (access_token refresh_token : String) (meta : UserMetadata) where
    refresh_active-Ends :
        (claims : JwtClaims) (selector verifier : String) (session : RefreshSession) (d : Db)
        (w : Worlds p)
        → w.db ≡ d
        → p.jwt.parse_unverified access_token ≡ ok claims
        → two_parts (split b'.' refresh_token) ≡ some (selector, verifier)
        → row_session (find (is_active_with selector) d.sessions) ≡ some session
        → Ends
            (refresh_active p ts webhook_url claims.id selector refresh_token meta session)
            w
            (OnOk λ tokens w'. Granted p ts access_token refresh_token meta d w'.db tokens)
    unfolding refresh_active
    refresh_active-Ends claims selector verifier session d w same claimed parts found =
        Ends-when _ _ _ (λ other. Ends-throw _ tt)
          λ jti.
            Ends-when _ _ _
              (λ other.
                Ends-then _ _ (Ends-wrap_ok _ _ (delete_all_user_sessions-Ends p session.user_id w))
                  λ _ w₁ _. Ends-throw _ tt)
              λ agent.
                Ends-then _ _ (Ends-ok (notify_if_moved-Ends p ts webhook_url session meta w))
                  λ _ w₁ told. Ends-then _ _ (lift-Ends _ w₁) λ _ w₂ checked.
                    Ends-weaken_ok (rotate-Ends p ts webhook_url selector session meta w₂)
                      λ tokens w₃ renewed. record {
                        claims = claims;
                        selector = selector;
                        verifier = verifier;
                        session = session;
                        claimed = claimed;
                        parts = parts;
                        active = found;
                        same_token = ground (arith, eq_iff session.access_token_jti claims.id);
                        same_agent = ground (arith, eq_iff session.user_agent meta.user_agent);
                        same_hash =
                            hash_of_checked p ts refresh_token selector verifier
                              session.verifier_hash parts checked.0;
                        renewed =
                            rw (← (ap (λ (v : Worlds p). v.db) checked.1 ∙ told.1 ∙ same)) renewed;
                      }

    refresh_found-Ends :
        (claims : JwtClaims) (selector verifier : String) (r : Caught RefreshSession) (d : Db)
        (w : Worlds p)
        → w.db ≡ d
        → p.jwt.parse_unverified access_token ≡ ok claims
        → two_parts (split b'.' refresh_token) ≡ some (selector, verifier)
        → Held (λ s _. row_session (find (is_active_with selector) d.sessions) ≡ some s) r w
        → Ends
            (refresh_found p ts webhook_url claims.id selector refresh_token meta r)
            w
            (OnOk λ tokens w'. Granted p ts access_token refresh_token meta d w'.db tokens)
    unfolding refresh_found
    refresh_found-Ends claims selector verifier (returned s) d w same claimed parts found =
        refresh_active-Ends claims selector verifier s d w same claimed parts found
    refresh_found-Ends claims selector verifier (failed e) d w same claimed parts found =
        Ends-when _ _ _
          (λ absent.
            Ends-weaken_ok (detect_theft_and_revoke-Ends selector w) λ a v none. absurd none)
          (λ other. Ends-throw _ tt)

    refresh_parts-Ends :
        (claims : JwtClaims) (parts : Option (String × String)) (w : Worlds p)
        → p.jwt.parse_unverified access_token ≡ ok claims
        → two_parts (split b'.' refresh_token) ≡ parts
        → Ends
            (refresh_parts p ts webhook_url claims.id parts refresh_token meta)
            w
            (OnOk λ tokens w'. Granted p ts access_token refresh_token meta w.db w'.db tokens)
    unfolding refresh_parts
    refresh_parts-Ends claims none w claimed parts = Ends-throw _ tt
    refresh_parts-Ends claims (some (selector, verifier)) w claimed parts =
        Ends-attempt _ _ (get_active_session_by_selector-Ends p selector w)
          (λ s w₁ h.
            refresh_found-Ends claims selector verifier (returned s) w.db w₁ h.0 claimed parts h.1)
          (λ e w₁ h.
            refresh_found-Ends claims selector verifier (failed e) w.db w₁ h.0 claimed parts tt)
          (λ w₁ h. tt)

    -- When RefreshTokens returns tokens, all of `Granted` holds: the access token carries claims, the
    -- refresh token has two parts, the first selects an active session, that session names the access
    -- token's identifier and the caller's user agent, its stored hash is that of the second part, and
    -- the tables differ by exactly the rotation of that session into the session of the new tokens.
    pub refresh_tokens-Granted :
        (w : Worlds p)
        → Ends
            (refresh_tokens p ts webhook_url access_token refresh_token meta)
            w
            (OnOk λ tokens w'. Granted p ts access_token refresh_token meta w.db w'.db tokens)
    unfolding refresh_tokens
    refresh_tokens-Granted w =
        Ends-then _ _ (Ends-wrap_ok _ _ (lift-Ends (get_claims_from_token p ts access_token) w))
          λ claims w₁ h. rw (← ap (λ (v : Worlds p). v.db) h.1) (
            refresh_parts-Ends claims (two_parts (split b'.' refresh_token)) w₁
              (claims_of_parsed p ts access_token claims h.0) refl)
