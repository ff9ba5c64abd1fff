-- ===== src/Auth/Rotation.antt =====
-- The part of RefreshTokens behind its checks: the new pair of tokens and the session it belongs to.
use medods_dvortsov.Prelude.{ℕ, String, ◌≡◌, refl, ℤ, List, arith, ap, ◌==◌, Bool-cases, inl, inr}
use medods_dvortsov.Go.Errors.{ok}
use medods_dvortsov.Models.{time_add, Time, RefreshSession, UserMetadata, User}
use medods_dvortsov.Platform.{Platform}
use medods_dvortsov.Program.{Db, Worlds}
use medods_dvortsov.Program.Ends.{
  Ends, OnOk, Ends-pure, Ends-wrap_ok, Ends-then, Ends-ok, Ends-when,
}
use medods_dvortsov.Program.Calls.{lift-Ends, time_now-Ends, new_uuid-Ends, rand_read-Ends}
use medods_dvortsov.Storage.Effects.{Rotated}
use medods_dvortsov.Storage.Rotate.{rotate_tokens_tx-Atomic}
use medods_dvortsov.Token.{
  TokenService, create_access_token, create_access_token_with_jti, create_refresh_token,
  refresh_token_from,
}
use medods_dvortsov.Webhook.{notify_ip_change}
use medods_dvortsov.Auth.{new_session, rotate, notify_if_moved}

module _ (p : Platform) (ts : TokenService) where
  pub create_access_token-Ends :
      (id : ℤ) (now : Time) (w : Worlds p)
      → Ends (create_access_token p ts id now) w (
          OnOk λ made v.
            (create_access_token_with_jti p ts id now (made.1) ≡ ok made.0) × (v.db ≡ w.db))
  unfolding create_access_token
  create_access_token-Ends id now w = Ends-then _ _ (new_uuid-Ends p w) λ jti w₁ h.
      Ends-then _ _ (lift-Ends (create_access_token_with_jti p ts id now jti) w₁)
        λ token w₂ k. Ends-pure _ (k.0, ground arith)

  pub create_refresh_token-Ends :
      (w : Worlds p)
      → Ends
          (create_refresh_token p ts)
          w
          (OnOk λ made v. ((raw : List ℕ) × (made ≡ refresh_token_from p ts raw)) × (v.db ≡ w.db))
  unfolding create_refresh_token
  create_refresh_token-Ends w =
      Ends-then _ _ (Ends-wrap_ok _ _ (rand_read-Ends p _ w))
        λ raw w₁ h. Ends-pure _ ((raw, refl), ground arith)

-- The pair of tokens is new, and its session has replaced that of the selector.
pub record Renewed (p : Platform) (ts : TokenService) (selector : String) (active : RefreshSession)
    (meta : UserMetadata) (d e : Db) (tokens : String × String) : Type 0 where
  pub now : Time
  pub jti : String
  pub raw : List ℕ
  pub user : User
  pub access : create_access_token_with_jti p ts active.user_id now jti ≡ ok tokens.0
  pub refresh : tokens.1 ≡ (refresh_token_from p ts raw).0
  pub rotated :
      let (_, new_selector, new_hash) = refresh_token_from p ts raw in
      Rotated selector
        (new_session new_selector new_hash meta jti now (time_add now ts.refresh_ttl))
        active.user_id
        d
        e
        user

module _ (p : Platform) (ts : TokenService) (webhook_url : String) where
  pub rotate-Ends :
      (selector : String) (active : RefreshSession) (meta : UserMetadata) (w : Worlds p)
      → Ends
          (rotate p ts webhook_url selector active meta)
          w
          (OnOk λ tokens v. Renewed p ts selector active meta w.db v.db tokens)
  unfolding rotate
  rotate-Ends selector active meta w = Ends-then _ _ (time_now-Ends p w) λ now w₁ at.
      Ends-then _ _ (Ends-wrap_ok _ _ (create_access_token-Ends p ts active.user_id now w₁))
        λ access w₂ h.
          Ends-then _ _ (Ends-wrap_ok _ _ (create_refresh_token-Ends p ts w₂)) λ refresh w₃ k.
            Ends-then _ _
              (Ends-wrap_ok _ _ (Ends-ok (rotate_tokens_tx-Atomic p selector _ active.user_id w₃)))
              λ user w₄ done.
                let same : w₃.db ≡ w.db = ground arith in
                Ends-pure _ (record {
                  now = now;
                  jti = access.1;
                  raw = k.0.0;
                  user = user;
                  access = h.0;
                  refresh = ap (λ (t : String × String × String). t.0) k.0.1;
                  rotated = rw (← k.0.1, ← same) done;
                })

  pub notify_if_moved-Ends :
      (active : RefreshSession) (meta : UserMetadata) (w : Worlds p)
      → Ends (notify_if_moved p ts webhook_url active meta) w (λ r v. (r ≡ ok tt) × (v.db ≡ w.db))
  unfolding notify_if_moved notify_ip_change
  notify_if_moved-Ends active meta w =
      Ends-when _ _ _
        (λ moved. record {
          post = (
            refl,
            elim (Bool-cases (webhook_url == "")) [
              | inl unset ↦ rw unset refl
              | inr set ↦ rw set refl
            ],
          );
        })
        (λ same. Ends-pure _ (refl, refl))
