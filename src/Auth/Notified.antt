-- ===== src/Auth/Notified.antt =====
-- When RefreshTokens hands a notification over.
use medods_dvortsov.Prelude.{
  String, ◌≡◌, refl, ap, ◌∙◌, ◌⊎◌, inl, inr, ◌==◌, Option, none, some, List, ◌∷◌, find, arith,
  if◌then◌else◌,
}
use medods_dvortsov.Go.Errors.{Result, ok, err, panicked, Caught, returned, failed}
use medods_dvortsov.Go.Strings.{split}
use medods_dvortsov.Models.{RefreshSession, UserMetadata}
use medods_dvortsov.Platform.{Platform}
use medods_dvortsov.Program.{program, Db, IpChange, Worlds, Action}
use medods_dvortsov.Program.Evolves.{Evolves}
use medods_dvortsov.Program.Ends.{
  Ends, OnOk, Held, Ends-throw, Ends-lift, Ends-bind, Ends-wrap, Ends-when, Ends-weaken,
  Ends-attempt,
}
use medods_dvortsov.Storage.Statements.{is_active_with, row_session}
use medods_dvortsov.Storage.Effects.{get_active_session_by_selector-Ends}
use medods_dvortsov.Storage.Sessions.{get_active_session_by_selector}
use medods_dvortsov.Token.{TokenService, two_parts}
use medods_dvortsov.Webhook.{notify_ip_change}
use medods_dvortsov.Auth.{
  notify_if_moved, refresh_active, refresh_found, refresh_parts, refresh_tokens,
}
use medods_dvortsov.Auth.Refresh.{detect_theft_and_revoke-Ends}
use medods_dvortsov.Auth.Silent.{
  Silent, get_active_session_by_selector-Silent, delete_all_user_sessions-Silent, rotate-Silent,
  detect_theft_and_revoke-Silent,
}

abbrev pub change_of : RefreshSession → UserMetadata → IpChange
change_of s meta = record {
  user_id = s.user_id;
  old_ip = s.ip_address;
  new_ip = meta.ip_address;
  user_agent = meta.user_agent;
}

-- The notifications after one for the session, if its address is another and there is a URL.
abbrev pub told : String → RefreshSession → UserMetadata → List IpChange → List IpChange
told url s meta ns =
    if s.ip_address == meta.ip_address then ns else if url == "" then ns else change_of s meta ∷ ns

-- The refresh token selects an active session of the tables, and `after` is `told` of it.
abbrev pub Tells : String → String → UserMetadata → Db → List IpChange → List IpChange → Type 0
Tells url token meta d ns after =
    (selector : String) × (verifier : String) × (s : RefreshSession) × (two_parts (split b'.' token)
      ≡ some (selector, verifier))
    × (row_session (find (is_active_with selector) d.sessions) ≡ some s)
    × (after ≡ told url s meta ns)

-- Tokens come with the notification that is due; anything else with that or none.
abbrev pub Notes :
    {A : Type 0}
    → String
    → String
    → UserMetadata
    → Db
    → List IpChange
    → Result A
    → List IpChange
    → Type 0
Notes url token meta d ns (ok a) after = Tells url token meta d ns after
Notes url token meta d ns (err e) after = (after ≡ ns) ⊎ Tells url token meta d ns after
Notes url token meta d ns panicked after = (after ≡ ns) ⊎ Tells url token meta d ns after

module _ (p : Platform) (ts : TokenService) (webhook_url : String) (token : String)
    (meta : UserMetadata) where
  notify_if_moved-told :
      (s : RefreshSession) (w : Worlds p)
      → Ends
          (notify_if_moved p ts webhook_url s meta)
          w
          (λ r v. (r ≡ ok tt) × (v.notified ≡ told webhook_url s meta w.notified))
  unfolding program notify_if_moved notify_ip_change
  notify_if_moved-told s w = record { post = ground arith }

  quietly :
      {A : Type 0} (m : Action p A) (ns : List IpChange) (w : Worlds p)
      → Evolves Silent m
      → w.notified ≡ ns
      → Ends m w (λ _ v. v.notified ≡ ns)
  quietly m ns w h same = record { post = h.at w ∙ same }

  -- After `ns` was told, nothing more is handed over.
  told-Notes :
      {A : Type 0} (d : Db) (ns after : List IpChange) (r : Result A)
      → Tells webhook_url token meta d ns after
      → Notes webhook_url token meta d ns r after
  told-Notes d ns after (ok a) tells = tells
  told-Notes d ns after (err e) tells = inr tells
  told-Notes d ns after panicked tells = inr tells

  -- An error comes after nothing was told.
  refused-Notes :
      {A : Type 0} (m : Action p A) (d : Db) (ns : List IpChange) (w : Worlds p)
      → Evolves Silent m
      → Ends m w (OnOk λ _ _. ⊥)
      → w.notified ≡ ns
      → Ends m w (λ r v. Notes webhook_url token meta d ns r v.notified)
  refused-Notes {A} m d ns w h never same = record {
    post = refused (m w).0 (m w).1 (h.at w ∙ same) never.post;
  }
    where
      refused :
          (r : Result A) (v : Worlds p)
          → v.notified ≡ ns
          → OnOk (λ _ _. ⊥) r v
          → Notes webhook_url token meta d ns r v.notified
      refused (ok a) v kept none_ok = absurd none_ok
      refused (err e) v kept none_ok = inl kept
      refused panicked v kept none_ok = inl kept

  refresh_active-Notes :
      (jti selector verifier : String) (s : RefreshSession) (d : Db) (ns : List IpChange)
      (w : Worlds p)
      → two_parts (split b'.' token) ≡ some (selector, verifier)
      → row_session (find (is_active_with selector) d.sessions) ≡ some s
      → w.notified ≡ ns
      → Ends
          (refresh_active p ts webhook_url jti selector token meta s)
          w
          (λ r v. Notes webhook_url token meta d ns r v.notified)
  unfolding refresh_active
  refresh_active-Notes jti selector verifier s d ns w parts found same =
      Ends-when _ _ _ (λ other. Ends-throw _ (inl same))
        λ jti_same.
          Ends-when _ _ _
            (λ other.
              Ends-bind {Q = λ _ v. v.notified ≡ ns} _ _
                (Ends-wrap _ _ (quietly _ ns w (delete_all_user_sessions-Silent p s.user_id) same))
                (λ _ v kept. Ends-throw _ (inl kept)) (λ e v kept. inl kept) (λ v kept. inl kept))
            λ agent.
              Ends-bind _ _ (notify_if_moved-told s w)
                (λ _ v (_, noted).
                  let tells : Tells webhook_url token meta d ns v.notified =
                    (selector, verifier, s, parts, found, rw (← same) noted) in
                  Ends-bind {Q = λ _ x. x ≡ v} _ _ (Ends-lift _ refl)
                    (λ _ x at.
                      Ends-weaken {P = λ r y. y.notified ≡ v.notified}
                        (quietly _ v.notified x (rotate-Silent p ts webhook_url selector s meta)
                          (ap (λ (y : Worlds p). y.notified) at))
                        λ r y kept. told-Notes d ns y.notified r (rw kept tells))
                    (λ e x at. inr (rw at tells)) (λ x at. inr (rw at tells)))
                (λ e v (fails, _). absurd (ground arith)) (λ v (fails, _). absurd (ground arith))

  refresh_found-Notes :
      (jti selector verifier : String) (r : Caught RefreshSession) (d : Db) (ns : List IpChange)
      (w : Worlds p)
      → two_parts (split b'.' token) ≡ some (selector, verifier)
      → Held (λ s _. row_session (find (is_active_with selector) d.sessions) ≡ some s) r w
      → w.notified ≡ ns
      → Ends
          (refresh_found p ts webhook_url jti selector token meta r)
          w
          (λ r v. Notes webhook_url token meta d ns r v.notified)
  unfolding refresh_found
  refresh_found-Notes jti selector verifier (returned s) d ns w parts found same =
      refresh_active-Notes jti selector verifier s d ns w parts found same
  refresh_found-Notes jti selector verifier (failed e) d ns w parts found same =
      Ends-when _ _ _
        (λ absent.
          refused-Notes _ d ns w (detect_theft_and_revoke-Silent p ts webhook_url _ selector)
            (detect_theft_and_revoke-Ends p ts webhook_url selector w) same)
        (λ other. Ends-throw _ (inl same))

  found_silently :
      (selector : String) (w : Worlds p)
      → Ends (get_active_session_by_selector p selector) w (λ r v.
        OnOk (λ s _. row_session (find (is_active_with selector) w.db.sessions) ≡ some s) r v
        × (v.notified ≡ w.notified))
  found_silently selector w = record {
    post = (
      (get_active_session_by_selector-Ends p selector w).post.1,
      (get_active_session_by_selector-Silent p selector).at w,
    );
  }

  refresh_parts-Notes :
      (jti : String) (parts : Option (String × String)) (w : Worlds p)
      → two_parts (split b'.' token) ≡ parts
      → Ends
          (refresh_parts p ts webhook_url jti parts token meta)
          w
          (λ r v. Notes webhook_url token meta w.db w.notified r v.notified)
  unfolding refresh_parts
  refresh_parts-Notes jti none w two = Ends-throw _ (inl refl)
  refresh_parts-Notes jti (some (selector, verifier)) w two =
      Ends-attempt _ _ (found_silently selector w)
        (λ s w₁ (h, same).
          refresh_found-Notes jti selector verifier (returned s) w.db w.notified w₁ two h same)
        (λ e w₁ (h, same).
          refresh_found-Notes jti selector verifier (failed e) w.db w.notified w₁ two tt same)
        (λ w₁ (h, same). inl same)

  -- Where RefreshTokens returns tokens, one notification has been handed over if there is a URL and the
  -- client's address is not that of the active session that the refresh token selects, and none
  -- otherwise. Where it fails, it has handed over that notification or none.
  pub refresh_tokens-Notes :
      (access : String) (w : Worlds p)
      → Ends
          (refresh_tokens p ts webhook_url access token meta)
          w
          (λ r v. Notes webhook_url token meta w.db w.notified r v.notified)
  unfolding refresh_tokens
  refresh_tokens-Notes access w =
      Ends-bind {Q = λ _ x. x ≡ w} _ _ (Ends-wrap _ _ (Ends-lift _ refl))
        (λ claims x at. rw at (refresh_parts-Notes claims.id (two_parts (split b'.' token)) w refl))
        (λ e x at. inl (ap (λ (y : Worlds p). y.notified) at))
        (λ x at. inl (ap (λ (y : Worlds p). y.notified) at))
