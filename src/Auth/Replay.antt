-- ===== src/Auth/Replay.antt =====
-- What a rotation of RefreshTokens leaves of the old refresh token: no active session.
use medods_dvortsov.Prelude.{
  String, ◌≡◌, refl, true, false, Option, none, some, List, [], ◌∷◌, map, arith, find, any,
  ==-false_of_ne, ◌≢◌, ℤ, ap, ◌∙◌, sym,
}
use medods_dvortsov.Go.Strings.{split}
use medods_dvortsov.Models.{RefreshSession, User, UserMetadata}
use medods_dvortsov.Platform.{Platform}
use medods_dvortsov.Program.{SessionRow, Db}
use medods_dvortsov.Storage.Statements.{is_active_with, has_selector, row_session, mark_row}
use medods_dvortsov.Storage.Effects.{Rotated}
use medods_dvortsov.Token.{TokenService, two_parts}
use medods_dvortsov.Auth.Refresh.{Granted}

pub same_parts :
    (s v s' v' : String)
    → ◌≡◌ {A = Option (String × String)} (some (s, v)) (some (s', v'))
    → (s ≡ s') × (v ≡ v')
same_parts s v s' v' h = (cc, cc)

-- Marking leaves no active row of the selector, and keeps its rows.
find-map_mark :
    (selector : String) (rows : List SessionRow)
    → find (is_active_with selector) (map (mark_row selector) rows) ≡ none
find-map_mark selector [] = refl
find-map_mark selector (r ∷ rows) = ground (arith, find-map_mark selector rows)

any-map_mark :
    (selector : String) (rows : List SessionRow) (s : RefreshSession)
    → row_session (find (is_active_with selector) rows) ≡ some s
    → any (has_selector selector) (map (mark_row selector) rows) ≡ true
any-map_mark selector [] s h = cc
any-map_mark selector (r ∷ rows) s h = ground (arith, any-map_mark selector rows s)

other_selector :
    (selector old : String) (rows : List SessionRow) (x : RefreshSession)
    → row_session (find (is_active_with old) rows) ≡ some x
    → any (has_selector selector) (map (mark_row old) rows) ≡ false
    → selector ≢ old
other_selector selector old rows x found fresh same = absurd (
    ground (
      arith,
      any-map_mark old rows x found,
      ap (λ (k : String). any (has_selector k) (map (mark_row old) rows)) same,
    ))

spent_by_rotation :
    (selector : String) (s : RefreshSession) (id : ℤ) (d e : Db) (u : User) (x : RefreshSession)
    → Rotated selector s id d e u
    → row_session (find (is_active_with selector) d.sessions) ≡ some x
    → find (is_active_with selector) e.sessions ≡ none
spent_by_rotation selector s id d e u x rotated found = rw rotated.sessions (
    ground (
      arith,
      ==-false_of_ne s.selector selector
          (other_selector s.selector selector d.sessions x found rotated.fresh),
      find-map_mark selector d.sessions,
    ))

module _ (p : Platform) (ts : TokenService) (webhook_url : String) where
  module _ (access_token refresh_token : String) (meta : UserMetadata) where
    pub spent :
        (d e : Db) (tokens : String × String) (selector verifier : String)
        → Granted p ts access_token refresh_token meta d e tokens
        → two_parts (split b'.' refresh_token) ≡ some (selector, verifier)
        → find (is_active_with selector) e.sessions ≡ none
    spent d e tokens selector verifier granted parts =
        let (same, _) =
          same_parts granted.selector granted.verifier selector verifier
            (sym granted.parts ∙ parts) in
        rw (← same) (
          spent_by_rotation granted.selector _ _ d e _ granted.session granted.renewed.rotated
            granted.active)
