-- ===== src/Auth/Made.antt =====
-- The refresh tokens that a part of the service makes from a world on.
use medods_dvortsov.Prelude.{◌≤◌, String, ◌≡◌, refl, arith}
use medods_dvortsov.Platform.{Platform}
use medods_dvortsov.Program.{Worlds}
use medods_dvortsov.Program.Ends.{Ends, OnOk, Ends-wrap_ok, Ends-then, Ends-pure}
use medods_dvortsov.Program.Calls.{rand_read-Ends}
use medods_dvortsov.Token.{TokenService, create_refresh_token}
use medods_dvortsov.Auth.Steps.{Generated, Generated-mono}

module _ (p : Platform) (ts : TokenService) where
  -- A refresh token that is created from `w` on.
  abbrev pub Made : Worlds p → String × String × String → Worlds p → Type 0
  Made w made v = (Generated p ts w made.1) × (v.db ≡ w.db)

  pub create_refresh_token-Made :
      (w : Worlds p) → Ends (create_refresh_token p ts) w (OnOk (Made w))
  unfolding create_refresh_token
  create_refresh_token-Made w =
      Ends-then _ _ (Ends-wrap_ok _ _ (rand_read-Ends p _ w))
        λ raw w₁ h. Ends-pure _ ((w.events, raw, omega arith, h.0, refl), ground arith)

  -- Every selector that is generated from `w` on is in `G`.
  abbrev pub Covers : (String → Type 0) → Worlds p → Type 0
  Covers G w = (s : String) → Generated p ts w s → G s

  pub Covers-later :
      (G : String → Type 0) (w v : Worlds p) → w.events ≤ v.events → Covers G w → Covers G v
  Covers-later G w v h c s g = c s (Generated-mono p ts w v s h g)
