-- ===== src/Models.antt =====
-- internal/models/common.go. An int64 is a ℤ; a time.Time is a number of milliseconds since 1970.
use medods_dvortsov.Prelude.{ℕ, String, ℤ, pos, negsuc, ◌+◌, ◌-◌, ◌/◌}

abbrev pub Time : Type 0
Time = ℕ

-- `now.Add(d)` of Go's time, for `d` nanoseconds, in whole milliseconds: a part of one is rounded down.
-- A time before 1970 stands as 0.
abbrev pub time_add : Time → ℤ → Time
time_add now (pos d) = now + d / 1000000
time_add now (negsuc d) = now - (d / 1000000 + 1)

pub record RefreshSession : Type 0 where
  pub id : ℤ
  pub user_id : ℤ
  pub selector : String
  pub verifier_hash : String
  pub user_agent : String
  pub ip_address : String
  pub access_token_jti : String
  pub created_at : Time
  pub expires_at : Time

pub record UserMetadata : Type 0 where
  pub user_agent : String
  pub ip_address : String

pub record User : Type 0 where
  pub id : ℤ
  pub guid : String

abbrev pub mw_scheme_api_key_auth : String
mw_scheme_api_key_auth = "ApiKeyAuth"

abbrev pub mw_scheme_bearer_auth : String
mw_scheme_bearer_auth = "BearerAuth"
