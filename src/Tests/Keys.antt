-- ===== src/Tests/Keys.antt =====
-- The theorems on API keys at concrete inputs.
use medods_dvortsov.Prelude.{
  String, ◌≡◌, ◌≢◌, refl, some, none, true, false, eq_iff, Option, ◌==◌, if◌then◌else◌, arith,
}
use medods_dvortsov.Go.Errors.{ok}
use medods_dvortsov.Go.Hex
use medods_dvortsov.Platform.Redis.{Entry}
use medods_dvortsov.Program.{program, active, Worlds}
use medods_dvortsov.Program.Ends.{Ends, OnOk}
use medods_dvortsov.ApiKey.{
  current_api_key_redis_key, hash_api_key, sync_api_key, sync_against, is_valid_api_key,
}
use medods_dvortsov.ApiKey.Check.{accepts, is_valid_api_key-Ends}
use medods_dvortsov.ApiKey.Sync.{sync-is_valid}
use medods_dvortsov.ApiKey.Accepted.{IsLasting}
use medods_dvortsov.Tests.Sample.{sample, db_with, world_with}

abbrev pub old_keys : String → Option Entry
old_keys k =
    if k == current_api_key_redis_key
    then some (record { value = hash_api_key sample "old key"; deadline = none })
    else none

abbrev pub start : Worlds sample
start = world_with (db_with active) old_keys

is_valid_api_key-Ends_example : Ends (is_valid_api_key sample "old key") start (
    OnOk λ b v. (b ≡ accepts sample old_keys 0 "old key") × (sample.redis.entry v.store ≡ old_keys))
is_valid_api_key-Ends_example = is_valid_api_key-Ends sample "old key" start

hashes_differ : hash_api_key sample "new key" ≢ hash_api_key sample "old key"
unfolding Hex.encode
hashes_differ h =
    let same : false ≡ true =
      (eq_iff (hash_api_key sample "new key") (hash_api_key sample "old key")).1 h in
    cc

synchronized : (sync_api_key sample "new key" start).0 ≡ ok tt
unfolding program sync_api_key sync_against Hex.encode
synchronized = refl

sync-is_valid_example :
    Ends
      (is_valid_api_key sample "new key")
      (sync_api_key sample "new key" start).1
      (OnOk λ b _. b ≡ true)
    × Ends
        (is_valid_api_key sample "old key")
        (sync_api_key sample "new key" start).1
        (OnOk λ b _. b ≡ true)
sync-is_valid_example =
    sync-is_valid sample "new key" "old key" start (sync_api_key sample "new key" start).1 (λ h. cc)
      (λ h. cc) refl hashes_differ synchronized (λ j. refl) (omega arith) (omega arith)

pub old_keys-IsLasting : IsLasting old_keys
old_keys-IsLasting e h = ground arith
