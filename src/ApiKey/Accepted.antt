-- ===== src/ApiKey/Accepted.antt =====
-- The keys that IsValidAPIKey accepts after a SyncAPIKey, whichever of its branches was taken.
use mathlib.Core.Path.{fun_ext}
use medods_dvortsov.Prelude.{
  Bool-cases, ℕ, suc, ◌+◌, String, Bool, ◌≡◌, ◌≢◌, ◌⊎◌, refl, true, false, inl, inr, Option, none,
  some, sym, arith, eq_iff, eq_refl, ==-false_of_ne, ◌==◌, if◌then◌else◌, ap, ◌∙◌,
}
use medods_dvortsov.Go.Errors.{ok}
use medods_dvortsov.Platform.{Platform}
use medods_dvortsov.Platform.Redis.{Entry, live}
use medods_dvortsov.Program.{program, Worlds}
use medods_dvortsov.Program.Ends.{Ends, OnOk, value_of, Ends-weaken_ok}
use medods_dvortsov.ApiKey.{
  default_api_key_redis_ttl, current_api_key_redis_key, old_api_key_redis_key, hash_api_key,
  same_hash, sync_api_key, is_valid_api_key,
}
use medods_dvortsov.ApiKey.Check.{held, holds, in_grace, accepts, is_valid_api_key-Ends}
use medods_dvortsov.ApiKey.Sync.{synced, sync_api_key-Ends}

abbrev pub Keys : Type 0
Keys = String → Option Entry

-- The entry that a synchronisation writes for the current key.
abbrev pub lasting : String → Entry
lasting hashed = record { value = hashed; deadline = none }

-- A current key has no deadline; the code's commands set none.
abbrev pub IsLasting : Keys → Type 0
IsLasting keys = (e : Entry) → keys current_api_key_redis_key ≡ some e → e.deadline ≡ none

-- The hash stands under the current or the old key.
abbrev pub Known : Keys → String → Type 0
Known keys hashed =
    (e : Entry) × ((keys current_api_key_redis_key ≡ some e)
      ⊎ (keys old_api_key_redis_key ≡ some e))
    × (e.value ≡ hashed)

module _ (p : Platform) where
  held_lasting :
      (keys : Keys) (n : ℕ) (e : Entry)
      → keys current_api_key_redis_key ≡ some e
      → e.deadline ≡ none
      → held p keys n current_api_key_redis_key ≡ some e.value
  held_lasting keys n e at forever = rw (at, forever) refl

  synced_over :
      (b : Bool) (keys : Keys) (n : ℕ) (env_key : String) (e : Entry)
      → same_hash (hash_api_key p env_key) e.value ≡ b
      → keys current_api_key_redis_key ≡ some e
      → e.deadline ≡ none
      → synced p keys n env_key current_api_key_redis_key ≡ some (lasting (hash_api_key p env_key))
  synced_over true keys n env_key e same at forever =
      rw (held_lasting keys n e at forever, same, synced)
        (ground (arith, eq_iff (hash_api_key p env_key) e.value))
  synced_over false keys n env_key e same at forever =
      rw (held_lasting keys n e at forever, same, synced) refl

  synced-lasting :
      (o : Option Entry) (keys : Keys) (n : ℕ) (env_key : String)
      → keys current_api_key_redis_key ≡ o
      → IsLasting keys
      → synced p keys n env_key current_api_key_redis_key ≡ some (lasting (hash_api_key p env_key))
  synced-lasting none keys n env_key at _ = rw (at, synced) refl
  synced-lasting (some e) keys n env_key at h = synced_over _ keys n env_key e refl at (h e at)

  accepts_current :
      (keys : Keys) (n : ℕ) (key : String)
      → key ≢ ""
      → keys current_api_key_redis_key ≡ some (lasting (hash_api_key p key))
      → accepts p keys n key ≡ true
  accepts_current keys n key named current =
      rw (==-false_of_ne key "" named, current, eq_refl (hash_api_key p key)) refl

  live-value :
      (deadline : Option ℕ) (now : ℕ) (value v : String)
      → live now (some (record { value = value; deadline = deadline })) ≡ some v
      → value ≡ v
  live-value none now value v h = ground arith
  live-value (some t) now value v h = ground arith

  held-entry :
      (o : Option Entry) (now : ℕ) (v : String)
      → live now o ≡ some v
      → (e : Entry) × (o ≡ some e) × (e.value ≡ v)
  held-entry none now v h = absurd (ground arith)
  held-entry (some e) now v h = (e, refl, live-value e.deadline now e.value v h)

  holds-some : (o : Option String) (hashed : String) → holds o hashed ≡ true → o ≡ some hashed
  holds-some none hashed h = absurd (ground arith)
  holds-some (some v) hashed h = ground (arith, eq_iff v hashed)

  by_a_key :
      (empty current old grace : Bool)
      → (if empty then false else if current then true else if old then grace else false) ≡ true
      → (current ≡ true) ⊎ (old ≡ true)
  by_a_key empty current old grace h = ground arith

  -- A key that is accepted is the current or the old one.
  accepts-Known :
      (keys : Keys) (n : ℕ) (key : String)
      → accepts p keys n key ≡ true
      → Known keys (hash_api_key p key)
  accepts-Known keys n key h =
      elim (by_a_key (key == "")
        (holds (held p keys n current_api_key_redis_key) (hash_api_key p key))
        (holds (held p keys (suc n) old_api_key_redis_key) (hash_api_key p key))
        (in_grace p keys (suc (suc n))) h) [
          | inl current ↦
              let (e, at, same) = held-entry _ (p.host.clock n) _ (holds-some _ _ current) in
              (e, inl at, same)
          | inr old ↦
              let (e, at, same) = held-entry _ (p.host.clock (suc n)) _ (holds-some _ _ old) in
              (e, inr at, same)
        ]

  -- The environment's key, or one that was there.
  abbrev pub OneOf : Keys → String → String → Type 0
  OneOf keys env_key hashed = (hash_api_key p env_key ≡ hashed) ⊎ Known keys hashed

  synced_anew :
      (keys : Keys) (n : ℕ) (env_key : String)
      → held p keys n current_api_key_redis_key ≡ none
      → (synced p keys n env_key current_api_key_redis_key
          ≡ some (lasting (hash_api_key p env_key)))
        × (synced p keys n env_key old_api_key_redis_key ≡ keys old_api_key_redis_key)
  synced_anew keys n env_key was = rw (was, synced) (refl, refl)

  synced_same :
      (keys : Keys) (n : ℕ) (env_key current : String)
      → held p keys n current_api_key_redis_key ≡ some current
      → same_hash (hash_api_key p env_key) current ≡ true
      → synced p keys n env_key ≡ keys
  synced_same keys n env_key current was same = fun_ext λ j. rw (was, same, synced) refl

  synced_rotated :
      (keys : Keys) (n : ℕ) (env_key current : String)
      → held p keys n current_api_key_redis_key ≡ some current
      → same_hash (hash_api_key p env_key) current ≡ false
      → (synced p keys n env_key current_api_key_redis_key
          ≡ some (lasting (hash_api_key p env_key)))
        × (synced p keys n env_key old_api_key_redis_key
            ≡ some (record {
              value = current;
              deadline = some (p.host.clock (suc (suc n)) + default_api_key_redis_ttl);
            }))
  synced_rotated keys n env_key current was same = rw (was, same, synced) (refl, refl)

  value_same : (o : Option Entry) (d e : Entry) → o ≡ some d → o ≡ some e → e.value ≡ d.value
  value_same o d e at was = ground arith

  rotated-OneOf :
      (b : Bool) (keys : Keys) (n : ℕ) (env_key current hashed : String)
      → held p keys n current_api_key_redis_key ≡ some current
      → same_hash (hash_api_key p env_key) current ≡ b
      → Known (synced p keys n env_key) hashed
      → OneOf keys env_key hashed
  rotated-OneOf true keys n env_key current hashed was same h =
      inr (rw (← synced_same keys n env_key current was same) h)
  rotated-OneOf false keys n env_key current hashed was same (e, inl at, value) =
      inl (sym (value_same _ _ e (synced_rotated keys n env_key current was same).0 at) ∙ value)
  rotated-OneOf false keys n env_key current hashed was same (e, inr at, value) =
      let (d, there, kept) = held-entry _ (p.host.clock n) _ was in
      inr (
        d,
        inl there,
        kept ∙ sym (value_same _ _ e (synced_rotated keys n env_key current was same).1 at) ∙ value,
      )

  synced-OneOf :
      (o : Option String) (keys : Keys) (n : ℕ) (env_key hashed : String)
      → held p keys n current_api_key_redis_key ≡ o
      → Known (synced p keys n env_key) hashed
      → OneOf keys env_key hashed
  synced-OneOf none keys n env_key hashed was (e, inl at, value) =
      inl (sym (value_same _ _ e (synced_anew keys n env_key was).0 at) ∙ value)
  synced-OneOf none keys n env_key hashed was (e, inr at, value) =
      inr (e, inr (sym (synced_anew keys n env_key was).1 ∙ at), value)
  synced-OneOf (some current) keys n env_key hashed was h =
      rotated-OneOf _ keys n env_key current hashed was refl h

  no_key : (w : Worlds p) → (sync_api_key p "" w).0 ≢ ok tt
  unfolding sync_api_key program
  no_key w h = cc

  pub sync_api_key-named :
      (env_key : String) (w : Worlds p) → (sync_api_key p env_key w).0 ≡ ok tt → env_key ≢ ""
  sync_api_key-named env_key w done empty =
      no_key w (ap (λ k. (sync_api_key p k w).0) (sym empty) ∙ done)

  -- After a successful SyncAPIKey of a key, on a world whose keys are as it left them: an answer of
  -- IsValidAPIKey for that key is true, if the current key had no deadline before; and one for any key
  -- is false, or the key has the hash of that key, or one that stood under the current or the old key
  -- before.
  pub sync_api_key-accepts :
      (env_key key : String) (w v : Worlds p)
      → IsLasting (p.redis.entry w.store)
      → (sync_api_key p env_key w).0 ≡ ok tt
      → ((j : String)
          → p.redis.entry v.store j ≡ p.redis.entry (sync_api_key p env_key w).1.store j)
      → Ends (is_valid_api_key p env_key) v (OnOk λ b _. b ≡ true)
        × Ends
            (is_valid_api_key p key)
            v
            (OnOk λ b _. (b ≡ false) ⊎ OneOf (p.redis.entry w.store) env_key (hash_api_key p key))
  sync_api_key-accepts env_key key w v forever done kept =
      let at : p.redis.entry v.store ≡ synced p (p.redis.entry w.store) w.events env_key =
        fun_ext λ j. kept j ∙ value_of (sync_api_key-Ends p env_key j w) done in
      (
        Ends-weaken_ok (is_valid_api_key-Ends p env_key v) λ b u h.
            h.0
            ∙ accepts_current (p.redis.entry v.store) v.events env_key
                (sync_api_key-named env_key w done)
                (ap (λ (f : Keys). f current_api_key_redis_key) at
                  ∙ synced-lasting _ (p.redis.entry w.store) w.events env_key refl forever),
        Ends-weaken_ok (is_valid_api_key-Ends p key v) λ b u h. elim (Bool-cases b) [
          | inl same ↦ inr (
              synced-OneOf _ (p.redis.entry w.store) w.events env_key (hash_api_key p key) refl
                (rw (← at) (accepts-Known (p.redis.entry v.store) v.events key (sym h.0 ∙ same))))
          | inr other ↦ inl other
        ],
      )
