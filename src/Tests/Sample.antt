-- ===== src/Tests/Sample.antt =====
-- A platform on which the program runs: a store of keys, tokens that carry their identifier, a clock
-- that stands still, and a database that always answers. It has the laws of the interfaces.
use medods_dvortsov.Prelude.{
  not, ℕ, zero, suc, ◌+◌, ◌*◌, ◌/◌, ◌<◌, String, ◌≡◌, ◌≢◌, refl, inl, Bool, true, ◌&&◌, Option,
  none, some, List, [], ◌∷◌, ℤ, pos, negsuc, arith, length, All, ltb, lt→ltb, nat_eq, ◌==◌, eq_iff,
  ==-false_of_ne, if◌then◌else◌, ap, sym, ◌∙◌,
}
use medods_dvortsov.Go.Errors.{Result, ok, err, panicked, foreign}
use medods_dvortsov.Go.Hex
use medods_dvortsov.Models.{Time, UserMetadata, User, RefreshSession}
use medods_dvortsov.Program.{Status, Db, Worlds}
use medods_dvortsov.Token.{TokenService}
use medods_dvortsov.Platform.{Platform}
use medods_dvortsov.Platform.Redis.{Entry, RedisClient, answer, live, put, put_all}
use medods_dvortsov.Platform.Jwt.{JwtClaims, ParserOptions, Token, JwtLibrary}
use medods_dvortsov.Platform.Machine.{answered, Host}

abbrev set_key : (String → Option Entry) → Time → String → String → ℤ → String → Option Entry
set_key s now k v (pos d) = put now k v d s
set_key s now k v (negsuc d) = put now k v 0 s

put_ne :
    (s : String → Option Entry) (now : Time) (k v : String) (d : ℕ) (j : String)
    → k ≢ j
    → put now k v d s j ≡ s j
put_ne s now k v d j h = rw (==-false_of_ne k j h) refl

pub set_key_ne :
    (s : String → Option Entry) (now : Time) (k v : String) (d : ℤ) (j : String)
    → k ≢ j
    → set_key s now k v d j ≡ s j
set_key_ne s now k v (pos d) j h = put_ne s now k v d j h
set_key_ne s now k v (negsuc d) j h = put_ne s now k v 0 j h

abbrev pub sample_redis : RedisClient
sample_redis = record {
  Store = String → Option Entry;
  entry = λ s. s;
  get = λ s now k. (answer (live now (s k)), s);
  set = λ s now k v d. (ok tt, set_key s now k v d);
  exec = λ s now cs. (ok tt, put_all now cs s);
  entry-get = λ s now k. refl;
  get-answer = λ s now k. inl refl;
  entry-set = λ s now k v d j h. refl;
  entry-set_ne = set_key_ne;
  entry-exec = λ s now cs j h. refl;
}

abbrev seconds : Time → Time
seconds t = t / 1000 * 1000

-- The claims of the token with the identifier, for the user 1 at the second 5.
abbrev pub claims_of : String → JwtClaims
claims_of id = record {
  user_id = "1";
  id = id;
  subject = "1";
  issued_at = 5000;
  expires_at = some 65000;
}

abbrev is_date : ℕ → Option ℕ → Bool
is_date n none = nat_eq 0 1
is_date n (some m) = nat_eq m n

abbrev is_sample : JwtClaims → Bool
is_sample c =
    c.user_id == "1" && c.subject == "1" && nat_eq c.issued_at 5000 && is_date 65000 c.expires_at

abbrev sign : List ℕ → JwtClaims → Result String
sign key c = if is_sample c then ok c.id else err (foreign "not a sample")

claims_of-id : (c : JwtClaims) → is_sample c ≡ true → c ≡ claims_of c.id
claims_of-id c h = ground (arith, eq_iff c.user_id "1", eq_iff c.subject "1")

abbrev parse : ParserOptions → (String → Result (List ℕ)) → Time → String → Result Token
parse o keyfunc now t = elim (keyfunc "HS512") [
  | ok key ↦
      if ltb now (65000 + o.leeway)
      then ok (record { claims = claims_of t; valid = true })
      else err (foreign "token is expired")
  | err e ↦ err e
  | panicked ↦ panicked
]

pub sign-claims : (key : List ℕ) (c : JwtClaims) (t : String) → sign key c ≡ ok t → c ≡ claims_of t
sign-claims key c t h = ground (arith, claims_of-id c)

pub parsed_claims :
    (o : ParserOptions) (keyfunc : String → Result (List ℕ)) (now : Time) (t : String) (p : Token)
    → parse o keyfunc now t ≡ ok p
    → (p.claims ≡ claims_of t) × (now < 65000 + o.leeway)
parsed_claims o keyfunc now t p h = ground (arith)

pub parse-sign :
    (o : ParserOptions) (keyfunc : String → Result (List ℕ)) (key : List ℕ) (now expires : Time)
    (c : JwtClaims) (t : String)
    → o.valid_methods ≡ "HS512" ∷ []
    → keyfunc "HS512" ≡ ok key
    → seconds c.issued_at ≡ c.issued_at
    → c.expires_at ≡ some expires
    → seconds expires ≡ expires
    → now < expires + o.leeway
    → sign key c ≡ ok t
    → parse o keyfunc now t ≡ ok (record { claims = c; valid = true })
parse-sign o keyfunc key now expires c t m k i has s before h =
    let same = sign-claims key c t h in
    let at : ◌≡◌ {A = Option ℕ} (some 65000) (some expires) =
      sym (ap (λ (x : JwtClaims). x.expires_at) same) ∙ has in
    rw (k, parse, lt→ltb now (65000 + o.leeway) (ground arith))
      (ap (λ (x : JwtClaims). ok (record { claims = x; valid = true })) (sym same))

abbrev pub sample_jwt : JwtLibrary
sample_jwt = record {
  numeric_date = seconds;
  signed_string = sign;
  parse_with_claims = parse;
  parse_unverified = λ t. ok (claims_of t);
  numeric_date_le = λ t. omega arith;
  numeric_date_near = λ t. omega arith;
  numeric_date_idem = λ t. omega arith;
  parse_unverified-signed = λ key e c t i has s h. ap ok (sym (sign-claims key c t h));
  parse-signed = parse-sign;
  parse-claims = λ o k now t p h. ap ok (sym (parsed_claims o k now t p h).0);
  parse_expiry = λ o k now t p r h. (
    65000,
    ap (λ (c : JwtClaims). c.expires_at) (parsed_claims o k now t p h).0,
    (parsed_claims o k now t p h).1,
  );
}

abbrev pub replicate : ℕ → ℕ → List ℕ
replicate zero b = []
replicate (suc n) b = b ∷ replicate n b

length-replicate : (n b : ℕ) → length (replicate n b) ≡ n
length-replicate zero b = refl
length-replicate (suc n) b = omega (arith, length-replicate n b)

All-replicate : (n b : ℕ) → b < 256 → All (λ c. c < 256) (replicate n b)
All-replicate zero b h = tt
All-replicate (suc n) b h = (h, All-replicate n b h)

-- A digest that tells one text from the others.
abbrev marker : String → ℕ
marker s = if s == "old key" then 1 else 2

pub marker_byte : (s : String) → marker s < 256
marker_byte s = ground arith

abbrev digest : String → List ℕ
digest s = replicate 32 (marker s)

pub digest_bytes : (s : String) → All (λ b. b < 256) (digest s)
digest_bytes s = All-replicate 32 (marker s) (marker_byte s)

pub length-digest : (s : String) → length (digest s) ≡ 32
length-digest s = length-replicate 32 (marker s)

-- A date as that many letters.
abbrev stamp : ℕ → String
stamp zero = String.[]
stamp (suc n) = String.◌∷◌ "x" (stamp n)

abbrev pub letters : String → ℕ
letters String.[] = 0
letters (String.◌∷◌ c s) = suc (letters s)

letters-stamp : (n : ℕ) → letters (stamp n) ≡ n
letters-stamp zero = refl
letters-stamp (suc n) = omega (arith, letters-stamp n)

pub read_date :
    (t : Time)
    → ◌≡◌ {A = Result Time} (ok (letters (stamp (t / 1000)) * 1000)) (ok (t / 1000 * 1000))
read_date t = rw (letters-stamp (t / 1000)) refl

abbrev pub sample_host : Host
sample_host = record {
  clock = λ n. 5000;
  uuid = λ n. "new-jti";
  random = λ n k. ok (replicate k n);
  reply = λ n. answered;
  is_uuid = λ s. not (s == "");
  sum256 = digest;
  sum256_bytes = digest_bytes;
  length-sum256 = length-digest;
  format_rfc3339 = λ t. stamp (t / 1000);
  parse_rfc3339 = λ s. ok (letters s * 1000);
  parse-format_rfc3339 = read_date;
}

abbrev pub sample : Platform
sample = record { redis = sample_redis; jwt = sample_jwt; host = sample_host }

abbrev pub sample_tokens : TokenService
sample_tokens = record {
  jwt_secret_key = 1 ∷ [];
  access_ttl = pos 60000000000;
  refresh_ttl = pos 600000000000;
}

abbrev pub sample_meta : UserMetadata
sample_meta = record { user_agent = "agent"; ip_address = "10.0.0.1" }

abbrev pub sample_user : User
sample_user = record { id = pos 1; guid = "guid" }

-- A session of the user that the refresh token "sel.ver" and an access token "jti" belong to.
abbrev pub sample_session : RefreshSession
sample_session = record {
  id = pos 1;
  user_id = pos 1;
  selector = "sel";
  verifier_hash = Hex.encode (digest "ver");
  user_agent = "agent";
  ip_address = "10.0.0.2";
  access_token_jti = "jti";
  created_at = 0;
  expires_at = 1000;
}

abbrev pub db_with : Status → Db
db_with st = record {
  users = sample_user ∷ [];
  users_seq = 1;
  sessions = record { session = sample_session; status = st } ∷ [];
  sessions_seq = 1;
}

abbrev pub world_with : Db → (String → Option Entry) → Worlds sample
world_with d s = record { events = 0; db = d; store = s; notified = [] }

abbrev pub no_keys : String → Option Entry
no_keys k = none
