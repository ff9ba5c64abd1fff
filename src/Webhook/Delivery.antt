-- ===== src/Webhook/Delivery.antt =====
-- The goroutine of NotifyIPChange. encoding/json and the HTTP client are parameters. What the code
-- logs is its outcome.
use medods_dvortsov.Prelude.{
  ℕ, ◌^◌, ◌<◌, ◌≤◌, code, String, ◌≡◌, ◌≢◌, Option, none, some, List, [], ◌∷◌, ℤ, Bool, pos, negsuc,
  leb, ◌==◌, if◌then◌else◌,
}
use medods_dvortsov.Go.Errors.{GoError, Result, ok, err, panicked}
use medods_dvortsov.Program.{IpChange}

-- The values of a `map[string]interface{}` that the code puts in; `other` is any that it does not.
pub data Json : Type 0 where
  number : ℤ → Json
  text : String → Json
  other : Json

abbrev pub JsonMap : Type 0
JsonMap = List (String × Json)

abbrev pub lookup : String → JsonMap → Option Json
lookup key [] = none
lookup key ((k, v) ∷ m) = if k == key then some v else lookup key m

-- The values that come back: a whole number through a float64 up to 2 ^ 53, and a text that is valid
-- UTF-8, of which ASCII is enough here.
abbrev pub IsAscii : String → Type 0
IsAscii String.[] = Unit
IsAscii (String.◌∷◌ c s) = (code c < 128) × IsAscii s

abbrev pub IsExact : Json → Type 0
IsExact (number (pos n)) = n ≤ 2 ^ 53
IsExact (number (negsuc n)) = n < 2 ^ 53
IsExact (text s) = IsAscii s
IsExact other = Unit

abbrev pub Lacks : String → JsonMap → Type 0
Lacks key [] = Unit
Lacks key ((k, _) ∷ m) = (k ≢ key) × Lacks key m

abbrev pub AreExact : JsonMap → Type 0
AreExact [] = Unit
AreExact ((k, v) ∷ m) = Lacks k m × IsExact v × AreExact m

pub record JsonLibrary : Type 1 where
  pub Text : Type 0
  pub marshal : JsonMap → Result Text
  pub unmarshal : Text → Result JsonMap
  pub unmarshal-marshal :
      (m : JsonMap)
      → AreExact m
      → (s : Text) × (d : JsonMap) × (marshal m ≡ ok s)
        × (unmarshal s ≡ ok d)
        × ((key : String) → lookup key d ≡ lookup key m)

pub record HttpMessage (Text : Type 0) : Type 0 where
  pub verb : String
  pub url : String
  pub content_type : Option String
  pub body : Text

-- `http.Client`. `is_done` says that the request's context has been cancelled.
pub record HttpClient (Text : Type 0) : Type 0 where
  pub new_request : String → String → Text → Result (HttpMessage Text)
  pub do_request : (is_done : Bool) → HttpMessage Text → Result ℕ

abbrev pub default_http_status_threshold : ℕ
default_http_status_threshold = 300

pub data Outcome : Type 0 where
  no_url : Outcome
  not_marshalled not_created not_sent : GoError → Outcome
  warned answered : ℕ → Outcome
  crashed : Outcome

-- `data` of the call in RefreshTokens.
abbrev pub data_of : IpChange → JsonMap
data_of change =
    ("user_id", number change.user_id)
    ∷ ("old_ip", text change.old_ip)
    ∷ ("new_ip", text change.new_ip)
    ∷ ("user_agent", text change.user_agent)
    ∷ []

module _ (json : JsonLibrary) (client : HttpClient json.Text) (is_done : Bool) where
  unfoldable pub judged : Result ℕ → Outcome
  judged (ok status) =
      if leb default_http_status_threshold status then warned status else answered status
  judged (err e) = not_sent e
  judged panicked = crashed

  unfoldable pub sent : Result (HttpMessage json.Text) → Outcome
  sent (ok req) =
      judged (client.do_request is_done (record req { content_type = some "application/json" }))
  sent (err e) = not_created e
  sent panicked = crashed

  unfoldable pub posted : String → Result json.Text → Outcome
  posted url (ok payload) = sent (client.new_request "POST" url payload)
  posted url (err e) = not_marshalled e
  posted url panicked = crashed

  unfoldable pub deliver : String → IpChange → Outcome
  deliver url change = if url == "" then no_url else posted url (json.marshal (data_of change))
