-- ===== src/Webhook/Receiver.antt =====
-- webhook_receiver.go: the handler of the receiver of webhooks. What a line of the log prints of a
-- field is left to package fmt: the fields are kept.
use medods_dvortsov.Prelude.{ℕ, String, Option, none, some, not, ◌==◌, if◌then◌else◌}
use medods_dvortsov.Go.Errors.{Result, ok}
use medods_dvortsov.Webhook.Delivery.{Json, JsonMap, lookup, JsonLibrary}

pub record LoggedFields : Type 0 where
  pub user_id : Option Json
  pub old_ip : Option Json
  pub new_ip : Option Json
  pub user_agent : Option Json

-- What is written to the client, and the fields that are logged.
pub record Receipt : Type 0 where
  pub status : ℕ
  pub body : String
  pub logged : Option LoggedFields

-- `http.Error` ends the line that it writes.
abbrev http_error : String → ℕ → Receipt
http_error message status = record { status = status; body = message; logged = none }

abbrev pub logged_fields : JsonMap → LoggedFields
logged_fields d = record {
  user_id = lookup "user_id" d;
  old_ip = lookup "old_ip" d;
  new_ip = lookup "new_ip" d;
  user_agent = lookup "user_agent" d;
}

module _ (json : JsonLibrary) where
  unfoldable pub received_data : Result JsonMap → Receipt
  received_data (ok d) = record {
    status = 200;
    body = "Webhook received!";
    logged = some (logged_fields d);
  }
  received_data _ = http_error "Error parsing JSON\n" 400

  unfoldable pub received_body : Result json.Text → Receipt
  received_body (ok body) = received_data (json.unmarshal body)
  received_body _ = http_error "Error reading request body\n" 500

  -- A request by its method and by what `io.ReadAll` reads of its body.
  unfoldable pub receive : String → Result json.Text → Receipt
  receive verb body =
      if not (verb == "POST")
      then http_error "Only POST method is accepted\n" 405
      else received_body body
