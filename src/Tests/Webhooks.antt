-- ===== src/Tests/Webhooks.antt =====
-- The delivery of a webhook's payload to the receiver, at a concrete client.
use medods_dvortsov.Prelude.{◌≡◌, refl, true, false, none, some, if◌then◌else◌, pos, arith}
use medods_dvortsov.Go.Errors.{ok, err, foreign}
use medods_dvortsov.Program.{IpChange}
use medods_dvortsov.Webhook.Delivery.{
  JsonLibrary, JsonMap, HttpClient, data_of, deliver, answered, not_sent,
}
use medods_dvortsov.Webhook.Receiver.{receive}
use medods_dvortsov.Webhook.Received.{IsFaithful, Reaches, fields_of, deliver-receive}

-- A map is its own text.
abbrev plain_json : JsonLibrary
plain_json = record {
  Text = JsonMap;
  marshal = λ m. ok m;
  unmarshal = λ s. ok s;
  unmarshal-marshal = λ m h. (m, m, refl, refl, λ key. refl);
}

abbrev local_client : HttpClient plain_json.Text
local_client = record {
  new_request =
      λ verb url body. ok (record { verb = verb; url = url; content_type = none; body = body });
  do_request = λ is_done req.
      if is_done
      then err (foreign "context canceled")
      else ok (receive plain_json req.verb (ok req.body)).status;
}

abbrev moved : IpChange
moved = record { user_id = pos 1; old_ip = "::1"; new_ip = "::2"; user_agent = "c" }

moved-IsFaithful : IsFaithful moved
moved-IsFaithful = ground arith

abbrev reaches : Reaches plain_json local_client "http://localhost:9090"
reaches = record {
  makes = λ body. refl;
  cancelled = foreign "context canceled";
  done = λ req. refl;
  live = λ req at. refl;
}

deliver-receive_example :
    ((s : plain_json.Text) × (plain_json.marshal (data_of moved) ≡ ok s)
      × (receive plain_json "POST" (ok s)
          ≡ record { status = 200; body = "Webhook received!"; logged = some (fields_of moved) }))
    × (deliver plain_json local_client false "http://localhost:9090" moved ≡ answered 200)
    × (deliver plain_json local_client true "http://localhost:9090" moved
        ≡ not_sent (foreign "context canceled"))
deliver-receive_example =
    deliver-receive plain_json local_client "http://localhost:9090" moved reaches (λ e. cc)
      moved-IsFaithful
