-- ===== src/Webhook/Received.antt =====
-- A notification from NotifyIPChange to the receiver.
use medods_dvortsov.Prelude.{
  ne_of_==-false, String, ◌≡◌, ◌≢◌, refl, true, false, none, some, ap, ==-false_of_ne,
}
use medods_dvortsov.Go.Errors.{GoError, ok, err}
use medods_dvortsov.Program.{IpChange}
use medods_dvortsov.Webhook.Delivery.{
  number, text, JsonMap, lookup, IsAscii, IsExact, AreExact, JsonLibrary, HttpMessage, HttpClient,
  not_sent, answered, data_of, judged, sent, posted, deliver,
}
use medods_dvortsov.Webhook.Receiver.{
  LoggedFields, logged_fields, received_data, received_body, receive,
}

-- The payload comes back as it was.
abbrev pub IsFaithful : IpChange → Type 0
IsFaithful c =
    IsExact (number c.user_id) × IsAscii c.old_ip × IsAscii c.new_ip × IsAscii c.user_agent

-- The client makes a request for the URL, fails where the context is done, and gets the receiver's
-- answer otherwise.
pub record Reaches (json : JsonLibrary) (client : HttpClient json.Text) (url : String)
    : Type 0 where
  pub makes :
      (body : json.Text)
      → client.new_request "POST" url body
        ≡ ok (record { verb = "POST"; url = url; content_type = none; body = body })
  pub cancelled : GoError
  pub done : (req : HttpMessage json.Text) → client.do_request true req ≡ err cancelled
  pub live :
      (req : HttpMessage json.Text)
      → req.url ≡ url
      → client.do_request false req ≡ ok (receive json req.verb (ok req.body)).status

abbrev pub fields_of : IpChange → LoggedFields
fields_of c = record {
  user_id = some (number c.user_id);
  old_ip = some (text c.old_ip);
  new_ip = some (text c.new_ip);
  user_agent = some (text c.user_agent);
}

module _ (json : JsonLibrary) where
  data-exact : (c : IpChange) → IsFaithful c → AreExact (data_of c)
  data-exact c (id, old, new, agent) = (
    (ne_of_==-false _ _ refl, (ne_of_==-false _ _ refl, (ne_of_==-false _ _ refl, tt))),
    id,
    (
      (ne_of_==-false _ _ refl, (ne_of_==-false _ _ refl, tt)),
      old,
      ((ne_of_==-false _ _ refl, tt), new, (tt, agent, tt)),
    ),
  )

  same_fields :
      (c : IpChange) (d : JsonMap)
      → ((key : String) → lookup key d ≡ lookup key (data_of c))
      → logged_fields d ≡ fields_of c
  same_fields c d h = rw (h "user_id", h "old_ip", h "new_ip", h "user_agent") refl

  -- What the receiver makes of the text of a payload.
  received :
      (c : IpChange) (s : json.Text) (d : JsonMap)
      → json.unmarshal s ≡ ok d
      → ((key : String) → lookup key d ≡ lookup key (data_of c))
      → receive json "POST" (ok s)
        ≡ record { status = 200; body = "Webhook received!"; logged = some (fields_of c) }
  unfolding receive received_body received_data
  received c s d read same = rw (read) (
      ap
        (λ (f : LoggedFields). record { status = 200; body = "Webhook received!"; logged = some f })
        (same_fields c d same))

  -- A notification with whole numbers below 2 ^ 53 and ASCII texts, to a URL at which the receiver
  -- answers: the receiver answers its text with 200 and logs the four fields as they were handed over,
  -- and the goroutine ends with that status, if the request's context is not cancelled yet. If it is,
  -- the goroutine ends with the client's error.
  pub deliver-receive :
      (client : HttpClient json.Text) (url : String) (c : IpChange) (r : Reaches json client url)
      → url ≢ ""
      → IsFaithful c
      → ((s : json.Text) × (json.marshal (data_of c) ≡ ok s)
          × (receive json "POST" (ok s)
              ≡ record { status = 200; body = "Webhook received!"; logged = some (fields_of c) }))
        × (deliver json client false url c ≡ answered 200)
        × (deliver json client true url c ≡ not_sent r.cancelled)
  unfolding deliver posted sent judged
  deliver-receive client url c r named faithful =
      let (s, d, made, read, same) = json.unmarshal-marshal (data_of c) (data-exact c faithful) in
      let message : HttpMessage json.Text = record {
        verb = "POST";
        url = url;
        content_type = some "application/json";
        body = s;
      } in
      let receipt = received c s d read same in
      (
        (s, made, receipt),
        rw (==-false_of_ne url "" named, made, r.makes s, r.live message refl, receipt) refl,
        rw (==-false_of_ne url "" named, made, r.makes s, r.done message) refl,
      )
