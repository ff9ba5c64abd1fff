-- ===== src/Server/Onward.antt =====
-- Every HTTP request keeps the tables valid, and goes on in time.
use medods_dvortsov.Prelude.{arith, ◌≤◌, String, ℤ, Option, none, some}
use medods_dvortsov.Go.Errors.{Caught, returned, failed}
use medods_dvortsov.Platform.{Platform}
use medods_dvortsov.Models.{UserMetadata}
use medods_dvortsov.Program.{Act, World}
use medods_dvortsov.Program.Changes.{Changes}
use medods_dvortsov.Program.Evolves.{
  Evolves, Quiet, Later, Evolves-pure, Evolves-throw, Evolves-lift, Evolves-wrap, Evolves-attempt,
  Evolves-when, Evolves-bind, quiet_rules,
}
use medods_dvortsov.Storage.Invariant.{Preserves, Preserves-refl, Preserves-trans}
use medods_dvortsov.Auth.Quiet.{get_public_guid-Quiet}
use medods_dvortsov.Auth.Invariant.{issue_tokens-Changes, refresh_tokens-Changes, logout-Changes}
use medods_dvortsov.Auth.Events.{issue_tokens-Later, refresh_tokens-Later, logout-Later}
use medods_dvortsov.Auth.{issue_tokens, refresh_tokens, logout}
use medods_dvortsov.Api.{HttpRequest, EchoContext}
use medods_dvortsov.Controller.{
  handle_issue_tokens, refreshed, refresh_with_cookie, handle_refresh_tokens, logout_with,
  handle_logout, guid_of, handle_get_user_guid,
}
use medods_dvortsov.Limiter.{Admission, admitted, rejected}
use medods_dvortsov.Server.{
  Api, HttpCall, Operation, logout_operation, issue_tokens_operation, refresh_tokens_operation,
  get_user_guid_operation, Route, issue_tokens_bound, invoke, secured, routed, replied, serve,
}
use medods_dvortsov.Server.Quiet.{validate-Quiet, rate_limiter-Quiet}

-- What is valid stays so, and no call takes the number of one before it.
abbrev pub Onward : {S : Type 0} → World S → World S → Type 0
Onward w v = Preserves w.db v.db × (w.events ≤ v.events)

pub Onward-refl : {S : Type 0} (w : World S) → Onward w w
Onward-refl w = (Preserves-refl w.db, omega arith)

pub Onward-trans : {S : Type 0} (u v w : World S) → Onward u v → Onward v w → Onward u w
Onward-trans u v w (a, b) (c, d) = (Preserves-trans u.db v.db w.db a c, omega arith)

Quiet-Onward : {S A : Type 0} (m : Act S A) → Evolves Quiet m → Evolves Onward m
Quiet-Onward m h = record { at = λ w. let (same, e) = h.at w in (rw same (Preserves-refl w.db), e) }

both : {S A : Type 0} (m : Act S A) → Changes Preserves m → Evolves Later m → Evolves Onward m
both m h k = record { at = λ w. (h.at w, k.at w) }

ruleset rules = (
  Onward-refl, Onward-trans, Quiet-Onward, Evolves-pure, Evolves-throw, Evolves-lift, Evolves-wrap,
  Evolves-attempt, Evolves-when, Evolves-bind,
)

module _ (p : Platform) (api : Api p) where
  issue_tokens_both :
      (guid : String) (m : UserMetadata)
      → Evolves Onward (issue_tokens p api.ts api.webhook_url guid m)
  issue_tokens_both guid m =
      both _ (issue_tokens-Changes p api.ts api.webhook_url guid m)
        (issue_tokens-Later p api.ts api.webhook_url guid m)

  refresh_tokens_both :
      (access refresh : String) (m : UserMetadata)
      → Evolves Onward (refresh_tokens p api.ts api.webhook_url access refresh m)
  refresh_tokens_both access refresh m =
      both _ (refresh_tokens-Changes p api.ts api.webhook_url access refresh m)
        (refresh_tokens-Later p api.ts api.webhook_url access refresh m)

  logout_both : (access : String) → Evolves Onward (logout p api.ts api.webhook_url access)
  logout_both access =
      both _ (logout-Changes p api.ts api.webhook_url access)
        (logout-Later p api.ts api.webhook_url access)

  bound-Onward :
      (r : Caught String) (req : HttpRequest) → Evolves Onward (issue_tokens_bound p api r req)
  unfolding issue_tokens_bound handle_issue_tokens
  bound-Onward (failed e) req = search rules
  bound-Onward (returned guid) req = search (rules, issue_tokens_both)

  logout_with-Onward :
      (token : Option String)
      → Evolves Onward (logout_with p api.ts api.webhook_url api.parse_uuid token)
  unfolding logout_with
  logout_with-Onward none = search rules
  logout_with-Onward (some token) = search (rules, logout_both)

  refreshed-Onward :
      (r : Caught (String × String))
      → Evolves Onward (refreshed p api.ts api.webhook_url api.parse_uuid r)
  unfolding refreshed
  refreshed-Onward (returned pair) = search rules
  refreshed-Onward (failed e) = search rules

  refresh_with_cookie-Onward :
      (token : String) (req : HttpRequest)
      → Evolves Onward (refresh_with_cookie p api.ts api.webhook_url api.parse_uuid token req)
  unfolding refresh_with_cookie
  refresh_with_cookie-Onward token req =
      search (rules, refresh_tokens_both, refreshed-Onward) depth 12

  refresh-Onward :
      (cookie : Option String) (req : HttpRequest)
      → Evolves Onward (
          handle_refresh_tokens p api.ts api.webhook_url api.parse_uuid
            (record req { refresh_cookie = cookie }))
  unfolding handle_refresh_tokens
  refresh-Onward none req = search rules
  refresh-Onward (some token) req = refresh_with_cookie-Onward token _

  guid_of-Onward :
      (id : Option ℤ) → Evolves Onward (guid_of p api.ts api.webhook_url api.parse_uuid id)
  unfolding guid_of
  guid_of-Onward none = search rules
  guid_of-Onward (some id) = Quiet-Onward _ (search (quiet_rules, get_public_guid-Quiet))

  invoke-Onward :
      (operation : Operation) (ctx : EchoContext) (c : HttpCall)
      → Evolves Onward (invoke p api operation ctx c)
  unfolding invoke handle_logout handle_get_user_guid
  invoke-Onward logout_operation ctx c = logout_with-Onward ctx.token
  invoke-Onward issue_tokens_operation ctx c = bound-Onward (api.bind_guid c.guid) c.request
  invoke-Onward refresh_tokens_operation ctx c = refresh-Onward c.request.refresh_cookie c.request
  invoke-Onward get_user_guid_operation ctx c = guid_of-Onward ctx.user_id

  routed-Onward : (r : Option Route) (c : HttpCall) → Evolves Onward (routed p api r c)
  unfolding routed secured
  routed-Onward none c = search rules
  routed-Onward (some r) c = search (rules, validate-Quiet, invoke-Onward)

  replied-Onward : (a : Admission) (c : HttpCall) → Evolves Onward (replied p api a c)
  unfolding replied
  replied-Onward (rejected retry e) c = search rules
  replied-Onward admitted c = search (rules, routed-Onward)

  pub serve-Onward : (c : HttpCall) → Evolves Onward (serve p api c)
  unfolding serve
  serve-Onward c = search (rules, rate_limiter-Quiet, replied-Onward)
