-- ===== src/Process/Replay.antt =====
-- A refresh token after its use, through the whole life of the process.
use medods_dvortsov.Prelude.{
  ne_of_==-false, List, ℕ, String, ℤ, ◌≡◌, refl, ◌∙◌, some, inl, inr, arith,
}
use medods_dvortsov.Go.Errors.{ok}
use medods_dvortsov.Go.Strings.{split, trim_prefix}
use medods_dvortsov.Platform.{Platform}
use medods_dvortsov.Program.{Worlds, Db}
use medods_dvortsov.Program.Ends.{Ends, OnOk, Ends-weaken_ok, value_of}
use medods_dvortsov.Storage.Invariant.{IsValid}
use medods_dvortsov.Token.{two_parts}
use medods_dvortsov.Auth.Moves.{IsSpent, Move-IsSpent}
use medods_dvortsov.Auth.View.{view}
use medods_dvortsov.Auth.Steps.{Generated, Generated-mono}
use medods_dvortsov.Auth.Replay.{spent}
use medods_dvortsov.Auth.Lifetime.{inactive-IsSpent, not-Granted}
use medods_dvortsov.Server.{
  Api, HttpCall, Operation, logout_operation, issue_tokens_operation, refresh_tokens_operation,
  get_user_guid_operation, Reply, written, refusal, serve,
}
use medods_dvortsov.Api.{bearer_prefix}
use medods_dvortsov.Controller.{Response, metadata}
use medods_dvortsov.Server.Checks.{Refreshes, path_of, found-path_of}
use medods_dvortsov.Server.Guard.{Checked, limited, serve-Checked}
use medods_dvortsov.Server.Revoked.{IsRefusal}
use medods_dvortsov.Server.Onward.{serve-Onward}
use medods_dvortsov.Server.Permits.{Serves, Serves-Generated}
use medods_dvortsov.Server.Moves.{serve-Move}
use medods_dvortsov.Process.Shutdown.{Process, answer, Step, Run, here, next}
use medods_dvortsov.Process.Order.{Step-world, Run-Onward}

-- A request for new tokens, with the refresh token in its cookie.
abbrev pub Presents : String → HttpCall → Type 0
Presents token c =
    (c.request.path ≡ "/api/v1/auth/tokens/refresh") × (c.request.refresh_cookie ≡ some token)

refresh-path_of :
    (o : Operation) → path_of o ≡ "/api/v1/auth/tokens/refresh" → o ≡ refresh_tokens_operation
refresh-path_of logout_operation h = absurd (ne_of_==-false _ _ refl h)
refresh-path_of issue_tokens_operation h = absurd (ne_of_==-false _ _ refl h)
refresh-path_of refresh_tokens_operation h = refl
refresh-path_of get_user_guid_operation h = absurd (ne_of_==-false _ _ refl h)

module _ {p : Platform} (api : Api p) where
  -- What an answer to a refresh tells.
  presented-Refreshes :
      (c : HttpCall) (w : Worlds p) (e : Db) (token : String) (r : Response)
      → Presents token c
      → Checked p api c w e (written r)
      → Refreshes p api.ts api.webhook_url api.parse_uuid c.request w.db e
  presented-Refreshes c w e token r (at, carried) (route, found, allowed) =
      let same : route.operation ≡ refresh_tokens_operation =
        refresh-path_of route.operation (found-path_of c route found ∙ at) in
      rw same at allowed

  module _ (token selector verifier : String)
      (parts : two_parts (split b'.' token) ≡ some (selector, verifier)) where
    cookie_parts :
        (c : HttpCall) (cookie : String)
        → Presents token c
        → c.request.refresh_cookie ≡ some cookie
        → two_parts (split b'.' cookie) ≡ some (selector, verifier)
    cookie_parts c cookie (at, held) carried =
        let same : cookie ≡ token = ground arith in rw same parts

    answered-IsSpent :
        (c : HttpCall) (w : Worlds p) (r : Response)
        → Presents token c
        → (serve p api c w).0 ≡ ok (written r)
        → IsSpent (view (serve p api c w).1.db selector)
    answered-IsSpent c w r presents done =
        let (cookie, tokens, carried, granted) =
          presented-Refreshes c (limited p api c w) (serve p api c w).1.db token r presents
            (value_of (serve-Checked p api c w).1 done) in
        inactive-IsSpent selector (serve p api c w).1.db.sessions (
          spent p api.ts api.webhook_url (trim_prefix c.request.authorization bearer_prefix) cookie
            (metadata c.request) (limited p api c w).db (serve p api c w).1.db tokens selector
            verifier granted (cookie_parts c cookie presents carried))

    spent-IsRefusal :
        (c : HttpCall) (w : Worlds p) (e : Db) (reply : Reply)
        → IsValid w.db
        → IsSpent (view w.db selector)
        → Presents token c
        → Checked p api c w e reply
        → IsRefusal reply
    spent-IsRefusal c w e (refusal retry status reason) valid gone presents checked = tt
    spent-IsRefusal c w e (written r) valid gone presents checked =
        let (cookie, tokens, carried, granted) =
          presented-Refreshes c w e token r presents checked in
        not-Granted p api.ts api.webhook_url (trim_prefix c.request.authorization bearer_prefix)
          cookie selector verifier (metadata c.request) w.db e tokens valid
          (cookie_parts c cookie presents carried) gone granted

    refuses :
        (c : HttpCall) (w : Worlds p)
        → IsValid w.db
        → IsSpent (view w.db selector)
        → Presents token c
        → Ends (serve p api c) w (OnOk λ reply _. IsRefusal reply)
    refuses c w valid gone presents =
        let (same, checked) = serve-Checked p api c w in
        Ends-weaken_ok checked λ reply v h.
          spent-IsRefusal c (limited p api c w) v.db reply (rw same valid) (rw same gone) presents h

    Step-IsSpent :
        (g : ℤ) {s t : Process p}
        → Step api g s t
        → IsValid s.world.db
        → (Generated p api.ts s.world selector → ⊥)
        → IsSpent (view s.world.db selector)
        → IsSpent (view t.world.db selector)
    Step-IsSpent g {s} {t} step valid fresh gone = elim (Step-world api g step) [
      | inl same ↦ rw same gone
      | inr (c, same) ↦ rw same (
          Move-IsSpent (Serves p api c s.world) (view s.world.db)
            (view (serve p api c s.world).1.db) selector
            (λ x k brings. fresh (Serves-Generated p api c s.world selector x k brings))
            (serve-Move p api c s.world valid) gone)
    ]

    Run-IsSpent :
        (g : ℤ) {s t : Process p} {n : ℕ}
        → Run api g s n t
        → IsValid s.world.db
        → (Generated p api.ts s.world selector → ⊥)
        → IsSpent (view s.world.db selector)
        → IsSpent (view t.world.db selector)
    Run-IsSpent g here valid fresh gone = gone
    Run-IsSpent g {s} (next {t = t} run step) valid fresh gone =
        let (kept, later) = Run-Onward api g run in
        Step-IsSpent g step (kept.valid valid)
          (λ made. fresh (Generated-mono p api.ts s.world t.world selector later made))
          (Run-IsSpent g run valid fresh gone)

    -- A refresh token is good for one answer in the life of the process. After a request that presents
    -- it has been answered by the refresh handler, on valid tables, whatever other requests the process
    -- serves and whatever the services answer, every later request that presents it is refused, unless
    -- the random source gives the selector of the token again; a panic aside.
    pub answered_once :
        (g : ℤ) (at : ℕ) (before : List HttpCall) (c again : HttpCall) (after : List HttpCall)
        (r : Response) (s : Process p) {t : Process p} {n : ℕ}
        → IsValid s.world.db
        → Presents token c
        → Presents token again
        → (serve p api c s.world).0 ≡ ok (written r)
        → (Generated p api.ts (serve p api c s.world).1 selector → ⊥)
        → Run api g (answer api at before c after s) n t
        → Ends (serve p api again) t.world (OnOk λ reply _. IsRefusal reply)
    unfolding answer
    answered_once g at before c again after r s {t} valid first then done fresh run =
        let served : IsValid (serve p api c s.world).1.db =
          ((serve-Onward p api c).at s.world).0.valid valid in
        refuses again t.world ((Run-Onward api g run).0.valid served)
          (Run-IsSpent g run served fresh (answered-IsSpent c s.world r first done)) then
