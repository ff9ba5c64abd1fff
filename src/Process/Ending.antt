-- ===== src/Process/Ending.antt =====
-- After the signal the process ends, and what has become of its requests then.
use mathlib.Core.List.{Perm, perm_middle, append_assoc}
use mathlib.Core.List.Perm
use medods_dvortsov.Prelude.{
  ℕ, suc, ◌+◌, ◌≤◌, ◌≡◌, refl, ◌⊎◌, inl, inr, List, [], ◌∷◌, ◌++◌, length, ℤ, ap, ◌∙◌, arith,
}
use medods_dvortsov.Platform.{Platform}
use medods_dvortsov.Server.{Api, HttpCall}
use medods_dvortsov.Process.Shutdown.{
  Phase, listening, draining, closing, lingering, ended, aborted, Process, Answer, shutdown_timeout,
  accept, answer, shut_down, stopped, clean_up, linger, exit, Step, arrives, is_answered,
  start_fails, is_signalled, is_drained, gives_up, closes, has_closed, times_out, wakes, Run, here,
  next,
}
use medods_dvortsov.Process.Order.{Ordered, at_phase, Run-Ordered}

-- The signal has come.
abbrev pub IsStopping : Phase → Type 0
IsStopping listening = ⊥
IsStopping aborted = ⊥
IsStopping _ = Unit

-- The stages up to the end: the return of Shutdown, a cleanup function each, the end of the loop, the
-- `select`.
abbrev pub events_left : Phase → ℕ
events_left draining = 5
events_left (closing fs) = length fs + 2
events_left (lingering _) = 1
events_left _ = 0

abbrev pub calls_of : List Answer → List HttpCall
calls_of [] = []
calls_of (a ∷ rest) = a.call ∷ calls_of rest

length-middle :
    (before after : List HttpCall) (c : HttpCall)
    → length (before ++ c ∷ after) ≡ suc (length (before ++ after))
length-middle [] after c = refl
length-middle (b ∷ before) after c = ap suc (length-middle before after c)

middle-perm :
    (before after rest : List HttpCall) (c : HttpCall)
    → Perm ((before ++ after) ++ c ∷ rest) ((before ++ c ∷ after) ++ rest)
middle-perm before after rest c = Perm.trans (perm_middle (before ++ after) rest) (
    rw (append_assoc before after rest, append_assoc before (c ∷ after) rest)
      (Perm.symm (perm_middle before (after ++ rest))))

module _ {p : Platform} where
  abbrev pub work : Process p → ℕ
  work s = length s.in_flight + events_left s.phase

  -- The requests that have come.
  abbrev pub requests : Process p → List HttpCall
  requests s = s.in_flight ++ calls_of s.answers

  IsStopping-at :
      (s : Process p) (phase : Phase) → s.phase ≡ phase → IsStopping s.phase → IsStopping phase
  IsStopping-at s phase same h = rw (← same) h

  not_listening : (s : Process p) → s.phase ≡ listening → IsStopping s.phase → ⊥
  not_listening s same h = IsStopping-at s listening same h

  Step-work :
      (api : Api p) (g : ℤ) {s t : Process p}
      → Step api g s t
      → IsStopping s.phase
      → IsStopping t.phase × (suc (work t) ≤ work s)
  unfolding answer accept shut_down stopped clean_up linger exit
  Step-work api g {s} (arrives at c later phase) h = absurd (not_listening s phase h)
  Step-work api g {s} (is_answered at before c after later serving left) h =
      (h, rw (left, length-middle before after c) (omega arith))
  Step-work api g {s} (start_fails at later phase) h = absurd (not_listening s phase h)
  Step-work api g {s} (is_signalled at later phase) h = absurd (not_listening s phase h)
  Step-work api g {s} (is_drained at later phase none_left) h = (tt, rw (phase) (omega arith))
  Step-work api g {s} (gives_up at later phase over) h = (tt, rw (phase) (omega arith))
  Step-work api g {s} (closes at f fs later phase) h = (tt, rw (phase) (omega arith))
  Step-work api g {s} (has_closed at later phase) h = (tt, rw (phase) (omega arith))
  Step-work api g {s} (times_out at wake later phase over) h = (tt, rw (phase) (omega arith))
  Step-work api g {s} (wakes at wake later phase up) h = (tt, rw (phase) (omega arith))

  Run-work :
      (api : Api p) (g : ℤ) {s t : Process p} {n : ℕ}
      → Run api g s n t
      → IsStopping s.phase
      → IsStopping t.phase × (n + work t ≤ work s)
  Run-work api g here h = (h, omega arith)
  Run-work api g (next run step) h =
      let (stopping, less) = Run-work api g run h in
      let (stopping', less') = Step-work api g step stopping in (stopping', omega arith)

  Step-requests :
      (api : Api p) (g : ℤ) {s t : Process p}
      → Step api g s t
      → IsStopping s.phase
      → Perm (requests t) (requests s) × (t.deadline ≡ s.deadline)
  unfolding answer accept shut_down stopped clean_up linger exit
  Step-requests api g {s} (arrives at c later phase) h = absurd (not_listening s phase h)
  Step-requests api g {s} (is_answered at before c after later serving left) h =
      (rw (left) (middle-perm before after (calls_of s.answers) c), refl)
  Step-requests api g {s} (start_fails at later phase) h = absurd (not_listening s phase h)
  Step-requests api g {s} (is_signalled at later phase) h = absurd (not_listening s phase h)
  Step-requests api g {s} (is_drained at later phase none_left) h = (Perm.refl _, refl)
  Step-requests api g {s} (gives_up at later phase over) h = (Perm.refl _, refl)
  Step-requests api g {s} (closes at f fs later phase) h = (Perm.refl _, refl)
  Step-requests api g {s} (has_closed at later phase) h = (Perm.refl _, refl)
  Step-requests api g {s} (times_out at wake later phase over) h = (Perm.refl _, refl)
  Step-requests api g {s} (wakes at wake later phase up) h = (Perm.refl _, refl)

  Run-requests :
      (api : Api p) (g : ℤ) {s t : Process p} {n : ℕ}
      → Run api g s n t
      → IsStopping s.phase
      → Perm (requests t) (requests s) × (t.deadline ≡ s.deadline)
  Run-requests api g here h = (Perm.refl _, refl)
  Run-requests api g (next run step) h =
      let (perm, same) = Run-requests api g run h in
      let (perm', same') = Step-requests api g step (Run-work api g run h).0 in
      (Perm.trans perm' perm, same' ∙ same)

  -- Without another answer, the process can have ended by the time.
  abbrev pub EndsBy : Api p → ℤ → ℕ → Process p → Type 0
  EndsBy api g time t =
      (m : ℕ) × (u : Process p) × Run api g t m u
      × (u.phase ≡ ended)
      × (u.answers ≡ t.answers)
      × (u.clock ≡ time)

  answered_all :
      (t : Process p) (cs : List HttpCall)
      → t.in_flight ≡ []
      → Perm (requests t) cs
      → Perm (calls_of t.answers) cs
  answered_all t cs none_left perm =
      let same : requests t ≡ calls_of t.answers = rw none_left refl in rw (← same) perm

  -- The signal comes at the time `at`, with no resource closed, and the process ends: then every
  -- request that had come has been answered, once, or the five seconds of Shutdown are over. The
  -- setting GRACEFUL_TIMEOUT does not count.
  pub shutdown_answers :
      (api : Api p) (g : ℤ) (at : ℕ) (s : Process p) {t : Process p} {n : ℕ}
      → s.closed ≡ []
      → Run api g (shut_down at s) n t
      → t.phase ≡ ended
      → Perm (calls_of t.answers) (requests s) ⊎ (at + shutdown_timeout ≤ t.clock)
  unfolding shut_down
  shutdown_answers api g at s {t} closed run end =
      let (perm, same) = Run-requests api g run tt in
      let order : Ordered ended t = at_phase t ended end (Run-Ordered api g run closed) in
      elim order.1 [
        | inl none_left ↦ inl (answered_all t _ none_left perm)
        | inr over ↦ inr (omega arith)
      ]
