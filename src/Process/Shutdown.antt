-- ===== src/Process/Shutdown.antt =====
-- ListenGracefulShutdown of internal/api/api.go: the goroutine that listens, the wait for a signal,
-- Shutdown with its time limit, the cleanup functions of cmd/main.go, and the wait at the end. A
-- state is what stands between two events; who acts next, and when, is left to the environment. A
-- request in flight is served by one event; after Shutdown has given up, it may still be. Times are
-- nanoseconds on one clock. Logging is left out.
use medods_dvortsov.Prelude.{ℕ, ◌+◌, ◌≤◌, ◌≡◌, List, [], ◌∷◌, ◌++◌, ℤ, pos, negsuc}
use medods_dvortsov.Go.Errors.{Result}
use medods_dvortsov.Platform.{Platform}
use medods_dvortsov.Program.{Worlds}
use medods_dvortsov.Server.{Api, HttpCall, Reply, serve}

-- `shutdownTimeout`.
abbrev pub shutdown_timeout : ℕ
shutdown_timeout = 5000000000

pub data Resource : Type 0 where
  database redis_client : Resource

-- `cleanupFuncs`.
abbrev pub shutdown_funcs : List Resource
shutdown_funcs = database ∷ redis_client ∷ []

-- Where the function stands: before `<-ctx.Done()`, in Shutdown, in the loop over the cleanup
-- functions, of which those of the list are left, in the `select`, with the time at which the sleep
-- ends, or past its end. `aborted` is the end of the process by Fatalf in the goroutine.
pub data Phase : Type 0 where
  listening draining : Phase
  closing : List Resource → Phase
  lingering : ℕ → Phase
  ended aborted : Phase

pub record Answer : Type 0 where
  pub call : HttpCall
  pub reply : Result Reply

-- `deadline` is that of shutdownCtx, once there is one. `in_flight` holds the requests that are
-- accepted and have no answer yet, `answers` those that have one, and `closed` the resources whose
-- cleanup function has run; the newest comes first in each.
pub record Process (p : Platform) : Type 0 where
  pub phase : Phase
  pub clock : ℕ
  pub deadline : ℕ
  pub in_flight : List HttpCall
  pub answers : List Answer
  pub closed : List Resource
  pub world : Worlds p

-- The handlers run until the process ends.
abbrev pub IsServing : Phase → Type 0
IsServing ended = ⊥
IsServing aborted = ⊥
IsServing _ = Unit

-- `time.Sleep` of no time, or less, returns at once.
abbrev pub woken_after : ℤ → ℕ
woken_after (pos d) = d
woken_after (negsuc d) = 0

module _ {p : Platform} where
  abbrev pub launched : Worlds p → Process p
  launched w = record {
    phase = listening;
    clock = 0;
    deadline = 0;
    in_flight = [];
    answers = [];
    closed = [];
    world = w;
  }

  unfoldable pub accept : ℕ → HttpCall → Process p → Process p
  accept at c s = record s { clock = at; in_flight = c ∷ s.in_flight }

  unfoldable pub answer :
      Api p → ℕ → List HttpCall → HttpCall → List HttpCall → Process p → Process p
  answer api at before c after s =
      let (r, w) = serve p api c s.world in
      record s {
        clock = at;
        in_flight = before ++ after;
        answers = record { call = c; reply = r } ∷ s.answers;
        world = w;
      }

  -- The signal, with the call of Shutdown.
  unfoldable pub shut_down : ℕ → Process p → Process p
  shut_down at s = record s { phase = draining; clock = at; deadline = at + shutdown_timeout }

  -- Shutdown has returned, with nil or with the error of its context.
  unfoldable pub stopped : ℕ → Process p → Process p
  stopped at s = record s { phase = closing shutdown_funcs; clock = at }

  unfoldable pub clean_up : ℕ → Resource → List Resource → Process p → Process p
  clean_up at f fs s = record s { phase = closing fs; clock = at; closed = f ∷ s.closed }

  unfoldable pub linger : ℤ → ℕ → Process p → Process p
  linger graceful_timeout at s = record s {
    phase = lingering (at + woken_after graceful_timeout);
    clock = at;
  }

  unfoldable pub exit : Phase → ℕ → Process p → Process p
  exit phase at s = record s { phase = phase; clock = at }

  -- One event, at the time `at`.
  pub data Step (api : Api p) (graceful_timeout : ℤ) (s : Process p) : Process p → Type 0 where
    arrives :
        (at : ℕ) (c : HttpCall)
        → s.clock ≤ at
        → s.phase ≡ listening
        → Step api graceful_timeout s (accept at c s)
    is_answered :
        (at : ℕ) (before : List HttpCall) (c : HttpCall) (after : List HttpCall)
        → s.clock ≤ at
        → IsServing s.phase
        → s.in_flight ≡ before ++ c ∷ after
        → Step api graceful_timeout s (answer api at before c after s)
    start_fails :
        (at : ℕ)
        → s.clock ≤ at
        → s.phase ≡ listening
        → Step api graceful_timeout s (exit aborted at s)
    is_signalled :
        (at : ℕ) → s.clock ≤ at → s.phase ≡ listening → Step api graceful_timeout s (shut_down at s)
    -- Shutdown returns when no request is left, or with the end of its context.
    is_drained :
        (at : ℕ)
        → s.clock ≤ at
        → s.phase ≡ draining
        → s.in_flight ≡ []
        → Step api graceful_timeout s (stopped at s)
    gives_up :
        (at : ℕ)
        → s.clock ≤ at
        → s.phase ≡ draining
        → s.deadline ≤ at
        → Step api graceful_timeout s (stopped at s)
    closes :
        (at : ℕ) (f : Resource) (fs : List Resource)
        → s.clock ≤ at
        → s.phase ≡ closing (f ∷ fs)
        → Step api graceful_timeout s (clean_up at f fs s)
    has_closed :
        (at : ℕ)
        → s.clock ≤ at
        → s.phase ≡ closing []
        → Step api graceful_timeout s (linger graceful_timeout at s)
    -- The two cases of the `select`.
    times_out :
        (at wake : ℕ)
        → s.clock ≤ at
        → s.phase ≡ lingering wake
        → s.deadline ≤ at
        → Step api graceful_timeout s (exit ended at s)
    wakes :
        (at wake : ℕ)
        → s.clock ≤ at
        → s.phase ≡ lingering wake
        → wake ≤ at
        → Step api graceful_timeout s (exit ended at s)

  -- A run of so many events.
  pub data Run (api : Api p) (graceful_timeout : ℤ) (s : Process p) : ℕ → Process p → Type 0 where
    here : Run api graceful_timeout s 0 s
    next :
        {n : ℕ} {t u : Process p}
        → Run api graceful_timeout s n t
        → Step api graceful_timeout t u
        → Run api graceful_timeout s (n + 1) u
