-- ===== src/Process/Order.antt =====
-- What holds in every state of the process.
use medods_dvortsov.Prelude.{
  ℕ, ◌≤◌, ◌≡◌, refl, ◌⊎◌, inl, inr, List, [], ◌∷◌, ◌++◌, ℤ, sym, ◌∙◌, arith,
}
use medods_dvortsov.Platform.{Platform}
use medods_dvortsov.Program.{Worlds}
use medods_dvortsov.Storage.Invariant.{IsValid}
use medods_dvortsov.Server.{Api, HttpCall, serve}
use medods_dvortsov.Server.Onward.{Onward, Onward-refl, Onward-trans, serve-Onward}
use medods_dvortsov.Process.Shutdown.{
  Resource, shutdown_funcs, Phase, listening, draining, closing, lingering, ended, aborted, Process,
  launched, accept, answer, shut_down, stopped, clean_up, linger, exit, Step, arrives, is_answered,
  start_fails, is_signalled, is_drained, gives_up, closes, has_closed, times_out, wakes, Run, here,
  next,
}

-- The cleanup functions in the order of their calls: those that have run, newest first, and those
-- that are left.
abbrev pub called_then : List Resource → List Resource → List Resource
called_then [] left = left
called_then (f ∷ run) left = called_then run (f ∷ left)

not_both : {A : Type 0} (before after : List A) (c : A) → before ++ c ∷ after ≡ [] → ⊥
not_both [] after c h = cc
not_both (b ∷ before) after c h = cc

module _ {p : Platform} where
  -- No request is in flight, or the time of Shutdown is over.
  abbrev pub IsSettled : Process p → Type 0
  IsSettled s = (s.in_flight ≡ []) ⊎ (s.deadline ≤ s.clock)

  abbrev pub Ordered : Phase → Process p → Type 0
  Ordered (closing left) s = (called_then s.closed left ≡ shutdown_funcs) × IsSettled s
  Ordered (lingering _) s = (called_then s.closed [] ≡ shutdown_funcs) × IsSettled s
  Ordered ended s = (called_then s.closed [] ≡ shutdown_funcs) × IsSettled s
  Ordered _ s = s.closed ≡ []

  settled_on :
      (s : Process p) (at : ℕ) (before after : List HttpCall) (c : HttpCall)
      → s.clock ≤ at
      → s.in_flight ≡ before ++ c ∷ after
      → IsSettled s
      → s.deadline ≤ at
  settled_on s at before after c later some_left (inl none_left) =
      absurd (not_both before after c (sym some_left ∙ none_left))
  settled_on s at before after c later some_left (inr over) = omega arith

  answer-Ordered :
      (api : Api p) (at : ℕ) (before : List HttpCall) (c : HttpCall) (after : List HttpCall)
      (s : Process p) (phase : Phase)
      → s.clock ≤ at
      → s.in_flight ≡ before ++ c ∷ after
      → Ordered phase s
      → Ordered phase (answer api at before c after s)
  unfolding answer
  answer-Ordered api at before c after s listening later left h = h
  answer-Ordered api at before c after s draining later left h = h
  answer-Ordered api at before c after s (closing fs) later left (order, settled) =
      (order, inr (settled_on s at before after c later left settled))
  answer-Ordered api at before c after s (lingering wake) later left (order, settled) =
      (order, inr (settled_on s at before after c later left settled))
  answer-Ordered api at before c after s ended later left (order, settled) =
      (order, inr (settled_on s at before after c later left settled))
  answer-Ordered api at before c after s aborted later left h = h

  later-IsSettled :
      (s : Process p) (phase : Phase) (at : ℕ)
      → s.clock ≤ at
      → IsSettled s
      → IsSettled (exit phase at s)
  unfolding exit
  later-IsSettled s phase at later (inl none_left) = inl none_left
  later-IsSettled s phase at later (inr over) = inr (omega arith)

  pub at_phase :
      (s : Process p) (phase : Phase) → s.phase ≡ phase → Ordered s.phase s → Ordered phase s
  at_phase s phase same h = rw (← same) h

  begun : (s : Process p) → s.closed ≡ [] → called_then s.closed shutdown_funcs ≡ shutdown_funcs
  begun s h = rw h refl

  Step-Ordered :
      (api : Api p) (g : ℤ) {s t : Process p}
      → Step api g s t
      → Ordered s.phase s
      → Ordered t.phase t
  unfolding answer accept shut_down stopped clean_up linger exit
  Step-Ordered api g {s} (arrives at c later phase) h = rw (phase) (at_phase s _ phase h)
  Step-Ordered api g {s} (is_answered at before c after later serving left) h =
      answer-Ordered api at before c after s s.phase later left h
  Step-Ordered api g {s} (start_fails at later phase) h = at_phase s _ phase h
  Step-Ordered api g {s} (is_signalled at later phase) h = at_phase s _ phase h
  Step-Ordered api g {s} (is_drained at later phase none_left) h =
      (begun s (at_phase s _ phase h), inl none_left)
  Step-Ordered api g {s} (gives_up at later phase over) h =
      (begun s (at_phase s _ phase h), inr over)
  Step-Ordered api g {s} (closes at f fs later phase) h =
      let (order, settled) = at_phase s _ phase h in
      (order, later-IsSettled s ended at later settled)
  Step-Ordered api g {s} (has_closed at later phase) h =
      let (order, settled) = at_phase s _ phase h in
      (order, later-IsSettled s ended at later settled)
  Step-Ordered api g {s} (times_out at wake later phase over) h =
      let (order, settled) = at_phase s _ phase h in
      (order, later-IsSettled s ended at later settled)
  Step-Ordered api g {s} (wakes at wake later phase up) h =
      let (order, settled) = at_phase s _ phase h in
      (order, later-IsSettled s ended at later settled)

  pub Run-Ordered :
      (api : Api p) (g : ℤ) {s t : Process p} {n : ℕ}
      → Run api g s n t
      → Ordered s.phase s
      → Ordered t.phase t
  Run-Ordered api g here h = h
  Run-Ordered api g (next run step) h = Step-Ordered api g step (Run-Ordered api g run h)

  -- What an event does to the world.
  pub Step-world :
      (api : Api p) (g : ℤ) {s t : Process p}
      → Step api g s t
      → (t.world ≡ s.world) ⊎ ((c : HttpCall) × (t.world ≡ (serve p api c s.world).1))
  unfolding answer accept shut_down stopped clean_up linger exit
  Step-world api g (is_answered at before c after later serving left) = inr (c, refl)
  Step-world api g (arrives at c later phase) = inl refl
  Step-world api g (start_fails at later phase) = inl refl
  Step-world api g (is_signalled at later phase) = inl refl
  Step-world api g (is_drained at later phase none_left) = inl refl
  Step-world api g (gives_up at later phase over) = inl refl
  Step-world api g (closes at f fs later phase) = inl refl
  Step-world api g (has_closed at later phase) = inl refl
  Step-world api g (times_out at wake later phase over) = inl refl
  Step-world api g (wakes at wake later phase up) = inl refl

  Step-Onward : (api : Api p) (g : ℤ) {s t : Process p} → Step api g s t → Onward s.world t.world
  Step-Onward api g {s} {t} step = elim (Step-world api g step) [
    | inl same ↦ rw same (Onward-refl s.world)
    | inr (c, same) ↦ rw same ((serve-Onward p api c).at s.world)
  ]

  pub Run-Onward :
      (api : Api p) (g : ℤ) {s t : Process p} {n : ℕ} → Run api g s n t → Onward s.world t.world
  Run-Onward api g {s} here = Onward-refl s.world
  Run-Onward api g {s} (next {t = t} {u = u} run step) =
      Onward-trans s.world t.world u.world (Run-Onward api g run) (Step-Onward api g step)

  pub launched-Ordered :
      (api : Api p) (g : ℤ) (w : Worlds p) {n : ℕ} {t : Process p}
      → IsValid w.db
      → Run api g (launched w) n t
      → IsValid t.world.db × Ordered t.phase t
  launched-Ordered api g w v run = ((Run-Onward api g run).0.valid v, Run-Ordered api g run refl)
