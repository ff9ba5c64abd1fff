-- ===== src/Auth/Moves.antt =====
-- The sessions as a user of the service sees them, and what one call may do to them. The table's rows,
-- their identifiers, hashes and dates are forgotten.
use medods_dvortsov.Prelude.{
  String, ℤ, ◌≡◌, inl, inr, ◌==◌, Option, none, some, int_eq, Bool-cases, eq_iff, if◌then◌else◌,
}
use medods_dvortsov.Program.{Status, active, used}

-- Of a selector: the owner of its session, and whether it has been used.
abbrev pub View : Type 0
View = String → Option (ℤ × Status)

abbrev pub marked : Option (ℤ × Status) → Option (ℤ × Status)
marked none = none
marked (some (id, st)) = some (id, used)

abbrev pub spared : ℤ → Option (ℤ × Status) → Option (ℤ × Status)
spared id none = none
spared id (some (owner, st)) = if int_eq owner id then none else some (owner, st)

-- The view after each kind of call.
abbrev pub opened : String → ℤ → View → View
opened new id v s = if new == s then some (id, active) else v s

abbrev pub rotated_to : String → String → ℤ → View → View
rotated_to old new id v = opened new id (λ s. if old == s then marked (v s) else v s)

abbrev pub revoked : ℤ → View → View
revoked id v s = spared id (v s)

-- What a move changes: the new selector with its owner, the old and the new selector with their owner,
-- or the owner of all the sessions that end.
pub data Change : Type 0 where
  opening : String → ℤ → Change
  rotating : String → String → ℤ → Change
  revoking : ℤ → Change

-- The changes of `K` as moves on the view: nothing, a session under a selector that is free, an active
-- session replaced by another of its owner, or all of an owner's sessions ended.
pub data Move (K : Change → Type 0) (v w : View) : Type 0 where
  keeps : ((s : String) → w s ≡ v s) → Move K v w
  opens :
      (new : String) (id : ℤ)
      → K (opening new id)
      → v new ≡ none
      → ((s : String) → w s ≡ opened new id v s)
      → Move K v w
  rotates :
      (old new : String) (id : ℤ)
      → K (rotating old new id)
      → v new ≡ none
      → v old ≡ some (id, active)
      → ((s : String) → w s ≡ rotated_to old new id v s)
      → Move K v w
  revokes : (id : ℤ) → K (revoking id) → ((s : String) → w s ≡ revoked id v s) → Move K v w

pub Move-mono :
    {K L : Change → Type 0} {v w : View} → ((c : Change) → K c → L c) → Move K v w → Move L v w
Move-mono h (keeps e) = keeps e
Move-mono h (opens new id k f e) = opens new id (h (opening new id) k) f e
Move-mono h (rotates old new id k f a e) = rotates old new id (h (rotating old new id) k) f a e
Move-mono h (revokes id k e) = revokes id (h (revoking id) k) e

-- The change brings the selector.
abbrev pub Brings : String → Change → Type 0
Brings s (opening new id) = new ≡ s
Brings s (rotating old new id) = new ≡ s
Brings s (revoking id) = ⊥

-- The selector has a session that was used, or none.
abbrev pub IsSpent : Option (ℤ × Status) → Type 0
IsSpent none = Unit
IsSpent (some (id, active)) = ⊥
IsSpent (some (id, used)) = Unit

marked-IsSpent : (x : Option (ℤ × Status)) → IsSpent (marked x)
marked-IsSpent none = tt
marked-IsSpent (some (id, st)) = tt

spared-IsSpent : (id : ℤ) (x : Option (ℤ × Status)) → IsSpent x → IsSpent (spared id x)
spared-IsSpent id none h = tt
spared-IsSpent id (some (owner, active)) h = absurd h
spared-IsSpent id (some (owner, used)) h = elim (Bool-cases (int_eq owner id)) [
  | inl own ↦ rw own tt
  | inr other ↦ rw other tt
]

opened-IsSpent :
    (new s : String) (id : ℤ) (v : View)
    → (new ≡ s → ⊥)
    → IsSpent (v s)
    → IsSpent (opened new id v s)
opened-IsSpent new s id v fresh h = elim (Bool-cases (new == s)) [
  | inl same ↦ absurd (fresh ((eq_iff new s).0 same))
  | inr other ↦ rw other h
]

-- A spent selector stays spent, unless it is made again.
pub Move-IsSpent :
    (K : Change → Type 0) (v w : View) (s : String)
    → ((c : Change) → K c → Brings s c → ⊥)
    → Move K v w
    → IsSpent (v s)
    → IsSpent (w s)
Move-IsSpent K v w s fresh (keeps e) h = rw (e s) h
Move-IsSpent K v w s fresh (opens new id k f e) h =
    rw (e s) (opened-IsSpent new s id v (λ same. fresh (opening new id) k same) h)
Move-IsSpent K v w s fresh (rotates old new id k f a e) h = rw (e s) (
    opened-IsSpent new s id (λ t. if old == t then marked (v t) else v t)
      (λ same. fresh (rotating old new id) k same)
      (elim (Bool-cases (old == s)) [
        | inl same ↦ rw same (marked-IsSpent (v s))
        | inr other ↦ rw other h
      ]))
Move-IsSpent K v w s fresh (revokes id k e) h = rw (e s) (spared-IsSpent id (v s) h)
