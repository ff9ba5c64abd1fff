-- ===== src/Auth/View.antt =====
-- The table of sessions seen as a `View`, and the changes of the table as moves.
use medods_dvortsov.Prelude.{
  ℕ, String, ℤ, ◌≡◌, refl, sym, ◌∙◌, ap, ◌==◌, Option, none, some, List, [], ◌∷◌, map, find, any,
  reject, false, eq_iff, arith, Bool-cases, inl, inr, if◌then◌else◌,
}
use medods_dvortsov.Models.{RefreshSession, User}
use medods_dvortsov.Program.{Status, active, SessionRow, Db}
use medods_dvortsov.Storage.Statements.{
  has_selector, is_active_with, is_session_of, row_session, mark_row,
}
use medods_dvortsov.Storage.Invariant.{AreSessions, IsValid, any-has_selector-mark}
use medods_dvortsov.Storage.Effects.{stored, Issued, Rotated, find-none_of_any}
use medods_dvortsov.Auth.Moves.{
  View, marked, spared, opened, Change, opening, rotating, revoking, Move, keeps, opens, rotates,
  revokes,
}

abbrev pub seen : Option SessionRow → Option (ℤ × Status)
seen none = none
seen (some r) = some (r.session.user_id, r.status)

abbrev pub rows_view : List SessionRow → View
rows_view rows s = seen (find (has_selector s) rows)

abbrev pub view : Db → View
view d = rows_view d.sessions

view-map_mark :
    (old s : String) (rows : List SessionRow)
    → rows_view (map (mark_row old) rows) s
      ≡ (if old == s then marked (rows_view rows s) else rows_view rows s)
view-map_mark old s [] = elim (Bool-cases (old == s)) [ inl e ↦ rw e refl | inr e ↦ rw e refl ]
view-map_mark old s (r ∷ rows) = ground (
  arith,
  view-map_mark old s rows,
  eq_iff r.session.selector s,
  eq_iff r.session.selector old,
  eq_iff old s,
)

find-reject :
    (s : String) (id : ℤ) (rows : List SessionRow)
    → any (has_selector s) rows ≡ false
    → find (has_selector s) (reject (is_session_of id) rows) ≡ none
find-reject s id [] h = refl
find-reject s id (r ∷ rows) h = ground (arith, find-reject s id rows)

view-reject :
    (n : ℕ) (us : List User) (id : ℤ) (s : String) (rows : List SessionRow)
    → AreSessions n us rows
    → rows_view (reject (is_session_of id) rows) s ≡ spared id (rows_view rows s)
view-reject n us id s [] v = refl
view-reject n us id s (r ∷ rows) (g, unique, i, v) =
    ground (arith, view-reject n us id s rows v, find-reject s id rows, eq_iff r.session.selector s)

view-any :
    (s : String) (rows : List SessionRow)
    → any (has_selector s) rows ≡ false
    → rows_view rows s ≡ none
view-any s rows h = ap seen (find-none_of_any (has_selector s) rows h)

find-active_none :
    (s : String) (rows : List SessionRow)
    → any (has_selector s) rows ≡ false
    → find (is_active_with s) rows ≡ none
find-active_none s [] h = refl
find-active_none s (r ∷ rows) h = ground (arith, find-active_none s rows)

pub view_active :
    (n : ℕ) (us : List User) (s : String) (rows : List SessionRow) (x : RefreshSession)
    → AreSessions n us rows
    → row_session (find (is_active_with s) rows) ≡ some x
    → rows_view rows s ≡ some (x.user_id, active)
view_active n us s [] x v h = absurd (cc)
view_active n us s (r ∷ rows) x (g, unique, i, v) h =
    ground
      (arith, view_active n us s rows x v, find-active_none s rows, eq_iff r.session.selector s)

module _ (K : Change → Type 0) (d e : Db) where
  pub view_same : e.sessions ≡ d.sessions → Move K (view d) (view e)
  view_same h = keeps (λ s. ap (λ (rows : List SessionRow). rows_view rows s) h)

  view-stored :
      (new : RefreshSession) (n : ℕ) (id : ℤ) (rows : List SessionRow) (s : String)
      → rows_view (stored n id new ∷ rows) s ≡ opened new.selector id (rows_view rows) s
  view-stored new n id rows s = elim (Bool-cases (new.selector == s)) [
    | inl same ↦ rw same refl
    | inr other ↦ rw other refl
  ]

  pub Issued-Move :
      (guid : String) (new : RefreshSession) (u : User)
      → K (opening new.selector u.id)
      → Issued guid new d e u
      → Move K (view d) (view e)
  Issued-Move guid new u g h =
      opens new.selector u.id g (view-any new.selector d.sessions h.fresh) λ s.
        ap (λ (rows : List SessionRow). rows_view rows s) h.session
        ∙ view-stored new d.sessions_seq u.id d.sessions s

  pub Rotated-Move :
      (old : String) (new was : RefreshSession) (u : User)
      → IsValid d
      → K (rotating old new.selector was.user_id)
      → row_session (find (is_active_with old) d.sessions) ≡ some was
      → Rotated old new was.user_id d e u
      → Move K (view d) (view e)
  Rotated-Move old new was u v g found h =
      rotates old new.selector was.user_id g
        (view-any new.selector d.sessions
          (sym (any-has_selector-mark new.selector old d.sessions) ∙ h.fresh))
        (view_active d.sessions_seq d.users old d.sessions was v.sessions_valid found)
        λ s.
          ap (λ (rows : List SessionRow). rows_view rows s) h.sessions
          ∙ view-stored new d.sessions_seq was.user_id (map (mark_row old) d.sessions) s
          ∙ elim (Bool-cases (new.selector == s)) [
            | inl same ↦ rw same refl
            | inr other ↦ rw other (view-map_mark old s d.sessions)
          ]

  pub rejected_Move :
      (id : ℤ)
      → K (revoking id)
      → IsValid d
      → e.sessions ≡ reject (is_session_of id) d.sessions
      → Move K (view d) (view e)
  rejected_Move id k v h = revokes id k λ s.
      ap (λ (rows : List SessionRow). rows_view rows s) h
      ∙ view-reject d.sessions_seq d.users id s d.sessions v.sessions_valid
