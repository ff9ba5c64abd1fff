-- ===== src/Storage/Invariant.antt =====
-- What the schema promises of the tables, and that every statement keeps it.
use medods_dvortsov.Prelude.{
  ℕ, suc, ◌≤◌, ◌<◌, ◌^◌, String, ◌≡◌, refl, Bool, true, false, List, [], ◌∷◌, map, ℤ, pos, negsuc,
  arith, int_eq_iff, any, reject,
}
use medods_dvortsov.Models.{RefreshSession, User}
use medods_dvortsov.Program.{SessionRow, Db}
use medods_dvortsov.Storage.Transactions.{roll_back}
use medods_dvortsov.Storage.Statements.{
  has_guid, has_id, has_selector, is_session_of, mark_row, insert_user, insert_session,
  update_session_used, delete_session_row, delete_user_sessions,
}

-- A number that the sequence has given out.
abbrev pub Given : ℕ → ℤ → Type 0
Given n (pos k) = (1 ≤ k) × (k ≤ n)
Given n (negsuc _) = ⊥

-- The primary key and the unique column of users.
abbrev pub AreUsers : ℕ → List User → Type 0
AreUsers n [] = Unit
AreUsers n (u ∷ us) =
    Given n u.id
    × (any (has_id u.id) us ≡ false)
    × (any (has_guid u.guid) us ≡ false)
    × AreUsers n us

-- The unique selector and the foreign key of sessions.
abbrev pub AreSessions : ℕ → List User → List SessionRow → Type 0
AreSessions n users [] = Unit
AreSessions n users (r ∷ rs) =
    Given n r.session.id
    × (any (has_selector r.session.selector) rs ≡ false)
    × (any (has_id r.session.user_id) users ≡ true)
    × AreSessions n users rs

pub record IsValid (d : Db) : Type 0 where
  pub users_valid : AreUsers d.users_seq d.users
  pub users_fit : d.users_seq < 2 ^ 63
  pub sessions_valid : AreSessions d.sessions_seq d.users d.sessions

Given-mono : (m n : ℕ) (id : ℤ) → m ≤ n → Given m id → Given n id
Given-mono m n (pos k) h g = omega arith
Given-mono m n (negsuc k) h g = g

AreUsers-mono : (m n : ℕ) (us : List User) → m ≤ n → AreUsers m us → AreUsers n us
AreUsers-mono m n [] h v = tt
AreUsers-mono m n (u ∷ us) h (g, i, s, v) =
    (Given-mono m n u.id h g, i, s, AreUsers-mono m n us h v)

any-has_id_next : (n : ℕ) (us : List User) → AreUsers n us → any (has_id (pos (suc n))) us ≡ false
any-has_id_next n [] v = refl
any-has_id_next n (u ∷ us) (g, i, s, v) =
    ground (arith, int_eq_iff u.id (pos (suc n)), any-has_id_next n us v)

AreSessions-mono :
    (m n : ℕ) (us : List User) (rs : List SessionRow)
    → m ≤ n
    → AreSessions m us rs
    → AreSessions n us rs
AreSessions-mono m n us [] h v = tt
AreSessions-mono m n us (r ∷ rs) h (g, i, s, v) =
    (Given-mono m n r.session.id h g, i, s, AreSessions-mono m n us rs h v)

-- A further user breaks no reference.
AreSessions-cons_user :
    (n : ℕ) (u : User) (us : List User) (rs : List SessionRow)
    → AreSessions n us rs
    → AreSessions n (u ∷ us) rs
AreSessions-cons_user n u us [] v = tt
AreSessions-cons_user n u us (r ∷ rs) (g, i, s, v) =
    (g, i, ground arith, AreSessions-cons_user n u us rs v)

pub any-has_selector-mark :
    (t s : String) (rs : List SessionRow)
    → any (has_selector t) (map (mark_row s) rs) ≡ any (has_selector t) rs
any-has_selector-mark t s [] = refl
any-has_selector-mark t s (r ∷ rs) = ground (arith, any-has_selector-mark t s rs)

AreSessions-mark :
    (n : ℕ) (us : List User) (s : String) (rs : List SessionRow)
    → AreSessions n us rs
    → AreSessions n us (map (mark_row s) rs)
AreSessions-mark n us s [] v = tt
AreSessions-mark n us s (r ∷ rs) (g, i, f, v) =
    ground (arith, any-has_selector-mark r.session.selector s rs, AreSessions-mark n us s rs v)

any_after_reject {ℓ} :
    {A : Type ℓ} (f g : A → Bool) (xs : List A) → any f xs ≡ false → any f (reject g xs) ≡ false
any_after_reject f g [] h = refl
any_after_reject f g (x ∷ xs) h = ground (arith, any_after_reject f g xs)

AreSessions-reject :
    (n : ℕ) (us : List User) (f : SessionRow → Bool) (rs : List SessionRow)
    → AreSessions n us rs
    → AreSessions n us (reject f rs)
AreSessions-reject n us f [] v = tt
AreSessions-reject n us f (r ∷ rs) (g, i, s, v) = ground (
  arith,
  any_after_reject (has_selector r.session.selector) f rs i,
  AreSessions-reject n us f rs v,
)

-- How a statement, a transaction or a whole action may change the tables: what is valid stays so,
-- and no sequence goes back.
pub record Preserves (d e : Db) : Type 0 where
  pub users_grow : d.users_seq ≤ e.users_seq
  pub sessions_grow : d.sessions_seq ≤ e.sessions_seq
  pub valid : IsValid d → IsValid e

pub Preserves-refl : (d : Db) → Preserves d d
Preserves-refl d = record { users_grow = omega arith; sessions_grow = omega arith; valid = λ v. v }

pub Preserves-trans : (d e f : Db) → Preserves d e → Preserves e f → Preserves d f
Preserves-trans d e f h k = record {
  users_grow = omega (arith, h.users_grow, k.users_grow);
  sessions_grow = omega (arith, h.sessions_grow, k.sessions_grow);
  valid = λ v. k.valid (h.valid v);
}

pub insert_user-Preserves :
    (is_uuid : String → Bool) (guid : String) (d : Db) → Preserves d (insert_user is_uuid guid d).1
unfolding insert_user
insert_user-Preserves is_uuid guid d = record {
  users_grow = ground arith;
  sessions_grow = ground arith;
  valid = λ v. ground (
    arith,
    AreUsers-mono d.users_seq (suc d.users_seq) d.users (omega arith) v.users_valid,
    any-has_id_next d.users_seq d.users v.users_valid,
    AreSessions-cons_user d.sessions_seq (record { id = pos (suc d.users_seq); guid = guid })
        d.users d.sessions v.sessions_valid,
  );
}

pub insert_session-Preserves : (s : RefreshSession) (d : Db) → Preserves d (insert_session s d).1
unfolding insert_session
insert_session-Preserves s d = record {
  users_grow = ground arith;
  sessions_grow = ground arith;
  valid = λ v. ground (
    arith,
    AreSessions-mono d.sessions_seq (suc d.sessions_seq) d.users d.sessions (omega arith)
        v.sessions_valid,
  );
}

pub update_session_used-Preserves :
    (selector : String) (d : Db) → Preserves d (update_session_used selector d).1
unfolding update_session_used
update_session_used-Preserves selector d = record {
  users_grow = omega arith;
  sessions_grow = omega arith;
  valid = λ v. record {
    users_valid = v.users_valid;
    users_fit = v.users_fit;
    sessions_valid = AreSessions-mark d.sessions_seq d.users selector d.sessions v.sessions_valid;
  };
}

rejecting-Preserves :
    (f : SessionRow → Bool) (d : Db) → Preserves d (record d { sessions = reject f d.sessions })
rejecting-Preserves f d = record {
  users_grow = omega arith;
  sessions_grow = omega arith;
  valid = λ v. record {
    users_valid = v.users_valid;
    users_fit = v.users_fit;
    sessions_valid = AreSessions-reject d.sessions_seq d.users f d.sessions v.sessions_valid;
  };
}

pub delete_session_row-Preserves :
    (selector : String) (d : Db) → Preserves d (delete_session_row selector d).1
unfolding delete_session_row
delete_session_row-Preserves selector d = rejecting-Preserves (has_selector selector) d

pub delete_user_sessions-Preserves :
    (user_id : ℤ) (d : Db) → Preserves d (delete_user_sessions user_id d).1
unfolding delete_user_sessions
delete_user_sessions-Preserves user_id d = rejecting-Preserves (is_session_of user_id) d

pub roll_back-Preserves : (d e : Db) → Preserves d e → Preserves d (roll_back d e)
roll_back-Preserves d e h = record {
  users_grow = h.users_grow;
  sessions_grow = h.sessions_grow;
  valid = λ v. record {
    users_valid = AreUsers-mono d.users_seq e.users_seq d.users h.users_grow v.users_valid;
    users_fit = (h.valid v).users_fit;
    sessions_valid =
        AreSessions-mono d.sessions_seq e.sessions_seq d.users d.sessions h.sessions_grow
          v.sessions_valid;
  };
}
