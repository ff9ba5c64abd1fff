-- ===== src/Storage/Statements.antt =====
-- The SQL statements of the repositories on the tables of the schema: the unique columns, the
-- foreign key and the serial keys are the schema's, and a statement that breaks them is an error.
use medods_dvortsov.Prelude.{
  ℕ, suc, ◌-◌, ◌^◌, String, Bool, true, false, ◌&&◌, not, Option, none, some, ◌∷◌, map, ℤ, pos,
  int_eq, leb, ◌==◌, if◌then◌else◌, find, any, reject,
}
use medods_dvortsov.Go.Errors.{Result, ok, err, sentinel, foreign, no_rows}
use medods_dvortsov.Models.{RefreshSession, User}
use medods_dvortsov.Program.{Status, active, used, SessionRow, Db}

-- The largest value of a BIGSERIAL.
abbrev pub max_serial : ℕ
max_serial = 2 ^ 63 - 1

abbrev pub is_active : Status → Bool
is_active active = true
is_active used = false

abbrev pub has_guid : String → User → Bool
has_guid guid u = u.guid == guid

abbrev pub has_id : ℤ → User → Bool
has_id id u = int_eq u.id id

abbrev pub has_selector : String → SessionRow → Bool
has_selector selector r = r.session.selector == selector

abbrev pub is_active_with : String → SessionRow → Bool
is_active_with selector r = has_selector selector r && is_active r.status

abbrev pub is_session_of : ℤ → SessionRow → Bool
is_session_of user_id r = int_eq r.session.user_id user_id

-- `QueryRow(…).Scan(…)` on what a SELECT finds.
abbrev pub scan_row {ℓ} : {A : Type ℓ} → Option A → Result A
scan_row none = err (sentinel no_rows)
scan_row (some a) = ok a

abbrev pub row_session : Option SessionRow → Option RefreshSession
row_session none = none
row_session (some r) = some r.session

-- INSERT INTO users (guid) VALUES ($1) RETURNING id, guid. A failed INSERT has used its number up.
-- A text that is not a UUID is refused by the column's type. A UUID comes as the text that `uuid.UUID`
-- prints, which is the one that the table returns.
unfoldable pub insert_user : (String → Bool) → String → Db → Result User × Db
insert_user is_uuid guid db =
    if not (is_uuid guid)
    then (err (foreign "invalid input syntax for type uuid"), db)
    else if leb max_serial db.users_seq
    then (err (foreign "nextval: reached maximum value of sequence"), db)
    else if any (has_guid guid) db.users
    then (
      err (foreign "duplicate key value violates unique constraint"),
      record db { users_seq = suc db.users_seq },
    )
    else (
      ok (record { id = pos (suc db.users_seq); guid = guid }),
      record db {
        users_seq = suc db.users_seq;
        users = record { id = pos (suc db.users_seq); guid = guid } ∷ db.users;
      },
    )

-- SELECT id, guid FROM users WHERE guid = $1
unfoldable pub select_user_by_guid : (String → Bool) → String → Db → Result User × Db
select_user_by_guid is_uuid guid db = (
  if is_uuid guid
      then scan_row (find (has_guid guid) db.users)
      else err (foreign "invalid input syntax for type uuid"),
  db,
)

-- SELECT id, guid FROM users WHERE id = $1
unfoldable pub select_user_by_id : ℤ → Db → Result User × Db
select_user_by_id id db = (scan_row (find (has_id id) db.users), db)

-- INSERT INTO sessions (user_id, selector, …) VALUES ($1, …) RETURNING id. The column `status` takes
-- its default, and `id` its next number.
unfoldable pub insert_session : RefreshSession → Db → Result ℤ × Db
insert_session s db =
    if leb max_serial db.sessions_seq
    then (err (foreign "nextval: reached maximum value of sequence"), db)
    else if any (has_selector s.selector) db.sessions
    then (
      err (foreign "duplicate key value violates unique constraint"),
      record db { sessions_seq = suc db.sessions_seq },
    )
    else if not (any (has_id s.user_id) db.users)
    then (
      err (foreign "insert violates foreign key constraint"),
      record db { sessions_seq = suc db.sessions_seq },
    )
    else (
      ok (pos (suc db.sessions_seq)),
      record db {
        sessions_seq = suc db.sessions_seq;
        sessions =
            record { session = record s { id = pos (suc db.sessions_seq) }; status = active }
            ∷ db.sessions;
      },
    )

-- SELECT … FROM sessions WHERE selector = $1 AND status = 'active'
unfoldable pub select_active_session : String → Db → Result RefreshSession × Db
select_active_session selector db =
    (scan_row (row_session (find (is_active_with selector) db.sessions)), db)

-- SELECT … FROM sessions WHERE selector = $1
unfoldable pub select_session : String → Db → Result RefreshSession × Db
select_session selector db = (scan_row (row_session (find (has_selector selector) db.sessions)), db)

abbrev pub mark_row : String → SessionRow → SessionRow
mark_row selector r = if has_selector selector r then record r { status = used } else r

-- UPDATE sessions SET status = 'used' WHERE selector = $1
unfoldable pub update_session_used : String → Db → Result (Unit {0}) × Db
update_session_used selector db =
    (ok tt, record db { sessions = map (mark_row selector) db.sessions })

-- DELETE FROM sessions WHERE selector = $1
unfoldable pub delete_session_row : String → Db → Result (Unit {0}) × Db
delete_session_row selector db =
    (ok tt, record db { sessions = reject (has_selector selector) db.sessions })

-- DELETE FROM sessions WHERE user_id = $1
unfoldable pub delete_user_sessions : ℤ → Db → Result (Unit {0}) × Db
delete_user_sessions user_id db =
    (ok tt, record db { sessions = reject (is_session_of user_id) db.sessions })
