-- ===== src/Platform/Machine.antt =====
-- What comes from outside at each event of a run, numbered from 0: the time, random values, the
-- answers of the database server, and of Redis to a script. Nothing is assumed of them here.
use medods_dvortsov.Prelude.{
  Bool, ℕ, String, ◌≡◌, refl, ◌⊎◌, inl, inr, List, All, ◌<◌, ◌*◌, ◌/◌, length,
}
use medods_dvortsov.Go.Errors.{Result, ok}
use medods_dvortsov.Models.{Time}

-- How a statement, a BEGIN, a COMMIT or a script ends: answered; not run, with a driver's error; or run, with
-- the answer lost.
pub data Reply : Type 0 where
  answered : Reply
  refused : String → Reply
  lost : String → Reply

-- To split on a reply and keep the equation.
pub Reply-cases :
    (r : Reply)
    → ((r ≡ answered) ⊎ ((m : String) × (r ≡ refused m))) ⊎ ((m : String) × (r ≡ lost m))
Reply-cases answered = inl (inl refl)
Reply-cases (refused m) = inl (inr (m, refl))
Reply-cases (lost m) = inr (m, refl)

pub record Host : Type 0 where
  pub clock : ℕ → Time
  pub uuid : ℕ → String
  -- `rand.Read` into the number of bytes.
  pub random : ℕ → ℕ → Result (List ℕ)
  pub reply : ℕ → Reply
  -- PostgreSQL reads the text as a UUID.
  pub is_uuid : String → Bool
  -- crypto/sha256 on the bytes of a text.
  pub sum256 : String → List ℕ
  pub sum256_bytes : (s : String) → All (λ b. b < 256) (sum256 s)
  pub length-sum256 : (s : String) → length (sum256 s) ≡ 32
  -- package time, with the layout time.RFC3339: whole seconds.
  pub format_rfc3339 : Time → String
  pub parse_rfc3339 : String → Result Time
  pub parse-format_rfc3339 : (t : Time) → parse_rfc3339 (format_rfc3339 t) ≡ ok (t / 1000 * 1000)
