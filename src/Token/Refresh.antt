-- ===== src/Token/Refresh.antt =====
-- Refresh tokens: what is created is accepted, and what is accepted has the stored hash.
use Prim.Native.String.{◌++◌}
use medods_dvortsov.Prelude.{
  ℕ, String, ◌≡◌, refl, ◌↔◌, Option, none, some, List, arith, ◌∙◌, ap, nil-append, cons-append,
}
use medods_dvortsov.Go.Errors.{ok}
use medods_dvortsov.Go.Strings.{split, split-two}
use medods_dvortsov.Go.Hex
use medods_dvortsov.Go.Hex.RoundTrip.{decode-encode}
use medods_dvortsov.Go.Base64
use medods_dvortsov.Go.Base64.{Lacks-encode}
use medods_dvortsov.Go.Subtle.{constant_time_compare_iff}
use medods_dvortsov.Platform.{Platform}
use medods_dvortsov.Token.{
  TokenService, two_parts, take, drop, refresh_token_from, validate_refresh_token, compare_verifier,
  check_parts,
}

dot-append : (s : String) → "." ++ s ≡ String.◌∷◌ "." s
dot-append s = cons-append "." "" s ∙ ap (λ (t : String). String.◌∷◌ "." t) (nil-append s)

-- The parts of a token that joins two encodings by a dot.
pub two_parts-split :
    (a b : List ℕ)
    → two_parts (split b'.' (Base64.encode a ++ ("." ++ Base64.encode b)))
      ≡ some (Base64.encode a, Base64.encode b)
two_parts-split a b =
    ap (λ (s : String). two_parts (split b'.' (Base64.encode a ++ s)))
      (dot-append (Base64.encode b))
    ∙ ap two_parts (
        split-two b'.' "." (Base64.encode a) (Base64.encode b) refl (Lacks-encode a)
          (Lacks-encode b))

second :
    (s v s' v' : String) → ◌≡◌ {A = Option (String × String)} (some (s, v)) (some (s', v')) → v' ≡ v
second s v s' v' h = cc

module _ (p : Platform) (ts : TokenService) where
  compare_verifier_iff :
      (verifier : String) (stored : Option (List ℕ))
      → (compare_verifier p ts verifier stored ≡ ok tt) ↔ (stored ≡ some (p.host.sum256 verifier))
  unfolding compare_verifier
  compare_verifier_iff verifier none = ground arith
  compare_verifier_iff verifier (some bs) =
      ground (arith, constant_time_compare_iff (p.host.sum256 verifier) bs)

  check_parts_iff :
      (parts : Option (String × String)) (verifier_hash : String)
      → (check_parts p ts parts verifier_hash ≡ ok tt) ↔ (
          (selector : String) × (verifier : String) × (parts ≡ some (selector, verifier))
          × (Hex.decode verifier_hash ≡ some (p.host.sum256 verifier)))
  unfolding check_parts
  check_parts_iff none verifier_hash = (λ h. cc, λ (s, v, h, k). cc)
  check_parts_iff (some (s, v)) verifier_hash = (
    λ h. (s, v, refl, (compare_verifier_iff v (Hex.decode verifier_hash)).0 h),
    λ (s', v', h, k).
        (compare_verifier_iff v (Hex.decode verifier_hash)).1
          (k ∙ ap (λ (x : String). some (p.host.sum256 x)) (second s v s' v' h)),
  )

  -- The presented token is accepted exactly when it has two parts, and the stored text is the
  -- hexadecimal hash of the second.
  pub validate_refresh_token_iff :
      (token verifier_hash : String)
      → (validate_refresh_token p ts token verifier_hash ≡ ok tt) ↔ (
          (selector : String) × (verifier : String) × (two_parts (split b'.' token)
            ≡ some (selector, verifier))
          × (Hex.decode verifier_hash ≡ some (p.host.sum256 verifier)))
  unfolding validate_refresh_token
  validate_refresh_token_iff token verifier_hash =
      check_parts_iff (two_parts (split b'.' token)) verifier_hash

  -- Of any random bytes: the token that is handed out is accepted against the hash that is stored,
  -- and its first part is the selector.
  pub refresh_token_round_trip :
      (raw : List ℕ)
      → let (token, selector, verifier_hash) = refresh_token_from p ts raw in
        (validate_refresh_token p ts token verifier_hash ≡ ok tt)
        × ((verifier : String) × (two_parts (split b'.' token) ≡ some (selector, verifier)))
  unfolding refresh_token_from
  refresh_token_round_trip raw =
      let parts = two_parts-split (take 16 raw) (drop 16 raw) in
      let verifier = Base64.encode (drop 16 raw) in
      (
        (validate_refresh_token_iff _ _).1 (
          Base64.encode (take 16 raw),
          verifier,
          parts,
          decode-encode (p.host.sum256 verifier) (p.host.sum256_bytes verifier),
        ),
        (verifier, parts),
      )
