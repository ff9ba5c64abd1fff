-- ===== src/Go/Duration/Bounds.antt =====
-- The length of a text is fuel enough for its durations.
use Prim.Native.String.{String, [], ◌∷◌}
use medods_dvortsov.Prelude.{
  ℕ, zero, suc, ◌+◌, ◌%◌, ◌^◌, ◌≤◌, ◌≡◌, refl, ◌∙◌, sym, Option, none, some, arith,
}
use medods_dvortsov.Go.Duration.{size, segment, segments}
use medods_dvortsov.Go.Duration.Sizes.{segment-size}

module _ (scaled : ℕ → ℕ → ℕ → ℕ) where
  pub segments-nil : (fuel d : ℕ) → segments scaled fuel d [] ≡ some d
  unfolding segments
  segments-nil zero d = refl
  segments-nil (suc fuel) d = refl

  -- The length of the text is fuel enough: more makes no difference.
  pub segments_enough :
      (m n d : ℕ) (s : String)
      → size s ≤ m
      → size s ≤ n
      → segments scaled m d s ≡ segments scaled n d s
  unfolding segments
  segments_enough m n d [] h k = segments-nil m d ∙ sym (segments-nil n d)
  segments_enough zero n d (c ∷ s) h k = absurd (omega arith)
  segments_enough (suc m) zero d (c ∷ s) h k = absurd (omega arith)
  segments_enough (suc m) (suc n) d (c ∷ s) h k =
      from_segment (segment scaled c s) refl (segments_enough m n)
    where
      from_segment :
          (r : Option (ℕ × String))
          → segment scaled c s ≡ r
          → ((d' : ℕ) (rest : String)
              → size rest ≤ m
              → size rest ≤ n
              → segments scaled m d' rest ≡ segments scaled n d' rest)
          → segments scaled (suc m) d (c ∷ s) ≡ segments scaled (suc n) d (c ∷ s)
      from_segment none e same = rw (e, segments) refl
      from_segment (some (v, rest)) e same =
          let less = segment-size scaled c s v rest e in
          rw (e, segments, same ((d + v) % 2 ^ 64) rest (omega arith) (omega arith)) refl
