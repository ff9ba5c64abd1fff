-- ===== src/Go/Strings.antt =====
-- Package strings: Split by a one-character separator, HasPrefix, HasSuffix and TrimPrefix.
use Prim.Native.String.{[], ◌∷◌, ◌++◌}
use medods_dvortsov.Prelude.{
  ℕ, Char, code, String, ◌≡◌, refl, ◌≢◌, Bool, true, false, ◌&&◌, Option, none, some, arith, nat_eq,
  if◌then◌else◌, nil-append, cons-append, ◌==◌, ◌||◌, ap,
}
use mathlib.Core.List.{List}

abbrev push : Char → List String → List String
push c List.[] = List.◌∷◌ (c ∷ []) List.[]
push c (List.◌∷◌ p ps) = List.◌∷◌ (c ∷ p) ps

-- `strings.Split(s, sep)` for the separator with the code `sep`.
unfoldable pub split : ℕ → String → List String
split sep [] = List.◌∷◌ "" List.[]
split sep (c ∷ s) =
    let rest = split sep s in if nat_eq (code c) sep then List.◌∷◌ "" rest else push c rest

-- No character has the code.
abbrev pub Lacks : ℕ → String → Type 0
Lacks sep [] = Unit
Lacks sep (c ∷ s) = (code c ≢ sep) × Lacks sep s

unfoldable pub has_prefix : String → String → Bool
has_prefix s [] = true
has_prefix [] (_ ∷ _) = false
has_prefix (c ∷ s) (d ∷ t) = nat_eq (code c) (code d) && has_prefix s t

-- `strings.HasSuffix`: some tail of the text is the suffix.
unfoldable pub has_suffix : String → String → Bool
has_suffix [] t = [] == t
has_suffix (c ∷ s) t = ((c ∷ s) == t) || has_suffix s t

drop_prefix : String → String → String
drop_prefix s [] = s
drop_prefix [] (_ ∷ _) = []
drop_prefix (_ ∷ s) (_ ∷ t) = drop_prefix s t

-- `strings.TrimPrefix`: the text itself, if it has no such prefix.
unfoldable pub trim_prefix : String → String → String
unfolding drop_prefix has_prefix
trim_prefix s t = if has_prefix s t then drop_prefix s t else s

pub split_lacking : (sep : ℕ) (s : String) → Lacks sep s → split sep s ≡ List.◌∷◌ s List.[]
unfolding split
split_lacking sep [] h = refl
split_lacking sep (c ∷ s) (p, h) = ground (arith, split_lacking sep s h)

-- A separator between two parts without one is found.
pub split-two :
    (sep : ℕ) (c : Char) (a b : String)
    → code c ≡ sep
    → Lacks sep a
    → Lacks sep b
    → split sep (a ++ (c ∷ b)) ≡ List.◌∷◌ a (List.◌∷◌ b List.[])
unfolding split
split-two sep c [] b e h k = simp nil-append (ground (arith, split_lacking sep b k))
split-two sep c (d ∷ a) b e (p, h) k = simp cons-append (ground (arith, split-two sep c a b e h k))

has_prefix-append : (p s : String) → has_prefix (p ++ s) p ≡ true
unfolding has_prefix
has_prefix-append [] s = refl
has_prefix-append (c ∷ p) s = simp cons-append (ground (arith, has_prefix-append p s))

drop_prefix-append : (p s : String) → drop_prefix (p ++ s) p ≡ s
unfolding drop_prefix
drop_prefix-append [] s = nil-append s
drop_prefix-append (c ∷ p) s = simp cons-append (drop_prefix-append p s)

-- What follows a prefix is what `TrimPrefix` leaves.
pub trim_prefix-append :
    (p s : String) → (has_prefix (p ++ s) p ≡ true) × (trim_prefix (p ++ s) p ≡ s)
unfolding trim_prefix
trim_prefix-append p s = (has_prefix-append p s, rw has_prefix-append (drop_prefix-append p s))

pub ruleset text_laws = (nil-append, cons-append)

split_test : split b'.' "ab.c" ≡ List.◌∷◌ "ab" (List.◌∷◌ "c" List.[])
unfolding split
split_test = refl

bearer_test : trim_prefix "Bearer x.y" "Bearer " ≡ "x.y"
unfolding trim_prefix
bearer_test = refl

suffix_test : has_suffix "/api/v1/auth/tokens/refresh" "/auth/tokens/refresh" ≡ true
unfolding has_suffix
suffix_test = refl
