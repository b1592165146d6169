-- ===== src/Prelude/Runes.antt =====
-- Go strings as the runes that they decode to, and what the code uses of package strings.
--
-- Only valid UTF-8 is represented. `len` counts bytes, so a rune counts as the length of its code.
use Prim.Native.Nat.{ℕ, ◌+◌}
use Prim.Native.Char.{code}
use Prim.Native.String.{String}
use mathlib.Core.Path.{◌≡◌, refl, ap, ◌∙◌}
use mathlib.Core.Bool.{Bool, true, false, ◌&&◌, ◌||◌}
use mathlib.Core.Logic.{inl, inr}
use mathlib.Core.List.{List, [], ◌∷◌}
use native.Mathlib.Omega.{arith}
use tenant_api_platform.Prelude.Tests.{ltb, leb, ◌==◌, if◌then◌else◌, Bool-cases, ==_refl}

abbrev pub Runes : Type 0
Runes = List ℕ

-- The runes of a text literal.
abbrev pub runes : String → Runes
runes String.[] = []
runes (String.◌∷◌ c s) = code c ∷ runes s

abbrev pub rune_len : ℕ → ℕ
rune_len r = if ltb r 0x80 then 1 else if ltb r 0x800 then 2 else if ltb r 0x10000 then 3 else 4

-- len(s), in bytes.
unfoldable pub byte_len : Runes → ℕ
byte_len [] = 0
byte_len (r ∷ s) = rune_len r + byte_len s

unfoldable pub runes_eq : Runes → Runes → Bool
runes_eq [] [] = true
runes_eq (a ∷ s) (b ∷ t) = a == b && runes_eq s t
runes_eq _ _ = false

-- unicode.IsSpace.
unfoldable pub is_space : ℕ → Bool
is_space r =
    leb 9 r && leb r 13
    || r == 0x20
    || r == 0x85
    || r == 0xa0
    || r == 0x1680
    || leb 0x2000 r && leb r 0x200a
    || r == 0x2028
    || r == 0x2029
    || r == 0x202f
    || r == 0x205f
    || r == 0x3000

unfoldable pub trim_left : Runes → Runes
trim_left [] = []
trim_left (r ∷ s) = let rest = trim_left s in if is_space r then rest else r ∷ s

-- A rune in front of a trimmed rest: space in front of nothing is trailing.
unfoldable pub cons_trimmed : ℕ → Runes → Runes
cons_trimmed r [] = if is_space r then [] else r ∷ []
cons_trimmed r (x ∷ t) = r ∷ x ∷ t

unfoldable pub trim_right : Runes → Runes
unfolding cons_trimmed
trim_right [] = []
trim_right (r ∷ s) = cons_trimmed r (trim_right s)

-- strings.TrimSpace.
unfoldable pub trim_space : Runes → Runes
unfolding trim_left trim_right
trim_space s = trim_right (trim_left s)

trim_left-trim_left : (s : Runes) → trim_left (trim_left s) ≡ trim_left s
unfolding trim_left
trim_left-trim_left [] = refl
trim_left-trim_left (r ∷ s) = ground (arith, trim_left-trim_left s)

cons_trimmed-cons_trimmed :
    (r : ℕ) (s : Runes) → trim_right s ≡ s → trim_right (cons_trimmed r s) ≡ cons_trimmed r s
unfolding trim_right
cons_trimmed-cons_trimmed r [] h = ground arith
cons_trimmed-cons_trimmed r (x ∷ t) h = ground arith

trim_right-cons : (r : ℕ) (s : Runes) → trim_right (r ∷ s) ≡ cons_trimmed r (trim_right s)
unfolding trim_right
trim_right-cons r s = refl

trim_right-nil : trim_right [] ≡ []
unfolding trim_right
trim_right-nil = refl

trim_right-trim_right : (s : Runes) → trim_right (trim_right s) ≡ trim_right s
trim_right-trim_right [] = rw (trim_right-nil, trim_right-nil)
trim_right-trim_right (r ∷ s) =
    rw trim_right-cons (cons_trimmed-cons_trimmed r (trim_right s) (trim_right-trim_right s))

-- What `trim_left` returns begins with no space.
abbrev Starts : Runes → Type 0
Starts [] = Unit
Starts (r ∷ s) = is_space r ≡ false

trim_left-Starts : (s : Runes) → Starts (trim_left s)
unfolding trim_left
trim_left-Starts [] = tt
trim_left-Starts (r ∷ s) = elim (Bool-cases (is_space r)) [
  | inl e ↦ rw e (trim_left-Starts s)
  | inr e ↦ rw e e
]

cons_trimmed-eq_cons : (r : ℕ) (s : Runes) → is_space r ≡ false → cons_trimmed r s ≡ r ∷ s
unfolding cons_trimmed
cons_trimmed-eq_cons r [] h = rw h
cons_trimmed-eq_cons r (x ∷ t) h = refl

trim_right-Starts : (s : Runes) → Starts s → trim_left (trim_right s) ≡ trim_right s
unfolding trim_left trim_right
trim_right-Starts [] h = refl
trim_right-Starts (r ∷ s) h = rw (cons_trimmed-eq_cons r (trim_right s) h) (rw h refl)

-- Trimming a trimmed text changes nothing.
pub trim_space-trim_space : (s : Runes) → trim_space (trim_space s) ≡ trim_space s
unfolding trim_space
trim_space-trim_space s =
    ap trim_right (trim_right-Starts (trim_left s) (trim_left-Starts s))
    ∙ trim_right-trim_right (trim_left s)

pub runes_eq_refl : (s : Runes) → runes_eq s s ≡ true
unfolding runes_eq
runes_eq_refl [] = refl
runes_eq_refl (r ∷ s) = ground (arith, ==_refl r, runes_eq_refl s)

pub runes_eq→≡ : (s t : Runes) → runes_eq s t ≡ true → s ≡ t
unfolding runes_eq
runes_eq→≡ [] [] h = refl
runes_eq→≡ [] (b ∷ t) h = cc
runes_eq→≡ (a ∷ s) [] h = cc
runes_eq→≡ (a ∷ s) (b ∷ t) h = ground (arith, runes_eq→≡ s t)
