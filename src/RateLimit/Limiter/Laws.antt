-- ===== src/RateLimit/Limiter/Laws.antt =====
-- Which callers share a counter (internal/ratelimit/ratelimit.go).
use tenant_api_platform.Prelude.{true, not, [], ◌∷◌, ◌++◌, ◌≡◌, refl, arith, ◌==◌, every}
use tenant_api_platform.Prelude.Runes.{Runes}
use tenant_api_platform.RateLimit.Limiter.{Policy, key_for}

abbrev pub NoBrace : Runes → Type 0
NoBrace s = every (λ r. not (r == 0x7d)) s ≡ true

-- A text without braces ends where the first brace stands.
brace-split :
    (s t u v : Runes) → NoBrace s → NoBrace t → s ++ 0x7d ∷ u ≡ t ++ 0x7d ∷ v → (s ≡ t) × (u ≡ v)
brace-split [] [] u v h k e = (refl, cc)
brace-split [] (y ∷ t) u v h k e = absurd (ground arith)
brace-split (x ∷ s) [] u v h k e = absurd (ground arith)
brace-split (x ∷ s) (y ∷ t) u v h k e = ground (arith, brace-split s t u v)

-- Two policies, and two buckets, never share a key, where no policy's name has a closing brace.
pub key_for-injective :
    (p q : Policy) (bucket bucket' : Runes)
    → NoBrace p.name
    → NoBrace q.name
    → key_for p bucket ≡ key_for q bucket'
    → (p.name ≡ q.name) × (bucket ≡ bucket')
unfolding key_for
key_for-injective p q bucket bucket' h k e =
    ground (arith, brace-split p.name q.name (0x3a ∷ bucket) (0x3a ∷ bucket') h k)
