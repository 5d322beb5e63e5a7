-- ===== src/Client/Sequence.antt =====
-- `get_next_sequence_number` of pyspec/_connection/client_connection.py.
use chess_pyspec.Base.{
  ℕ, zero, suc, ◌+◌, ◌-◌, ◌%◌, ◌<◌, ◌≡◌, ◌≢◌, Option, none, some, arith, ◌==◌, if◌then◌else◌,
}

-- `np.iinfo(np.uint32).max`
abbrev pub uint32_max : ℕ
uint32_max = 4294967295

-- The function calls itself where the counter wraps to 0; fuel bounds the calls.
unfoldable pub next_number : ℕ → ℕ → Option ℕ
next_number zero last = none
next_number (suc f) last =
    let n = (last + 1) % uint32_max in
    let again = next_number f n in if n == 0 then again else some n

-- The numbers in their order: 1, 2, up to 4294967294, and from there 1 again.
abbrev pub successor : ℕ → ℕ
successor last = last % (uint32_max - 1) + 1

-- Two calls are enough from every counter value that the function can leave behind, and the next
-- number follows the last in the cycle.
pub next_number_total :
    (f last : ℕ) → last < uint32_max → next_number (suc (suc f)) last ≡ some (successor last)
unfolding next_number
next_number_total f last h = ground arith

-- The number that is given out k calls after `last`.
pub after : ℕ → ℕ → ℕ
after zero last = last
after (suc k) last = successor (after k last)

after_closed : (i last : ℕ) → after (suc i) last ≡ (last + i) % (uint32_max - 1) + 1
unfolding after
after_closed zero last = omega arith
after_closed (suc i) last = omega (arith, after_closed i last)

-- A number that is given out is never 0 and never 4294967295, and it comes again only after
-- 4294967294 calls.
pub after-distinct :
    (i k last : ℕ)
    → 0 < k
    → k < uint32_max - 1
    → (0 < after (suc i) last)
      × (after (suc i) last < uint32_max)
      × (after (suc i) last ≢ after (suc (i + k)) last)
after-distinct i k last p q =
    let e = after_closed i last in
    let e' = after_closed (i + k) last in (omega arith, omega arith, λ h. omega arith)
