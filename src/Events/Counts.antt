-- ===== src/Events/Counts.antt =====
-- events/events.go: the slow log and the histograms, under what is recorded.
use redis_glass.Prelude.{
  ℕ, ◌+◌, ◌-◌, ◌≤◌, ◌≡◌, inl, inr, refl, ◌∙◌, List, [], ◌∷◌, length, length-drop, Bytes, ltb, arith,
  Bool-cases, if-keeps,
}
use redis_glass.Events.SlowQueries.{SlowEntry, Slowlog, trim, maybe_record}
use redis_glass.Events.Latency.{bucket_bounds_us, Histogram, bump, record_duration}

length-trim : (m : ℕ) (es : List SlowEntry) → length (trim m es) ≤ m
unfolding trim
length-trim m es = elim (Bool-cases (ltb m (length es))) [
  | inl q ↦ rw (q) (omega (arith, length-drop (length es - m) es))
  | inr q ↦ rw (q) (ground arith)
]

-- A recording keeps that the slow log holds no more entries than its limit.
pub maybe_record-le :
    (now : ℕ) (cmd : Bytes) (args : List Bytes) (client_addr : Bytes) (us : ℕ) (s : Slowlog)
    → length s.entries ≤ s.max_len
    → length (maybe_record now cmd args client_addr us s).entries
      ≤ (maybe_record now cmd args client_addr us s).max_len
unfolding maybe_record
maybe_record-le now cmd args client_addr us s h =
    if-keeps (λ (t : Slowlog). length t.entries ≤ t.max_len) _ s _ h (length-trim s.max_len _)

unfoldable pub sum : List ℕ → ℕ
sum [] = 0
sum (c ∷ cs) = c + sum cs

-- A histogram with its seven buckets, whose counts add up to the calls.
unfoldable pub IsCounted : Histogram → Type 0
IsCounted h = (length h.buckets ≡ 7) × (sum h.buckets ≡ h.calls)

sum-bump :
    (us : ℕ) (bounds counts : List ℕ)
    → length bounds ≡ length counts
    → 1 ≤ length counts
    → (length (bump us bounds counts) ≡ length counts)
      × (sum (bump us bounds counts) ≡ sum counts + 1)
unfolding bump sum
sum-bump us [] [] e h = absurd (omega arith)
sum-bump us [] (c ∷ cs) e h = absurd (omega arith)
sum-bump us (b ∷ bounds) [] e h = absurd (omega arith)
sum-bump us (b ∷ bounds) (c ∷ []) e h = (refl, omega arith)
sum-bump us (b ∷ bounds) (c ∷ d ∷ cs) e h =
    let ih = sum-bump us bounds (d ∷ cs) (omega arith) (omega arith) in
    elim (Bool-cases (ltb us b)) [
      | inl q ↦ rw q (refl, omega arith)
      | inr q ↦ rw q (omega (arith, ih.0), omega (arith, ih.1))
    ]

-- A recording keeps that a histogram has its seven buckets and that their counts add up to the calls.
pub record_duration-IsCounted :
    (us : ℕ) (h : Histogram) → IsCounted h → IsCounted (record_duration us h)
unfolding IsCounted record_duration
record_duration-IsCounted us h (n, e) =
    let b = sum-bump us bucket_bounds_us h.buckets (omega (arith, n)) (omega (arith, n)) in
    (b.0 ∙ n, omega (arith, b.1, e))
