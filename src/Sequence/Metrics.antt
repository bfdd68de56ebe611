-- ===== src/Sequence/Metrics.antt =====
-- The sequence metrics over a whole channel.
use Prim.Native.Nat.{max}
use mathlib.Core.Path.{subst}
use nyse_pillar_market_data.Prelude.{
  ℕ, suc, ◌+◌, ◌<◌, ◌≤◌, ◌≡◌, List, [], ◌∷◌, All, arith, ltb, ◌==◌, length, if◌then◌else◌,
}
use nyse_pillar_market_data.Prelude.Word.{u64_mod}
use nyse_pillar_market_data.Sequence.{IntegrityMetrics, no_metrics, classify, raise_mark}

-- The metrics after the sequence numbers of a channel.
unfoldable pub run_metrics : List ℕ → IntegrityMetrics → IntegrityMetrics
run_metrics [] m = m
run_metrics (s ∷ ss) m = run_metrics ss (raise_mark s (classify s m))

-- The highest number of a channel, from a mark.
abbrev pub highest : ℕ → List ℕ → ℕ
highest h [] = h
highest h (s ∷ ss) = highest (max h s) ss

-- How many numbers are above the mark and all numbers before them.
abbrev pub advances : ℕ → List ℕ → ℕ
advances h [] = 0
advances h (s ∷ ss) = (if ltb h s then 1 else 0) + advances (max h s) ss

-- How many of these leave numbers out.
abbrev pub jumps : ℕ → List ℕ → ℕ
jumps h [] = 0
jumps h (s ∷ ss) = (if ltb (h + 1) s then 1 else 0) + jumps (max h s) ss

-- How many repeat the mark, and how many are below it.
abbrev pub repeats : ℕ → List ℕ → ℕ
repeats h [] = 0
repeats h (s ∷ ss) = (if s == h then 1 else 0) + repeats (max h s) ss

abbrev pub drops : ℕ → List ℕ → ℕ
drops h [] = 0
drops h (s ∷ ss) = (if ltb s h then 1 else 0) + drops (max h s) ss

-- The counters of a channel.
pub record IsCount (h : ℕ) (ss : List ℕ) (m m' : IntegrityMetrics) : Type 0 where
  pub mark : m'.last_sequence_number ≡ highest h ss
  pub gaps : m'.gap_events ≡ m.gap_events + jumps h ss
  pub same : m'.duplicates ≡ m.duplicates + repeats h ss
  pub back : m'.backwards_jumps ≡ m.backwards_jumps + drops h ss
  pub lost : m'.messages_lost + advances h ss + h ≡ m.messages_lost + highest h ss

-- The metrics after one number.
abbrev next : ℕ → IntegrityMetrics → IntegrityMetrics
next s m = raise_mark s (classify s m)

-- Room for the counters to grow by a number of lines.
pub record HasRoom (n : ℕ) (m : IntegrityMetrics) : Type 0 where
  pub mark_word : m.last_sequence_number < u64_mod
  pub lost_le : m.messages_lost ≤ m.last_sequence_number
  pub gap_room : m.gap_events + n < u64_mod
  pub same_room : m.duplicates + n < u64_mod
  pub back_room : m.backwards_jumps + n < u64_mod

next-mark :
    (s : ℕ) (m : IntegrityMetrics) → (next s m).last_sequence_number ≡ max m.last_sequence_number s
unfolding raise_mark classify
next-mark s m = ground arith

next-gaps :
    (s n : ℕ) (m : IntegrityMetrics)
    → s < u64_mod
    → HasRoom (suc n) m
    → (next s m).gap_events ≡ m.gap_events + (if ltb (m.last_sequence_number + 1) s then 1 else 0)
unfolding raise_mark classify
next-gaps s n m hs r = ground arith

next-same :
    (s n : ℕ) (m : IntegrityMetrics)
    → HasRoom (suc n) m
    → (next s m).duplicates ≡ m.duplicates + (if s == m.last_sequence_number then 1 else 0)
unfolding raise_mark classify
next-same s n m r = ground arith

next-back :
    (s n : ℕ) (m : IntegrityMetrics)
    → HasRoom (suc n) m
    → (next s m).backwards_jumps
      ≡ m.backwards_jumps + (if ltb s m.last_sequence_number then 1 else 0)
unfolding raise_mark classify
next-back s n m r = ground arith

next-lost :
    (s n : ℕ) (m : IntegrityMetrics)
    → s < u64_mod
    → HasRoom (suc n) m
    → (next s m).messages_lost
        + (if ltb m.last_sequence_number s then 1 else 0)
        + m.last_sequence_number
      ≡ m.messages_lost + max m.last_sequence_number s
unfolding raise_mark classify
next-lost s n m hs r = ground arith

next-HasRoom :
    (s n : ℕ) (m : IntegrityMetrics) → s < u64_mod → HasRoom (suc n) m → HasRoom n (next s m)
next-HasRoom s n m hs r = ground (
  arith,
  next-mark s m,
  next-gaps s n m hs r,
  next-same s n m r,
  next-back s n m r,
  next-lost s n m hs r,
)

run_metrics-from :
    (ss : List ℕ) (m : IntegrityMetrics)
    → All (λ s. s < u64_mod) ss
    → HasRoom (length ss) m
    → IsCount m.last_sequence_number ss m (run_metrics ss m)
unfolding run_metrics
run_metrics-from [] m h r = ground arith
run_metrics-from (s ∷ ss) m h r =
    let rest = run_metrics-from ss (next s m) h.1 (next-HasRoom s (length ss) m h.0 r) in
    let rest' : IsCount (max m.last_sequence_number s) ss (next s m) (run_metrics ss (next s m)) =
      subst (λ h. IsCount h ss (next s m) (run_metrics ss (next s m))) (next-mark s m) rest in
    record {
      mark = rest'.mark;
      gaps = omega (arith, rest'.gaps, next-gaps s (length ss) m h.0 r);
      same = omega (arith, rest'.same, next-same s (length ss) m r);
      back = omega (arith, rest'.back, next-back s (length ss) m r);
      lost = omega (arith, rest'.lost, next-lost s (length ss) m h.0 r);
    }

pub run_metrics-IsCount :
    (ss : List ℕ)
    → All (λ s. s < u64_mod) ss
    → length ss < u64_mod
    → let m = run_metrics ss no_metrics in
      (m.last_sequence_number ≡ highest 0 ss)
      × (m.gap_events ≡ jumps 0 ss)
      × (m.duplicates ≡ repeats 0 ss)
      × (m.backwards_jumps ≡ drops 0 ss)
      × (m.messages_lost + advances 0 ss ≡ highest 0 ss)
run_metrics-IsCount ss h n =
    let r = run_metrics-from ss no_metrics h (record {
      mark_word = omega arith;
      lost_le = omega arith;
      gap_room = omega arith;
      same_room = omega arith;
      back_room = omega arith;
    }) in
    (
      r.mark,
      omega (arith, r.gaps),
      omega (arith, r.same),
      omega (arith, r.back),
      omega (arith, r.lost),
    )
