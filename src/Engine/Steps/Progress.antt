-- ===== src/Engine/Steps/Progress.antt =====
-- The threads never deadlock, and `Join` returns: a state from which no thread can step has joined, and
-- every step lowers a measure.
use nyse_pillar_market_data.Prelude.{
  ℕ, suc, ◌+◌, ◌*◌, ◌<◌, ◌≤◌, ◌≡◌, refl, ap, ◌⊎◌, inl, inr, true, false, List, arith, length,
  Bool-cases, if◌then◌else◌,
}
use nyse_pillar_market_data.Queue.{close}
use nyse_pillar_market_data.Engine.{
  LineParser, EngineState, Joining, not_called, ingest_join, egress_join, joined, started,
  ingest_line, ingest_end, egress_message, egress_end, join_close,
}
use nyse_pillar_market_data.Engine.Steps.{
  Step, ingests, ends_ingest, delivers, ends_egress, calls_join, joins_ingest, joins_egress, Reach,
  here, then_step,
}
use nyse_pillar_market_data.Engine.Exchange.{
  List-cases, emit-length, wait_pop-none, wait_pop-some, wait_pop-closed,
}
use nyse_pillar_market_data.Engine.Steps.Delivery.{Reach-IsRunning}

abbrev stage : Joining → ℕ
stage not_called = 3
stage ingest_join = 2
stage egress_join = 1
stage joined = 0

module _ {A L P : Type 0} where
  -- The steps that are left, at most.
  unfoldable pub work : EngineState A L P → ℕ
  work s =
      2 * length s.input
      + length s.queue.queue
      + (if s.ingesting then 1 else 0)
      + (if s.egressing then 1 else 0)
      + stage s.joining

  module _ (lp : LineParser A L P) where
    -- Each step of a thread lowers the work that is left.
    pub Step-work : {s t : EngineState A L P} → Step lp s t → work t < work s
    unfolding work ingest_line ingest_end egress_message egress_end join_close close
    Step-work {s} (ingests line rest on e h) =
        let front = ap length e in
        let pushed = emit-length (lp.parse_next s.parser line).1 s.queue in
        rw h (omega (arith, front, pushed))
    Step-work {s} (ends_ingest on e h) = rw (h, on) (omega arith)
    Step-work {s} (delivers message q on e h) =
        let front = ap length (wait_pop-some false s.queue q message e).0 in
        rw h (omega (arith, front))
    Step-work {s} (ends_egress q on e h) =
        rw (h, on, (wait_pop-none false s.queue q e).2) (omega arith)
    Step-work {s} (calls_join j h) = rw (h, j) (omega arith)
    Step-work {s} (joins_ingest j off h) = rw (h, j) (omega arith)
    Step-work {s} (joins_egress j off h) = rw (h, j) (omega arith)

  module _ (lp : LineParser A L P) (s : EngineState A L P) where
    next_ingest : s.ingesting ≡ true → (t : EngineState A L P) × Step lp s t
    next_ingest on = elim (List-cases s.input) [
      | inl e ↦ (ingest_end s, ends_ingest on e refl)
      | inr (line, rest, e) ↦ (ingest_line lp line rest s, ingests line rest on e refl)
    ]

    next_egress : s.egressing ≡ true → s.queue.closed ≡ true → (t : EngineState A L P) × Step lp s t
    next_egress on closed = elim (wait_pop-closed false s.queue closed) [
      | inl e ↦ (egress_end s.queue s, ends_egress s.queue on e refl)
      | inr (message, q, e) ↦ (egress_message message q s, delivers message q on e refl)
    ]

    -- `Join` steps, once the threads that it waits for have ended.
    next_join :
        (j : Joining)
        → s.joining ≡ j
        → s.ingesting ≡ false
        → s.egressing ≡ false
        → ((t : EngineState A L P) × Step lp s t) ⊎ (s.joining ≡ joined)
    next_join not_called e i o = inl (record s { joining = ingest_join }, calls_join e refl)
    next_join ingest_join e i o = inl (join_close s, joins_ingest e i refl)
    next_join egress_join e i o = inl (record s { joining = joined }, joins_egress e o refl)
    next_join joined e i o = inr e

  module _ (lp : LineParser A L P) (p : P) (input : List L) where
    -- No deadlock: in every state that the threads reach, one of them can step or `Join` has returned.
    pub Reach-next :
        {s : EngineState A L P}
        → Reach lp (started input p) s
        → ((t : EngineState A L P) × Step lp s t) ⊎ (s.joining ≡ joined)
    Reach-next {s} reach =
        let r = Reach-IsRunning lp p input reach in
        elim (Bool-cases s.ingesting) [
          | inl on ↦ inl (next_ingest lp s on)
          | inr off ↦ elim (Bool-cases s.egressing) [
            | inl on ↦ inl (next_egress lp s on (r.ended_closed off))
            | inr ended ↦ next_join lp s s.joining refl off ended
          ]
        ]

    unfoldable pub steps : {s : EngineState A L P} → Reach lp (started input p) s → ℕ
    steps here = 0
    steps (then_step reach step) = suc (steps reach)

    steps-work :
        {s : EngineState A L P} (reach : Reach lp (started input p) s)
        → steps reach + work s ≤ 2 * length input + 5
    unfolding steps work
    steps-work here = omega arith
    steps-work (then_step reach step) =
        let before = steps-work reach in
        let falls = Step-work lp step in omega (arith, before, falls)

    -- `Join` returns: whatever the interleaving, the threads make at most five steps more than twice the
    -- lines of the input, and in every state that they reach, one of them can step or `Join` has
    -- returned.
    pub Reach-joins :
        {s : EngineState A L P} (reach : Reach lp (started input p) s)
        → (steps reach ≤ 2 * length input + 5)
          × (((t : EngineState A L P) × Step lp s t) ⊎ (s.joining ≡ joined))
    Reach-joins reach = (omega (arith, steps-work reach), Reach-next reach)
