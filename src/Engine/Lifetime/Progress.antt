-- ===== src/Engine/Lifetime/Progress.antt =====
-- The threads of `Engine.Lifetime` never deadlock, and `~Engine` returns.
use nyse_pillar_market_data.Prelude.{
  ℕ, suc, ◌+◌, ◌*◌, ◌<◌, ◌≤◌, ◌≡◌, refl, ap, ◌⊎◌, inl, inr, true, false, List, arith, length,
  Bool-cases, if◌then◌else◌,
}
use nyse_pillar_market_data.Queue.{close}
use nyse_pillar_market_data.Engine.{LineParser}
use nyse_pillar_market_data.Engine.Exchange.{
  List-cases, emit-length, wait_pop-none, wait_pop-some, wait_pop-closed,
}
use nyse_pillar_market_data.Engine.Lifetime.{
  IngestPhase, opening, reading, parsing, counting, ended, failed, Owner, owning, ingest_join,
  egress_join, joined, closing, stopping, awaits_ingest, awaits_egress, destroyed, Construction,
  LifetimeState, new_engine, is_done, fail_to_open, parse_line, count_result, leave_loop, deliver,
  owner_close, Step, opens, fails, takes_line, parses, counts, leaves_loop, delivers, ends_egress,
  calls_join, joins_ingest, joins_egress, destroys, closes, stops_egress, destroys_ingest,
  destroys_egress, Reach, here, then_step,
}
use nyse_pillar_market_data.Engine.Lifetime.Orderly.{
  IsOrderly, new_engine-IsOrderly, Reach-IsOrderly,
}

-- The steps that the owner and the phase leave to be made, at most.
abbrev stage : Owner → ℕ
stage owning = 8
stage ingest_join = 7
stage egress_join = 6
stage joined = 5
stage closing = 4
stage stopping = 3
stage awaits_ingest = 2
stage awaits_egress = 1
stage destroyed = 0

abbrev phase_work : {L : Type 0} → IngestPhase L → ℕ
phase_work opening = 2
phase_work reading = 1
phase_work (parsing line) = 4
phase_work (counting error) = 2
phase_work ended = 0
phase_work failed = 0

module _ {A L P : Type 0} where
  -- The steps that are left, at most.
  unfoldable pub work : LifetimeState A L P → ℕ
  work s =
      4 * length s.input
      + length s.queue.queue
      + phase_work s.phase
      + (if s.egressing then 1 else 0)
      + stage s.owner

  module _ (lp : LineParser A L P) where
    -- Each step lowers the work that is left.
    Step-work : {s t : LifetimeState A L P} → Step lp s t → work t < work s
    unfolding work fail_to_open parse_line count_result leave_loop deliver owner_close close
    Step-work {s} (opens e h) = rw (h, e) (omega arith)
    Step-work {s} (fails e h) = rw (h, e) (omega arith)
    Step-work {s} (takes_line line rest e f i h) = rw (h, e, i) (omega arith)
    Step-work {s} (parses line e h) =
        let pushed = emit-length (lp.parse_next s.parser line).1 s.queue in
        rw (h, e) (omega (arith, pushed))
    Step-work {s} (counts error e h) = rw (h, e) (omega arith)
    Step-work {s} (leaves_loop e o h) = rw (h, e) (omega arith)
    Step-work {s} (delivers message q e w h) =
        let front = ap length (wait_pop-some s.egress_stop s.queue q message w).0 in
        rw h (omega (arith, front))
    Step-work {s} (ends_egress q e w h) =
        rw (h, e, (wait_pop-none s.egress_stop s.queue q w).2) (omega arith)
    Step-work {s} (calls_join e h) = rw (h, e) (omega arith)
    Step-work {s} (joins_ingest e d h) = rw (h, e) (omega arith)
    Step-work {s} (joins_egress e d h) = rw (h, e) (omega arith)
    Step-work {s} (destroys e h) = elim e [
      | inl e ↦ rw (h, e) (omega arith)
      | inr e ↦ rw (h, e) (omega arith)
    ]
    Step-work {s} (closes e h) = rw (h, e) (omega arith)
    Step-work {s} (stops_egress e h) = rw (h, e) (omega arith)
    Step-work {s} (destroys_ingest e d h) = rw (h, e) (omega arith)
    Step-work {s} (destroys_egress e d h) = rw (h, e) (omega arith)

  module _ (lp : LineParser A L P) (s : LifetimeState A L P) where
    abbrev Next : Type 0
    Next = (t : LifetimeState A L P) × Step lp s t

    next_read : s.phase ≡ reading → Next
    next_read e = elim (Bool-cases s.ingest_stop) [
      | inl on ↦ (leave_loop s, leaves_loop e (inl on) refl)
      | inr off ↦ elim (List-cases s.input) [
        | inl i ↦ (leave_loop s, leaves_loop e (inr i) refl)
        | inr (line, rest, i) ↦
            (record s { phase = parsing line; input = rest }, takes_line line rest e off i refl)
      ]
    ]

    -- The ingest thread never waits.
    next_ingest : (ph : IngestPhase L) → s.phase ≡ ph → Next ⊎ (is_done s.phase ≡ true)
    next_ingest opening e = inl (record s { phase = reading }, opens e refl)
    next_ingest reading e = inl (next_read e)
    next_ingest (parsing line) e = inl (parse_line lp line s, parses line e refl)
    next_ingest (counting error) e = inl (count_result error s, counts error e refl)
    next_ingest ended e = inr (rw e refl)
    next_ingest failed e = inr (rw e refl)

    next_egress : s.queue.closed ≡ true → Next ⊎ (s.egressing ≡ false)
    next_egress closed = elim (Bool-cases s.egressing) [
      | inl on ↦ elim (wait_pop-closed s.egress_stop s.queue closed) [
        | inl e ↦
            inl (record s { queue = s.queue; egressing = false }, ends_egress s.queue on e refl)
        | inr (message, q, e) ↦ inl (deliver message q s, delivers message q on e refl)
      ]
      | inr off ↦ inr off
    ]

    -- The owner steps, once the threads that it waits for have ended.
    next_owner :
        (o : Owner)
        → s.owner ≡ o
        → is_done s.phase ≡ true
        → s.egressing ≡ false
        → Next ⊎ (s.owner ≡ destroyed)
    next_owner owning e i g = inl (record s { owner = ingest_join }, calls_join e refl)
    next_owner ingest_join e i g = inl (owner_close egress_join s, joins_ingest e i refl)
    next_owner egress_join e i g = inl (record s { owner = joined }, joins_egress e g refl)
    next_owner joined e i g =
        inl (record s { ingest_stop = true; owner = closing }, destroys (inr e) refl)
    next_owner closing e i g = inl (owner_close stopping s, closes e refl)
    next_owner stopping e i g =
        inl (record s { egress_stop = true; owner = awaits_ingest }, stops_egress e refl)
    next_owner awaits_ingest e i g =
        inl (record s { owner = awaits_egress }, destroys_ingest e i refl)
    next_owner awaits_egress e i g = inl (record s { owner = destroyed }, destroys_egress e g refl)
    next_owner destroyed e i g = inr e

    next : IsOrderly s → Next ⊎ (s.owner ≡ destroyed)
    next v = elim (next_ingest s.phase refl) [
      | inl step ↦ inl step
      | inr done ↦ elim (next_egress (v.done_closed done)) [
        | inl step ↦ inl step
        | inr off ↦ next_owner s.owner refl done off
      ]
    ]

  module _ (lp : LineParser A L P) (c : Construction) (input : List L) (p : P) where
    unfoldable pub steps : {s : LifetimeState A L P} → Reach lp (new_engine c input p) s → ℕ
    steps here = 0
    steps (then_step reach step) = suc (steps reach)

    new_engine-work : work (new_engine {A = A} c input p) ≤ 4 * length input + 11
    unfolding work
    new_engine-work = ground arith

    steps-work :
        {s : LifetimeState A L P} (reach : Reach lp (new_engine c input p) s)
        → steps reach + work s ≤ 4 * length input + 11
    unfolding steps
    steps-work here = omega (arith, new_engine-work)
    steps-work (then_step reach step) =
        let before = steps-work reach in
        let falls = Step-work lp step in omega (arith, before, falls)

    -- The engine is always destroyed in the end: whatever the interleaving, and whether the file opens, and
    -- `Join` is called, or not, the threads make at most eleven steps more than four times the lines of the
    -- input, and in every state that they reach, one of them can step or the destructor has returned.
    pub Reach-destroys :
        {s : LifetimeState A L P} (reach : Reach lp (new_engine c input p) s)
        → (steps reach ≤ 4 * length input + 11)
          × (((t : LifetimeState A L P) × Step lp s t) ⊎ (s.owner ≡ destroyed))
    Reach-destroys {s} reach = (
      omega (arith, steps-work reach),
      next lp s (Reach-IsOrderly lp reach (new_engine-IsOrderly c input p)),
    )
