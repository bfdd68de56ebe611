-- ===== src/Engine/Lifetime/Tests.antt =====
-- Two lives of an engine on a file of two lines: one that joins, and one that is destroyed at once.
use nyse_pillar_market_data.Prelude.{
  ℕ, ◌+◌, ◌*◌, ◌%◌, ◌≡◌, ◌≤◌, ◌⊎◌, inl, inr, refl, true, false, List, [], ◌∷◌, ◌++◌, length,
}
use nyse_pillar_market_data.Prelude.Word.{u64_mod}
use nyse_pillar_market_data.Queue.{MessageQueue, wait_pop, push, close}
use nyse_pillar_market_data.Sequence.{no_error, unknown_msg_type}
use nyse_pillar_market_data.Engine.{emit, record_parse_result}
use nyse_pillar_market_data.Engine.Tests.{parser, lines}
use nyse_pillar_market_data.Engine.Steps.Running.{messages}
use nyse_pillar_market_data.Engine.Lifetime.{
  parsing, ended, failed, ingest_join, joined, closing, awaits_ingest, destroyed, on_path,
  LifetimeState, new_engine, reading, is_done, parse_line, count_result, leave_loop, deliver,
  owner_close, egress_join, stopping, Step, opens, takes_line, parses, counts, leaves_loop,
  delivers, ends_egress, calls_join, joins_ingest, joins_egress, destroys, closes, stops_egress,
  destroys_ingest, destroys_egress, Reach, here, then_step, get_success, get_total,
  get_egress_count,
}
use nyse_pillar_market_data.Engine.Lifetime.Outcome.{joined-outcome, destroyed-leaves}
use nyse_pillar_market_data.Engine.Lifetime.Progress.{steps, Reach-destroys}

abbrev State : Type 0
State = LifetimeState ℕ ℕ ℕ

abbrev started : State
started = new_engine on_path lines 0

abbrev take_line : ℕ → List ℕ → State → State
take_line line rest s = record s { phase = parsing line; input = rest }

abbrev s1 : State
s1 = parse_line parser 7 (take_line 7 (0 ∷ []) (record started { phase = reading }))

-- The first line is parsed.
trace1 : Reach parser started s1
unfolding parse_line
trace1 =
    then_step
      (then_step (then_step here (opens refl refl)) (takes_line 7 (0 ∷ []) refl refl refl refl))
      (parses 7 refl refl)

abbrev popped : MessageQueue ℕ
popped = record { queue = []; closed = false }

abbrev s2 : State
s2 = leave_loop (
    count_result unknown_msg_type
      (parse_line parser 0 (take_line 0 [] (deliver 7 popped (count_result no_error s1)))))

-- The message is delivered, the second line fails to parse, and the loop ends.
trace2 : Reach parser started s2
unfolding parse_line count_result leave_loop deliver emit push wait_pop
trace2 =
    then_step
      (then_step
        (then_step
          (then_step
            (then_step (then_step trace1 (counts no_error refl refl))
              (delivers 7 popped refl refl refl))
            (takes_line 0 [] refl refl refl refl))
          (parses 0 refl refl))
        (counts unknown_msg_type refl refl))
      (leaves_loop refl (inr refl) refl)

abbrev s3 : State
s3 = owner_close egress_join (record s2 { owner = ingest_join })

abbrev s4 : State
s4 = record s3 { egressing = false; owner = joined }

trace4 : Reach parser started s4
unfolding parse_line count_result leave_loop deliver emit push wait_pop owner_close close
trace4 =
    then_step
      (then_step (then_step (then_step trace2 (calls_join refl refl)) (joins_ingest refl refl refl))
        (ends_egress s3.queue refl refl refl))
      (joins_egress refl refl refl)

joined-outcome_example :
    ((s4.phase ≡ ended)
      × (s4.delivered ≡ messages parser 0 lines)
      × (get_egress_count s4 ≡ length (messages parser 0 lines) % u64_mod)
      × (get_success s4 ≡ length (messages parser 0 lines) % u64_mod)
      × (get_total s4 ≡ length lines % u64_mod))
    ⊎ ((s4.phase ≡ failed)
        × (s4.delivered ≡ [])
        × (get_egress_count s4 ≡ 0)
        × (get_success s4 ≡ 0)
        × (get_total s4 ≡ 0))
joined-outcome_example = joined-outcome parser on_path lines 0 trace4 refl

-- With the first line in the parser's hands the engine is destroyed: the egress thread ends first, and
-- the message stays in the queue.
abbrev d1 : State
d1 = take_line 7 (0 ∷ []) (record started { phase = reading })

abbrev d2 : State
d2 = owner_close stopping (record d1 { ingest_stop = true; owner = closing })

abbrev d3 : State
d3 = record d2 { egress_stop = true; owner = awaits_ingest; egressing = false }

abbrev d4 : State
d4 = leave_loop (count_result no_error (parse_line parser 7 d3))

abbrev d5 : State
d5 = record d4 { owner = destroyed }

trace5 : Reach parser started d5
unfolding parse_line count_result leave_loop emit push wait_pop owner_close close
trace5 =
    then_step
      (then_step
        (then_step
          (then_step
            (then_step
              (then_step
                (then_step
                  (then_step
                    (then_step
                      (then_step (then_step here (opens refl refl))
                        (takes_line 7 (0 ∷ []) refl refl refl refl))
                      (destroys (inl refl) refl))
                    (closes refl refl))
                  (stops_egress refl refl))
                (ends_egress d2.queue refl refl refl))
              (parses 7 refl refl))
            (counts no_error refl refl))
          (leaves_loop refl (inl refl) refl))
        (destroys_ingest refl refl refl))
      (destroys_egress refl refl refl)

-- The message was counted and never delivered.
lost : (d5.queue.queue ≡ 7 ∷ []) × (d5.delivered ≡ []) × (get_success d5 ≡ 1)
unfolding parse_line count_result leave_loop emit push owner_close close record_parse_result
lost = (refl, refl, refl)

destroyed-leaves_example :
    (is_done d5.phase ≡ true)
    × (d5.egressing ≡ false)
    × (length d5.queue.queue ≤ 1)
    × (d5.delivered ++ (d5.queue.queue ++ messages parser d5.parser d5.input)
        ≡ messages parser 0 lines)
    × (get_egress_count d5 ≡ length d5.delivered % u64_mod)
    × (get_success d5 ≡ (length d5.delivered + length d5.queue.queue) % u64_mod)
destroyed-leaves_example = destroyed-leaves parser on_path lines 0 trace5 refl

Reach-destroys_example :
    (steps parser on_path lines 0 trace5 ≤ 4 * length lines + 11)
    × (((t : State) × Step parser d5 t) ⊎ (d5.owner ≡ destroyed))
Reach-destroys_example = Reach-destroys parser on_path lines 0 trace5
