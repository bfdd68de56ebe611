-- ===== src/Engine/Tests.antt =====
-- A run of the pipeline: the parser emits the lines that are not 0.
use nyse_pillar_market_data.Prelude.{
  ℕ, suc, ◌≡◌, ◌≤◌, ◌+◌, ◌*◌, ◌⊎◌, refl, false, List, [], ◌∷◌, ◌++◌, Option, none, some, arith,
  ◌==◌, length, if◌then◌else◌,
}
use nyse_pillar_market_data.Queue.{MessageQueue, wait_pop, push, close}
use nyse_pillar_market_data.Sequence.{ParseError, no_error, unknown_msg_type}
use nyse_pillar_market_data.Engine.{
  LineParser, EngineState, ingest_join, joined, started, ingest_line, ingest_end, egress_message,
  egress_end, join_close, emit, record_parse_result, is_some, is_no_error,
}
use nyse_pillar_market_data.Engine.Steps.{
  Step, ingests, ends_ingest, delivers, ends_egress, calls_join, joins_ingest, joins_egress, Reach,
  here, then_step,
}
use nyse_pillar_market_data.Engine.Steps.Running.{messages}
use nyse_pillar_market_data.Engine.Steps.Delivery.{Reach-delivered}
use nyse_pillar_market_data.Engine.Steps.Progress.{Reach-joins, steps}

abbrev pub parse : ℕ → ℕ → ℕ × Option ℕ × ParseError
parse n line = if line == 0 then (suc n, none, unknown_msg_type) else (suc n, some line, no_error)

pub parse-emits : (p l : ℕ) → is_some (parse p l).1 ≡ is_no_error (parse p l).2
parse-emits p l = ground arith

abbrev pub parser : LineParser ℕ ℕ ℕ
parser = record { parse_next = parse; emits_iff = parse-emits }

abbrev pub lines : List ℕ
lines = 7 ∷ 0 ∷ []

abbrev s1 : EngineState ℕ ℕ ℕ
s1 = ingest_line parser 7 (0 ∷ []) (started lines 0)

abbrev rest : MessageQueue ℕ
rest = record { queue = []; closed = false }

abbrev s2 : EngineState ℕ ℕ ℕ
s2 = egress_message 7 rest s1

abbrev s3 : EngineState ℕ ℕ ℕ
s3 = ingest_end (ingest_line parser 0 [] s2)

abbrev s4 : EngineState ℕ ℕ ℕ
s4 = join_close (record s3 { joining = ingest_join })

abbrev s5 : EngineState ℕ ℕ ℕ
s5 = record (egress_end s4.queue s4) { joining = joined }

-- The first line is ingested and delivered, then the second fails to parse, and the threads end.
trace : Reach parser (started lines 0) s5
unfolding ingest_line ingest_end egress_message egress_end join_close emit record_parse_result
    wait_pop push close
trace =
    then_step
      (then_step
        (then_step
          (then_step
            (then_step
              (then_step
                (then_step (then_step here (ingests 7 (0 ∷ []) refl refl refl))
                  (delivers 7 rest refl refl refl))
                (ingests 0 [] refl refl refl))
              (ends_ingest refl refl refl))
            (calls_join refl refl))
          (joins_ingest refl refl refl))
        (ends_egress s4.queue refl refl refl))
      (joins_egress refl refl refl)

Reach-joins_example :
    (steps parser 0 lines trace ≤ 2 * length lines + 5)
    × (((t : EngineState ℕ ℕ ℕ) × Step parser s5 t) ⊎ (s5.joining ≡ joined))
Reach-joins_example = Reach-joins parser 0 lines trace

Reach-delivered_example :
    s5.delivered ++ (s5.queue.queue ++ messages parser s5.parser s5.input) ≡ messages parser 0 lines
Reach-delivered_example = Reach-delivered parser 0 lines trace
