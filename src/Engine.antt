-- ===== src/Engine.antt =====
-- include/engine.hpp and src/engine.cpp: the pipeline of `Engine`, as the steps of its three threads.
-- The parser is an interface here, `schema::Parser`; `schema::nyse::Parser` emits at most one message
-- for a line. A step here is what a thread does between two waits on the queue or on another thread: the
-- queue is the only state that two threads change. The destructor is left out here and in Steps, so no stop
-- is requested of a thread; Lifetime has it, and cuts the ingest loop finer.
pub mod Exchange
pub mod Steps
pub mod Lifetime
mod Tests
use nyse_pillar_market_data.Prelude.{
  ℕ, ◌≡◌, ◌↔◌, Bool, true, false, List, [], ◌∷◌, ◌++◌, Option, none, some, if◌then◌else◌,
}
use nyse_pillar_market_data.Prelude.Word.{add64}
use nyse_pillar_market_data.Queue.{MessageQueue, new_queue, push, close}
use nyse_pillar_market_data.Sequence.{
  ParseError, no_error, unknown_msg_type, message_decode, unknown,
}

pub data IngestData : Type 0 where
  no_ingest nyse_pillar invalid : IngestData

-- `ValidateIngestType`: false is the exception.
unfoldable pub validate_ingest_type : IngestData → Bool
validate_ingest_type no_ingest = false
validate_ingest_type nyse_pillar = true
validate_ingest_type invalid = false

abbrev pub is_some : {A : Type 0} → Option A → Bool
is_some none = false
is_some (some a) = true

abbrev pub is_no_error : ParseError → Bool
is_no_error no_error = true
is_no_error _ = false

-- What `ParseNext` does to the parser's own state, the message that it emits, and its answer. It
-- answers `none` exactly where it emits.
pub record LineParser (A L P : Type 0) : Type 0 where
  pub parse_next : P → L → P × Option A × ParseError
  pub emits_iff : (p : P) (l : L) → is_some (parse_next p l).1 ≡ is_no_error (parse_next p l).2

pub record ParseMetrics : Type 0 where
  pub success : ℕ
  pub total : ℕ

unfoldable pub record_parse_result : ParseError → ParseMetrics → ParseMetrics
record_parse_result error m = record {
  success = if is_no_error error then add64 m.success 1 else m.success;
  total = add64 m.total 1;
}

-- Where `Join` stands: not called, waiting for Ingest, past `_queue.Close()`, returned.
pub data Joining : Type 0 where
  not_called ingest_join egress_join joined : Joining

pub record EngineState (A L P : Type 0) : Type 0 where
  pub input : List L
  pub ingesting : Bool
  pub parser : P
  pub parse_metrics : ParseMetrics
  pub queue : MessageQueue A
  pub egressing : Bool
  pub delivered : List A
  pub egress_count : ℕ
  pub joining : Joining

-- `Emit`, if there is a message.
unfoldable pub emit : {A : Type 0} → Option A → MessageQueue A → MessageQueue A
emit none q = q
emit (some message) q = push message q

module _ {A L P : Type 0} where
  -- The state that the constructor leaves, with both threads started.
  abbrev pub started : List L → P → EngineState A L P
  started input p = record {
    input = input;
    ingesting = true;
    parser = p;
    parse_metrics = record { success = 0; total = 0 };
    queue = new_queue;
    egressing = true;
    delivered = [];
    egress_count = 0;
    joining = not_called;
  }

  -- One round of the ingest loop.
  unfoldable pub ingest_line : LineParser A L P → L → List L → EngineState A L P → EngineState A L P
  unfolding emit record_parse_result push
  ingest_line lp line rest s =
      let (parser, message, error) = lp.parse_next s.parser line in
      record s {
        input = rest;
        parser = parser;
        queue = emit message s.queue;
        parse_metrics = record_parse_result error s.parse_metrics;
      }

  -- The end of the ingest loop.
  unfoldable pub ingest_end : EngineState A L P → EngineState A L P
  unfolding close
  ingest_end s = record s { ingesting = false; queue = close s.queue }

  -- One round of the egress loop: the callback takes the message.
  unfoldable pub egress_message : A → MessageQueue A → EngineState A L P → EngineState A L P
  egress_message message q s = record s {
    queue = q;
    delivered = s.delivered ++ message ∷ [];
    egress_count = add64 s.egress_count 1;
  }

  unfoldable pub egress_end : MessageQueue A → EngineState A L P → EngineState A L P
  egress_end q s = record s { queue = q; egressing = false }

  -- `_queue.Close()` in `Join`.
  unfoldable pub join_close : EngineState A L P → EngineState A L P
  unfolding close
  join_close s = record s { queue = close s.queue; joining = egress_join }
