-- ===== src/Engine/Lifetime.antt =====
-- The whole life of an `Engine`: the file is opened or not, `Join` may be called, and `~Engine` runs, with
-- its stop requests, at any time. The ingest loop is cut where another thread can step in between.
pub mod Orderly
pub mod Conserved
pub mod Outcome
pub mod Progress
mod Tests
use nyse_pillar_market_data.Prelude.{
  ℕ, ◌≡◌, ◌⊎◌, Bool, true, false, if◌then◌else◌, arith, List, [], ◌∷◌, ◌++◌, Option, none, some,
  ◌||◌,
}
use nyse_pillar_market_data.Prelude.Word.{add64}
use nyse_pillar_market_data.Queue.{MessageQueue, new_queue, returns, wait_pop, close}
use nyse_pillar_market_data.Sequence.{ParseError, ParserData, IntegrityMetrics}
use nyse_pillar_market_data.Engine.{
  IngestData, validate_ingest_type, LineParser, ParseMetrics, record_parse_result, emit,
}

-- Where the ingest thread stands: before `is_open`, at the head of the loop, with a line to parse, with a
-- result to record, behind the loop, and behind a failure to open.
pub data IngestPhase (L : Type 0) : Type 0 where
  opening reading : IngestPhase L
  parsing : L → IngestPhase L
  counting : ParseError → IngestPhase L
  ended failed : IngestPhase L

-- Where the owner of the engine stands: `Join` not called, waiting for Ingest in it, then for Egress,
-- returned from it; in `~Engine` before `Close`, before the second stop request, and joining the two
-- threads, as their destructors do, Ingest first; and done.
pub data Owner : Type 0 where
  owning ingest_join egress_join joined closing stopping awaits_ingest awaits_egress destroyed :
      Owner

pub data Construction : Type 0 where
  on_path on_vector : Construction

pub record LifetimeState (A L P : Type 0) : Type 0 where
  pub input : List L
  pub phase : IngestPhase L
  pub parser : P
  pub parse_metrics : ParseMetrics
  pub queue : MessageQueue A
  pub egressing : Bool
  pub delivered : List A
  pub egress_count : ℕ
  pub ingest_stop : Bool
  pub egress_stop : Bool
  pub owner : Owner

module _ {A L P : Type 0} where
  -- The state that a constructor leaves, with both threads started.
  abbrev pub constructed : IngestPhase L → List L → P → LifetimeState A L P
  constructed phase input p = record {
    input = input;
    phase = phase;
    parser = p;
    parse_metrics = record { success = 0; total = 0 };
    queue = new_queue;
    egressing = true;
    delivered = [];
    egress_count = 0;
    ingest_stop = false;
    egress_stop = false;
    owner = owning;
  }

  -- The two constructors: on a path the thread opens the file first.
  abbrev pub new_engine : Construction → List L → P → LifetimeState A L P
  new_engine on_path = constructed opening
  new_engine on_vector = constructed reading

  -- The constructors with their checks; `none` is the exception that they throw.
  unfoldable pub construct_on_path : IngestData → Bool → List L → P → Option (LifetimeState A L P)
  unfolding validate_ingest_type
  construct_on_path ingest_type exists input p =
      if validate_ingest_type ingest_type
      then (if exists then some (new_engine on_path input p) else none)
      else none

  unfoldable pub construct_on_vector : IngestData → List L → P → Option (LifetimeState A L P)
  unfolding validate_ingest_type
  construct_on_vector ingest_type input p =
      if validate_ingest_type ingest_type then some (new_engine on_vector input p) else none

  pub construct_on_path-some :
      (ingest_type : IngestData) (exists : Bool) (input : List L) (p : P) (s : LifetimeState A L P)
      → construct_on_path ingest_type exists input p ≡ some s
      → s ≡ new_engine on_path input p
  unfolding construct_on_path
  construct_on_path-some ingest_type exists input p s h = ground arith

  -- The failure branch of `IngestLoopFromFile`.
  unfoldable pub fail_to_open : LifetimeState A L P → LifetimeState A L P
  unfolding close
  fail_to_open s = record s { phase = failed; queue = close s.queue }

  -- `ParseNext` on the line, with the message that it emits.
  unfoldable pub parse_line : LineParser A L P → L → LifetimeState A L P → LifetimeState A L P
  unfolding emit
  parse_line lp line s =
      let (parser, message, error) = lp.parse_next s.parser line in
      record s { phase = counting error; parser = parser; queue = emit message s.queue }

  unfoldable pub count_result : ParseError → LifetimeState A L P → LifetimeState A L P
  unfolding record_parse_result
  count_result error s = record s {
    phase = reading;
    parse_metrics = record_parse_result error s.parse_metrics;
  }

  unfoldable pub leave_loop : LifetimeState A L P → LifetimeState A L P
  unfolding close
  leave_loop s = record s { phase = ended; queue = close s.queue }

  unfoldable pub deliver : A → MessageQueue A → LifetimeState A L P → LifetimeState A L P
  deliver message q s = record s {
    queue = q;
    delivered = s.delivered ++ message ∷ [];
    egress_count = add64 s.egress_count 1;
  }

  -- `_queue.Close()` by the owner, in `Join` or in `~Engine`.
  unfoldable pub owner_close : Owner → LifetimeState A L P → LifetimeState A L P
  unfolding close
  owner_close next s = record s { queue = close s.queue; owner = next }

  -- The counters that any thread may read.
  abbrev pub get_success : LifetimeState A L P → ℕ
  get_success s = s.parse_metrics.success

  abbrev pub get_total : LifetimeState A L P → ℕ
  get_total s = s.parse_metrics.total

  abbrev pub get_egress_count : LifetimeState A L P → ℕ
  get_egress_count s = s.egress_count

module _ {A L : Type 0} where
  abbrev pub get_integrity_metrics : LifetimeState A L ParserData → IntegrityMetrics
  get_integrity_metrics s = s.parser.line_data

  abbrev pub get_msg_type_counts : LifetimeState A L ParserData → List ℕ
  get_msg_type_counts s = s.parser.msg_type_counts

abbrev pub is_done : {L : Type 0} → IngestPhase L → Bool
is_done ended = true
is_done failed = true
is_done _ = false

module _ {A L P : Type 0} (lp : LineParser A L P) where
  pub data Step (s t : LifetimeState A L P) : Type 0 where
    opens : s.phase ≡ opening → t ≡ record s { phase = reading } → Step s t
    fails : s.phase ≡ opening → t ≡ fail_to_open s → Step s t
    takes_line :
        (line : L) (rest : List L)
        → s.phase ≡ reading
        → s.ingest_stop ≡ false
        → s.input ≡ line ∷ rest
        → t ≡ record s { phase = parsing line; input = rest }
        → Step s t
    parses : (line : L) → s.phase ≡ parsing line → t ≡ parse_line lp line s → Step s t
    counts : (error : ParseError) → s.phase ≡ counting error → t ≡ count_result error s → Step s t
    leaves_loop :
        s.phase ≡ reading → (s.ingest_stop ≡ true) ⊎ (s.input ≡ []) → t ≡ leave_loop s → Step s t
    delivers :
        (message : A) (q : MessageQueue A)
        → s.egressing ≡ true
        → wait_pop s.egress_stop s.queue ≡ returns (some message) q
        → t ≡ deliver message q s
        → Step s t
    ends_egress :
        (q : MessageQueue A)
        → s.egressing ≡ true
        → wait_pop s.egress_stop s.queue ≡ returns none q
        → t ≡ record s { queue = q; egressing = false }
        → Step s t
    calls_join : s.owner ≡ owning → t ≡ record s { owner = ingest_join } → Step s t
    joins_ingest :
        s.owner ≡ ingest_join → is_done s.phase ≡ true → t ≡ owner_close egress_join s → Step s t
    joins_egress :
        s.owner ≡ egress_join → s.egressing ≡ false → t ≡ record s { owner = joined } → Step s t
    destroys :
        (s.owner ≡ owning) ⊎ (s.owner ≡ joined)
        → t ≡ record s { ingest_stop = true; owner = closing }
        → Step s t
    closes : s.owner ≡ closing → t ≡ owner_close stopping s → Step s t
    stops_egress :
        s.owner ≡ stopping → t ≡ record s { egress_stop = true; owner = awaits_ingest } → Step s t
    destroys_ingest :
        s.owner ≡ awaits_ingest
        → is_done s.phase ≡ true
        → t ≡ record s { owner = awaits_egress }
        → Step s t
    destroys_egress :
        s.owner ≡ awaits_egress
        → s.egressing ≡ false
        → t ≡ record s { owner = destroyed }
        → Step s t

  pub data Reach (s : LifetimeState A L P) : LifetimeState A L P → Type 0 where
    here : Reach s s
    then_step : {t u : LifetimeState A L P} → Reach s t → Step t u → Reach s u
