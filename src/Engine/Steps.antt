-- ===== src/Engine/Steps.antt =====
-- The interleavings of the ingest thread, the egress thread and the thread that calls `Join`.
pub mod Running
pub mod Delivery
pub mod Progress
use nyse_pillar_market_data.Prelude.{ℕ, ◌≡◌, Bool, true, false, List, [], ◌∷◌, none, some}
use nyse_pillar_market_data.Queue.{MessageQueue, returns, wait_pop}
use nyse_pillar_market_data.Engine.{
  LineParser, EngineState, Joining, not_called, ingest_join, egress_join, joined, started,
  ingest_line, ingest_end, egress_message, egress_end, join_close,
}

module _ {A L P : Type 0} (lp : LineParser A L P) where
  -- One step of one thread.
  pub data Step (s t : EngineState A L P) : Type 0 where
    ingests :
        (line : L) (rest : List L)
        → s.ingesting ≡ true
        → s.input ≡ line ∷ rest
        → t ≡ ingest_line lp line rest s
        → Step s t
    ends_ingest : s.ingesting ≡ true → s.input ≡ [] → t ≡ ingest_end s → Step s t
    delivers :
        (message : A) (q : MessageQueue A)
        → s.egressing ≡ true
        → wait_pop false s.queue ≡ returns (some message) q
        → t ≡ egress_message message q s
        → Step s t
    ends_egress :
        (q : MessageQueue A)
        → s.egressing ≡ true
        → wait_pop false s.queue ≡ returns none q
        → t ≡ egress_end q s
        → Step s t
    calls_join : s.joining ≡ not_called → t ≡ record s { joining = ingest_join } → Step s t
    joins_ingest : s.joining ≡ ingest_join → s.ingesting ≡ false → t ≡ join_close s → Step s t
    joins_egress :
        s.joining ≡ egress_join → s.egressing ≡ false → t ≡ record s { joining = joined } → Step s t

  -- The states that some interleaving reaches.
  pub data Reach (s : EngineState A L P) : EngineState A L P → Type 0 where
    here : Reach s s
    then_step : {t u : EngineState A L P} → Reach s t → Step t u → Reach s u
