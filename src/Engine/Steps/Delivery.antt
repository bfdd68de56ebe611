-- ===== src/Engine/Steps/Delivery.antt =====
-- Where each message is, over every interleaving of the threads.
use nyse_pillar_market_data.Prelude.{◌≡◌, refl, List, ◌++◌}
use nyse_pillar_market_data.Engine.{LineParser, EngineState, ingest_join, joined, started}
use nyse_pillar_market_data.Engine.Steps.{
  Step, ingests, ends_ingest, delivers, ends_egress, calls_join, joins_ingest, joins_egress, Reach,
  here, then_step,
}
use nyse_pillar_market_data.Engine.Steps.Running.{
  messages, IsRunning, ingest_line-IsRunning, ingest_end-IsRunning, egress_message-IsRunning,
  egress_end-IsRunning, join_close-IsRunning, joining-IsRunning,
}

module _ {A L P : Type 0} (lp : LineParser A L P) (p : P) (input : List L) where
  started-IsRunning : IsRunning lp p input (started {A = A} input p)
  started-IsRunning = record {
    conserved = refl;
    ingest_ended = λ off. cc;
    closed_after = λ c. cc;
    ended_closed = λ off. cc;
    egress_ended = λ off. cc;
    join_ended = λ j. cc;
  }

  pub Step-IsRunning :
      {s t : EngineState A L P} → Step lp s t → IsRunning lp p input s → IsRunning lp p input t
  Step-IsRunning {s} (ingests line rest on e h) r =
      rw h (ingest_line-IsRunning lp p input s r line rest on e)
  Step-IsRunning {s} (ends_ingest on e h) r = rw h (ingest_end-IsRunning lp p input s r e)
  Step-IsRunning {s} (delivers message q on e h) r =
      rw h (egress_message-IsRunning lp p input s r message q on e)
  Step-IsRunning {s} (ends_egress q on e h) r = rw h (egress_end-IsRunning lp p input s r q e)
  Step-IsRunning {s} (calls_join j h) r =
      rw h (joining-IsRunning lp p input s r ingest_join (λ e. cc))
  Step-IsRunning {s} (joins_ingest j off h) r = rw h (join_close-IsRunning lp p input s r off)
  Step-IsRunning {s} (joins_egress j off h) r =
      rw h (joining-IsRunning lp p input s r joined (λ e. off))

  pub Reach-IsRunning :
      {s : EngineState A L P} → Reach lp (started input p) s → IsRunning lp p input s
  Reach-IsRunning here = started-IsRunning
  Reach-IsRunning (then_step reach step) = Step-IsRunning step (Reach-IsRunning reach)

  -- At every moment, whatever the interleaving of the threads, what the callback has taken is the
  -- beginning of the messages of the input, in order; the queue holds the ones after it.
  pub Reach-delivered :
      {s : EngineState A L P}
      → Reach lp (started input p) s
      → s.delivered ++ (s.queue.queue ++ messages lp s.parser s.input) ≡ messages lp p input
  Reach-delivered reach = (Reach-IsRunning reach).conserved
