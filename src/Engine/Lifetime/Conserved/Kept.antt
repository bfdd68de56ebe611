-- ===== src/Engine/Lifetime/Conserved/Kept.antt =====
-- Each step of `Engine.Lifetime` keeps the invariant.
use nyse_pillar_market_data.Prelude.{◌≡◌, refl, ap, true, false, List, arith}
use nyse_pillar_market_data.Queue.{close}
use nyse_pillar_market_data.Engine.{LineParser}
use nyse_pillar_market_data.Engine.Exchange.{wait_pop-none}
use nyse_pillar_market_data.Engine.Steps.Running.{messages}
use nyse_pillar_market_data.Engine.Lifetime.{
  IngestPhase, opening, reading, ended, failed, ingest_join, egress_join, joined, closing, stopping,
  awaits_ingest, awaits_egress, destroyed, Construction, on_path, on_vector, LifetimeState,
  constructed, new_engine, fail_to_open, leave_loop, owner_close, Step, opens, fails, takes_line,
  parses, counts, leaves_loop, delivers, ends_egress, calls_join, joins_ingest, joins_egress,
  destroys, closes, stops_egress, destroys_ingest, destroys_egress, Reach, here, then_step,
}
use nyse_pillar_market_data.Engine.Lifetime.Conserved.{
  parse_all, lines_left, uncounted, unrecorded, IsConserved, same-IsConserved, unmoved-IsConserved,
  takes_line-IsConserved, parse_line-IsConserved, count_result-IsConserved, deliver-IsConserved,
}

module _ {A L P : Type 0} (lp : LineParser A L P) (p : P) (input : List L) where
  Step-IsConserved :
      {s t : LifetimeState A L P}
      → Step lp s t
      → IsConserved lp p input s
      → IsConserved lp p input t
  unfolding fail_to_open leave_loop owner_close close
  Step-IsConserved {s} (opens e h) v = rw h (
      same-IsConserved lp p input s reading s.owner s.queue.closed s.egressing s.ingest_stop
        s.egress_stop (ground arith) (ground arith) (ground arith) (ground arith) v)
  Step-IsConserved {s} (fails e h) v = rw h (
      same-IsConserved lp p input s failed s.owner true s.egressing s.ingest_stop s.egress_stop
        (ground arith) (ground arith) (ground arith) (ground arith) v)
  Step-IsConserved {s} (takes_line line rest e f i h) v =
      rw h (takes_line-IsConserved lp p input s line rest e i v)
  Step-IsConserved {s} (parses line e h) v = rw h (parse_line-IsConserved lp p input line s e v)
  Step-IsConserved {s} (counts error e h) v = rw h (count_result-IsConserved lp p input error s e v)
  Step-IsConserved {s} (leaves_loop e o h) v = rw h (
      same-IsConserved lp p input s ended s.owner true s.egressing s.ingest_stop s.egress_stop
        (ground arith) (ground arith) (ground arith) (ground arith) v)
  Step-IsConserved {s} (delivers message q e w h) v =
      rw h (deliver-IsConserved lp p input message q s w v)
  Step-IsConserved {s} (ends_egress q e w h) v =
      rw (h, (wait_pop-none s.egress_stop s.queue q w).2)
        (unmoved-IsConserved lp p input s s.owner s.queue.closed false s.ingest_stop s.egress_stop
          v)
  Step-IsConserved {s} (calls_join e h) v = rw h (
      unmoved-IsConserved lp p input s ingest_join s.queue.closed s.egressing s.ingest_stop
        s.egress_stop v)
  Step-IsConserved {s} (joins_ingest e d h) v =
      rw h (
        unmoved-IsConserved lp p input s egress_join true s.egressing s.ingest_stop s.egress_stop v)
  Step-IsConserved {s} (joins_egress e d h) v = rw h (
      unmoved-IsConserved lp p input s joined s.queue.closed s.egressing s.ingest_stop s.egress_stop
        v)
  Step-IsConserved {s} (destroys e h) v =
      rw h
        (unmoved-IsConserved lp p input s closing s.queue.closed s.egressing true s.egress_stop v)
  Step-IsConserved {s} (closes e h) v =
      rw h
        (unmoved-IsConserved lp p input s stopping true s.egressing s.ingest_stop s.egress_stop v)
  Step-IsConserved {s} (stops_egress e h) v = rw h (
      unmoved-IsConserved lp p input s awaits_ingest s.queue.closed s.egressing s.ingest_stop true
        v)
  Step-IsConserved {s} (destroys_ingest e d h) v = rw h (
      unmoved-IsConserved lp p input s awaits_egress s.queue.closed s.egressing s.ingest_stop
        s.egress_stop v)
  Step-IsConserved {s} (destroys_egress e d h) v = rw h (
      unmoved-IsConserved lp p input s destroyed s.queue.closed s.egressing s.ingest_stop
        s.egress_stop v)

  pub Reach-IsConserved :
      {s t : LifetimeState A L P}
      → Reach lp s t
      → IsConserved lp p input s
      → IsConserved lp p input t
  Reach-IsConserved here v = v
  Reach-IsConserved (then_step reach step) v = Step-IsConserved step (Reach-IsConserved reach v)

  constructed-IsConserved :
      (phase : IngestPhase L)
      → lines_left phase input ≡ input
      → uncounted phase ≡ 0
      → unrecorded phase ≡ 0
      → IsConserved lp p input (constructed {A = A} phase input p)
  constructed-IsConserved phase l u n = record {
    handled = 0;
    succeeded = 0;
    conserved = ap (messages lp p) l;
    parsed = ap (parse_all lp p) l;
    delivered_count = omega arith;
    total_count = omega arith;
    handled_count = rw (u, l) (omega arith);
    success_count = omega arith;
    succeeded_count = rw n refl;
    succeeded_at_most = omega arith;
    untouched = λ h. (refl, refl);
  }

  pub new_engine-IsConserved :
      (c : Construction) → IsConserved lp p input (new_engine {A = A} c input p)
  new_engine-IsConserved on_path = constructed-IsConserved opening refl refl refl
  new_engine-IsConserved on_vector = constructed-IsConserved reading refl refl refl
