-- ===== src/Engine/Lifetime/Orderly.antt =====
-- The flags of the threads and of the queue agree, in every state that the threads reach.
use nyse_pillar_market_data.Prelude.{
  ℕ, ◌+◌, ◌≤◌, ◌≡◌, ◌⊎◌, Bool, true, false, List, [], ◌∷◌, none, some, arith, length,
}
use nyse_pillar_market_data.Queue.{MessageQueue, returns, wait_pop, close}
use nyse_pillar_market_data.Sequence.{ParseError}
use nyse_pillar_market_data.Engine.{LineParser}
use nyse_pillar_market_data.Engine.Exchange.{emit-closed, emit-length, wait_pop-none, wait_pop-some}
use nyse_pillar_market_data.Engine.Lifetime.{
  IngestPhase, opening, reading, parsing, counting, ended, Owner, owning, ingest_join, egress_join,
  joined, closing, stopping, awaits_ingest, awaits_egress, destroyed, Construction, LifetimeState,
  new_engine, is_done, fail_to_open, parse_line, count_result, leave_loop, deliver, owner_close,
  Step, Reach, here, then_step, opens, fails, takes_line, parses, counts, leaves_loop, delivers,
  ends_egress, calls_join, joins_ingest, joins_egress, destroys, closes, stops_egress,
  destroys_ingest, destroys_egress,
}

-- What the owner has done where it stands.
abbrev pub has_stopped : Owner → Bool
has_stopped closing = true
has_stopped stopping = true
has_stopped awaits_ingest = true
has_stopped awaits_egress = true
has_stopped destroyed = true
has_stopped _ = false

abbrev pub has_closed : Owner → Bool
has_closed egress_join = true
has_closed joined = true
has_closed stopping = true
has_closed awaits_ingest = true
has_closed awaits_egress = true
has_closed destroyed = true
has_closed _ = false

abbrev pub has_ingest : Owner → Bool
has_ingest egress_join = true
has_ingest joined = true
has_ingest awaits_egress = true
has_ingest destroyed = true
has_ingest _ = false

abbrev pub has_egress : Owner → Bool
has_egress joined = true
has_egress destroyed = true
has_egress _ = false

-- A line in the hands of the parser.
abbrev pub held : {L : Type 0} → IngestPhase L → ℕ
held (parsing line) = 1
held _ = 0

module _ {A L P : Type 0} where
  pub record IsOrderly (s : LifetimeState A L P) : Type 0 where
    pub stopped : s.ingest_stop ≡ has_stopped s.owner
    pub stop_order : s.egress_stop ≡ true → s.ingest_stop ≡ true
    pub done_closed : is_done s.phase ≡ true → s.queue.closed ≡ true
    pub closed_by : s.queue.closed ≡ true → (is_done s.phase ≡ true) ⊎ (s.ingest_stop ≡ true)
    pub owner_closed : has_closed s.owner ≡ true → s.queue.closed ≡ true
    pub ingest_joined : has_ingest s.owner ≡ true → is_done s.phase ≡ true
    pub egress_joined : has_egress s.owner ≡ true → s.egressing ≡ false
    pub read_all : s.phase ≡ ended → (s.ingest_stop ≡ true) ⊎ (s.input ≡ [])
    pub left_over : s.egressing ≡ false → length s.queue.queue + held s.phase ≤ 1
    pub drained :
        s.egressing ≡ false
        → ((is_done s.phase ≡ true) × (s.queue.queue ≡ [])) ⊎ (s.ingest_stop ≡ true)

  opens-IsOrderly :
      (s : LifetimeState A L P)
      → s.phase ≡ opening
      → IsOrderly s
      → IsOrderly (record s { phase = reading })
  opens-IsOrderly s e v = ground arith

  fails-IsOrderly :
      (s : LifetimeState A L P) → s.phase ≡ opening → IsOrderly s → IsOrderly (fail_to_open s)
  unfolding fail_to_open close
  fails-IsOrderly s e v = ground arith

  takes_line-IsOrderly :
      (s : LifetimeState A L P) (line : L) (rest : List L)
      → s.phase ≡ reading
      → s.ingest_stop ≡ false
      → s.input ≡ line ∷ rest
      → IsOrderly s
      → IsOrderly (record s { phase = parsing line; input = rest })
  takes_line-IsOrderly s line rest e f i v = ground arith

  parse_line-IsOrderly :
      (lp : LineParser A L P) (line : L) (s : LifetimeState A L P)
      → s.phase ≡ parsing line
      → IsOrderly s
      → IsOrderly (parse_line lp line s)
  unfolding parse_line
  parse_line-IsOrderly lp line s e v =
      let c = emit-closed (lp.parse_next s.parser line).1 s.queue in
      let n = emit-length (lp.parse_next s.parser line).1 s.queue in ground arith

  count_result-IsOrderly :
      (error : ParseError) (s : LifetimeState A L P)
      → s.phase ≡ counting error
      → IsOrderly s
      → IsOrderly (count_result error s)
  unfolding count_result
  count_result-IsOrderly error s e v = ground arith

  leave_loop-IsOrderly :
      (s : LifetimeState A L P)
      → s.phase ≡ reading
      → (s.ingest_stop ≡ true) ⊎ (s.input ≡ [])
      → IsOrderly s
      → IsOrderly (leave_loop s)
  unfolding leave_loop close
  leave_loop-IsOrderly s e o v = ground arith

  deliver-IsOrderly :
      (message : A) (q : MessageQueue A) (s : LifetimeState A L P)
      → s.egressing ≡ true
      → wait_pop s.egress_stop s.queue ≡ returns (some message) q
      → IsOrderly s
      → IsOrderly (deliver message q s)
  unfolding deliver
  deliver-IsOrderly m q s e w v =
      let (front, same) = wait_pop-some s.egress_stop s.queue q m w in ground arith

  ends_egress-IsOrderly :
      (q : MessageQueue A) (s : LifetimeState A L P)
      → s.egressing ≡ true
      → wait_pop s.egress_stop s.queue ≡ returns none q
      → IsOrderly s
      → IsOrderly (record s { queue = q; egressing = false })
  ends_egress-IsOrderly q s e w v =
      let (left, empty, same) = wait_pop-none s.egress_stop s.queue q w in ground arith

  calls_join-IsOrderly :
      (s : LifetimeState A L P)
      → s.owner ≡ owning
      → IsOrderly s
      → IsOrderly (record s { owner = ingest_join })
  calls_join-IsOrderly s e v = ground arith

  joins_ingest-IsOrderly :
      (s : LifetimeState A L P)
      → s.owner ≡ ingest_join
      → is_done s.phase ≡ true
      → IsOrderly s
      → IsOrderly (owner_close egress_join s)
  unfolding owner_close close
  joins_ingest-IsOrderly s e d v = ground arith

  joins_egress-IsOrderly :
      (s : LifetimeState A L P)
      → s.owner ≡ egress_join
      → s.egressing ≡ false
      → IsOrderly s
      → IsOrderly (record s { owner = joined })
  joins_egress-IsOrderly s e d v = ground arith

  destroys-IsOrderly :
      (s : LifetimeState A L P)
      → (s.owner ≡ owning) ⊎ (s.owner ≡ joined)
      → IsOrderly s
      → IsOrderly (record s { ingest_stop = true; owner = closing })
  destroys-IsOrderly s e v = ground arith

  closes-IsOrderly :
      (s : LifetimeState A L P)
      → s.owner ≡ closing
      → IsOrderly s
      → IsOrderly (owner_close stopping s)
  unfolding owner_close close
  closes-IsOrderly s e v = ground arith

  stops_egress-IsOrderly :
      (s : LifetimeState A L P)
      → s.owner ≡ stopping
      → IsOrderly s
      → IsOrderly (record s { egress_stop = true; owner = awaits_ingest })
  stops_egress-IsOrderly s e v = ground arith

  destroys_ingest-IsOrderly :
      (s : LifetimeState A L P)
      → s.owner ≡ awaits_ingest
      → is_done s.phase ≡ true
      → IsOrderly s
      → IsOrderly (record s { owner = awaits_egress })
  destroys_ingest-IsOrderly s e d v = ground arith

  destroys_egress-IsOrderly :
      (s : LifetimeState A L P)
      → s.owner ≡ awaits_egress
      → s.egressing ≡ false
      → IsOrderly s
      → IsOrderly (record s { owner = destroyed })
  destroys_egress-IsOrderly s e d v = ground arith

  pub new_engine-IsOrderly :
      (c : Construction) (input : List L) (p : P) → IsOrderly (new_engine {A = A} c input p)
  new_engine-IsOrderly c input p = ground arith

module _ {A L P : Type 0} (lp : LineParser A L P) where
  Step-IsOrderly : {s t : LifetimeState A L P} → Step lp s t → IsOrderly s → IsOrderly t
  Step-IsOrderly {s} (opens e h) v = rw h (opens-IsOrderly s e v)
  Step-IsOrderly {s} (fails e h) v = rw h (fails-IsOrderly s e v)
  Step-IsOrderly {s} (takes_line line rest e f i h) v =
      rw h (takes_line-IsOrderly s line rest e f i v)
  Step-IsOrderly {s} (parses line e h) v = rw h (parse_line-IsOrderly lp line s e v)
  Step-IsOrderly {s} (counts error e h) v = rw h (count_result-IsOrderly error s e v)
  Step-IsOrderly {s} (leaves_loop e o h) v = rw h (leave_loop-IsOrderly s e o v)
  Step-IsOrderly {s} (delivers message q e w h) v = rw h (deliver-IsOrderly message q s e w v)
  Step-IsOrderly {s} (ends_egress q e w h) v = rw h (ends_egress-IsOrderly q s e w v)
  Step-IsOrderly {s} (calls_join e h) v = rw h (calls_join-IsOrderly s e v)
  Step-IsOrderly {s} (joins_ingest e d h) v = rw h (joins_ingest-IsOrderly s e d v)
  Step-IsOrderly {s} (joins_egress e d h) v = rw h (joins_egress-IsOrderly s e d v)
  Step-IsOrderly {s} (destroys e h) v = rw h (destroys-IsOrderly s e v)
  Step-IsOrderly {s} (closes e h) v = rw h (closes-IsOrderly s e v)
  Step-IsOrderly {s} (stops_egress e h) v = rw h (stops_egress-IsOrderly s e v)
  Step-IsOrderly {s} (destroys_ingest e d h) v = rw h (destroys_ingest-IsOrderly s e d v)
  Step-IsOrderly {s} (destroys_egress e d h) v = rw h (destroys_egress-IsOrderly s e d v)

  pub Reach-IsOrderly : {s t : LifetimeState A L P} → Reach lp s t → IsOrderly s → IsOrderly t
  Reach-IsOrderly here v = v
  Reach-IsOrderly (then_step reach step) v = Step-IsOrderly step (Reach-IsOrderly reach v)
