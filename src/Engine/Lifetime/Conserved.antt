-- ===== src/Engine/Lifetime/Conserved.antt =====
-- What the threads of `Engine.Lifetime` keep of the input: where each of its messages is, and the counts.
pub mod Kept
use mathlib.Core.Path.{subst}
use mathlib.Core.List.{append_assoc}
use nyse_pillar_market_data.Prelude.{
  ℕ, ◌+◌, ◌%◌, ◌≤◌, ◌≡◌, refl, sym, ap, ◌∙◌, Bool, true, false, List, [], ◌∷◌, ◌++◌, some, arith,
  length, length-append, if◌then◌else◌,
}
use nyse_pillar_market_data.Prelude.Word.{u64_mod}
use nyse_pillar_market_data.Queue.{MessageQueue, returns, wait_pop, close}
use nyse_pillar_market_data.Sequence.{ParseError}
use nyse_pillar_market_data.Engine.{LineParser, is_no_error}
use nyse_pillar_market_data.Engine.Exchange.{
  to_list, emit-queue, length-to_list, wait_pop-none, wait_pop-some, record_parse_result-lem,
  add64-mod, success-lem,
}
use nyse_pillar_market_data.Engine.Steps.Running.{messages}
use nyse_pillar_market_data.Engine.Lifetime.{
  IngestPhase, opening, reading, parsing, counting, ended, failed, Owner, ingest_join, egress_join,
  joined, closing, stopping, awaits_ingest, awaits_egress, destroyed, Construction, on_path,
  on_vector, LifetimeState, constructed, new_engine, fail_to_open, parse_line, count_result,
  leave_loop, deliver, owner_close, Step, opens, fails, takes_line, parses, counts, leaves_loop,
  delivers, ends_egress, calls_join, joins_ingest, joins_egress, destroys, closes, stops_egress,
  destroys_ingest, destroys_egress, Reach, here, then_step,
}

-- The lines that are not parsed, the one in the parser's hands first.
abbrev pub lines_left : {L : Type 0} → IngestPhase L → List L → List L
lines_left (parsing line) input = line ∷ input
lines_left _ input = input

-- A line that is parsed and not counted, and the success that it will count as.
abbrev pub uncounted : {L : Type 0} → IngestPhase L → ℕ
uncounted (counting error) = 1
uncounted _ = 0

abbrev pub unrecorded : {L : Type 0} → IngestPhase L → ℕ
unrecorded (counting error) = if is_no_error error then 1 else 0
unrecorded _ = 0

abbrev is_untouched : {L : Type 0} → IngestPhase L → Bool
is_untouched opening = true
is_untouched failed = true
is_untouched _ = false

module _ {A L P : Type 0} (lp : LineParser A L P) where
  -- The state of the parser after the lines.
  unfoldable pub parse_all : P → List L → P
  parse_all p [] = p
  parse_all p (l ∷ ls) = parse_all (lp.parse_next p l).0 ls

module _ {A L P : Type 0} (lp : LineParser A L P) (p : P) (input : List L) where
  -- `handled` lines are counted, and `succeeded` of them as successes.
  pub record IsConserved (s : LifetimeState A L P) : Type 0 where
    pub handled : ℕ
    pub succeeded : ℕ
    pub conserved :
        s.delivered ++ (s.queue.queue ++ messages lp s.parser (lines_left s.phase s.input))
        ≡ messages lp p input
    pub parsed : parse_all lp s.parser (lines_left s.phase s.input) ≡ parse_all lp p input
    pub delivered_count : s.egress_count ≡ length s.delivered % u64_mod
    pub total_count : s.parse_metrics.total ≡ handled % u64_mod
    pub handled_count :
        handled + uncounted s.phase + length (lines_left s.phase s.input) ≡ length input
    pub success_count : s.parse_metrics.success ≡ succeeded % u64_mod
    pub succeeded_count : succeeded + unrecorded s.phase ≡ length s.delivered + length s.queue.queue
    pub succeeded_at_most : succeeded ≤ handled
    pub untouched : is_untouched s.phase ≡ true → (handled ≡ 0) × (succeeded ≡ 0)

  -- A step that leaves the input, the parser, the queue and the counts alone.
  pub same-IsConserved :
      (s : LifetimeState A L P) (phase : IngestPhase L) (owner : Owner)
      (closed egressing ingest_stop egress_stop : Bool)
      → lines_left phase s.input ≡ lines_left s.phase s.input
      → uncounted phase ≡ uncounted s.phase
      → unrecorded phase ≡ unrecorded s.phase
      → (is_untouched phase ≡ true → is_untouched s.phase ≡ true)
      → IsConserved s
      → IsConserved (record s {
        phase = phase;
        queue = record (s.queue) { closed = closed };
        egressing = egressing;
        ingest_stop = ingest_stop;
        egress_stop = egress_stop;
        owner = owner;
      })
  same-IsConserved s phase owner c e i o l u n t v = record {
    handled = v.handled;
    succeeded = v.succeeded;
    conserved = rw l v.conserved;
    parsed = rw l v.parsed;
    delivered_count = v.delivered_count;
    total_count = v.total_count;
    handled_count = rw (u, l) v.handled_count;
    success_count = v.success_count;
    succeeded_count = rw n v.succeeded_count;
    succeeded_at_most = v.succeeded_at_most;
    untouched = λ h. v.untouched (t h);
  }

  -- A step that leaves the ingest thread alone, too.
  pub unmoved-IsConserved :
      (s : LifetimeState A L P) (owner : Owner) (closed egressing ingest_stop egress_stop : Bool)
      → IsConserved s
      → IsConserved (record s {
        queue = record (s.queue) { closed = closed };
        egressing = egressing;
        ingest_stop = ingest_stop;
        egress_stop = egress_stop;
        owner = owner;
      })
  unmoved-IsConserved s owner c e i o v =
      same-IsConserved s s.phase owner c e i o refl refl refl (λ h. h) v

  pub takes_line-IsConserved :
      (s : LifetimeState A L P) (line : L) (rest : List L)
      → s.phase ≡ reading
      → s.input ≡ line ∷ rest
      → IsConserved s
      → IsConserved (record s { phase = parsing line; input = rest })
  takes_line-IsConserved s line rest e i v =
      let l = ap (λ ph. lines_left ph s.input) e ∙ i in
      record {
        handled = v.handled;
        succeeded = v.succeeded;
        conserved = rw (sym l) v.conserved;
        parsed = rw (sym l) v.parsed;
        delivered_count = v.delivered_count;
        total_count = v.total_count;
        handled_count = ground arith;
        success_count = v.success_count;
        succeeded_count = ground arith;
        succeeded_at_most = v.succeeded_at_most;
        untouched = λ h. cc;
      }

  pub parse_line-IsConserved :
      (line : L) (s : LifetimeState A L P)
      → s.phase ≡ parsing line
      → IsConserved s
      → IsConserved (parse_line lp line s)
  unfolding parse_line messages parse_all
  parse_line-IsConserved line s e v =
      let (parser, o, error) = lp.parse_next s.parser line in
      let l = ap (λ ph. lines_left ph s.input) e in
      let q = emit-queue o s.queue in
      record {
        handled = v.handled;
        succeeded = v.succeeded;
        conserved =
            rw (q, append_assoc s.queue.queue (to_list o) (messages lp parser s.input))
              (subst
                (λ i.
                  s.delivered ++ (s.queue.queue ++ messages lp s.parser i) ≡ messages lp p input)
                l v.conserved);
        parsed = subst (λ i. parse_all lp s.parser i ≡ parse_all lp p input) l v.parsed;
        delivered_count = v.delivered_count;
        total_count = v.total_count;
        handled_count = ground arith;
        success_count = v.success_count;
        succeeded_count =
            rw (q, sym (lp.emits_iff s.parser line))
              (let r = ap unrecorded e in
                omega (
                  arith,
                  r,
                  v.succeeded_count,
                  length-append s.queue.queue (to_list o),
                  length-to_list o,
                ));
        succeeded_at_most = v.succeeded_at_most;
        untouched = λ h. cc;
      }

  pub count_result-IsConserved :
      (error : ParseError) (s : LifetimeState A L P)
      → s.phase ≡ counting error
      → IsConserved s
      → IsConserved (count_result error s)
  unfolding count_result
  count_result-IsConserved error s e v =
      let l = ap (λ ph. lines_left ph s.input) e in
      let (total, success) = record_parse_result-lem error s.parse_metrics in
      record {
        handled = v.handled + 1;
        succeeded = v.succeeded + (if is_no_error error then 1 else 0);
        conserved = rw (sym l) v.conserved;
        parsed = rw (sym l) v.parsed;
        delivered_count = v.delivered_count;
        total_count = rw total (add64-mod v.handled s.parse_metrics.total v.total_count);
        handled_count = ground arith;
        success_count =
            rw success
              (success-lem v.succeeded s.parse_metrics.success (is_no_error error) v.success_count);
        succeeded_count = ground arith;
        succeeded_at_most = ground arith;
        untouched = λ h. cc;
      }

  pub deliver-IsConserved :
      (message : A) (q : MessageQueue A) (s : LifetimeState A L P)
      → wait_pop s.egress_stop s.queue ≡ returns (some message) q
      → IsConserved s
      → IsConserved (deliver message q s)
  unfolding deliver
  deliver-IsConserved message q s w v =
      let (front, same) = wait_pop-some s.egress_stop s.queue q message w in
      let count = length-append s.delivered (message ∷ []) in
      let left = messages lp s.parser (lines_left s.phase s.input) in
      record {
        handled = v.handled;
        succeeded = v.succeeded;
        conserved = rw (append_assoc s.delivered (message ∷ []) (q.queue ++ left)) (
            subst (λ (w : List A). s.delivered ++ (w ++ left) ≡ messages lp p input) front
              v.conserved);
        parsed = v.parsed;
        delivered_count =
            rw count (add64-mod (length s.delivered) s.egress_count v.delivered_count);
        total_count = v.total_count;
        handled_count = v.handled_count;
        success_count = v.success_count;
        succeeded_count = let h = ap length front in omega (arith, h, count, v.succeeded_count);
        succeeded_at_most = v.succeeded_at_most;
        untouched = v.untouched;
      }
