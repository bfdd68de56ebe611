-- ===== src/Engine/Steps/Running.antt =====
-- The invariant of the running pipeline, and that each step of a thread keeps it.
use mathlib.Core.Path.{subst}
use mathlib.Core.List.{append_assoc}
use nyse_pillar_market_data.Prelude.{
  ◌≡◌, refl, sym, ◌∙◌, true, false, List, [], ◌∷◌, ◌++◌, none, some, arith,
}
use nyse_pillar_market_data.Queue.{MessageQueue, returns, wait_pop, close}
use nyse_pillar_market_data.Engine.Exchange.{
  to_list, emit-queue, emit-closed, wait_pop-none, wait_pop-some,
}
use nyse_pillar_market_data.Engine.{
  LineParser, EngineState, Joining, joined, ingest_line, ingest_end, egress_message, egress_end,
  join_close, emit,
}

module _ {A L P : Type 0} (lp : LineParser A L P) where
  -- The messages of the lines, in order.
  unfoldable pub messages : P → List L → List A
  messages p [] = []
  messages p (l ∷ ls) = to_list (lp.parse_next p l).1 ++ messages (lp.parse_next p l).0 ls

  -- What is delivered, queued and still to be read makes up the messages of the input; and which
  -- thread may have ended when.
  pub record IsRunning (p : P) (input : List L) (s : EngineState A L P) : Type 0 where
    pub conserved : s.delivered ++ (s.queue.queue ++ messages s.parser s.input) ≡ messages p input
    pub ingest_ended : s.ingesting ≡ false → s.input ≡ []
    pub closed_after : s.queue.closed ≡ true → s.ingesting ≡ false
    pub ended_closed : s.ingesting ≡ false → s.queue.closed ≡ true
    pub egress_ended : s.egressing ≡ false → (s.ingesting ≡ false) × (s.queue.queue ≡ [])
    pub join_ended : s.joining ≡ joined → s.egressing ≡ false

  module _ (p : P) (input : List L) (s : EngineState A L P) (r : IsRunning p input s) where
    ingest_line-conserved :
        (line : L) (rest : List L)
        → s.input ≡ line ∷ rest
        → let o = (lp.parse_next s.parser line).1 in
          s.delivered ++ ((emit o s.queue).queue ++ messages (lp.parse_next s.parser line).0 rest)
          ≡ messages p input
    unfolding messages
    ingest_line-conserved line rest e =
        let (parser, o, error) = lp.parse_next s.parser line in
        rw (emit-queue o s.queue, append_assoc s.queue.queue (to_list o) (messages parser rest))
          (subst (λ i. s.delivered ++ (s.queue.queue ++ messages s.parser i) ≡ messages p input) e
            r.conserved)

    pub ingest_line-IsRunning :
        (line : L) (rest : List L)
        → s.ingesting ≡ true
        → s.input ≡ line ∷ rest
        → IsRunning p input (ingest_line lp line rest s)
    unfolding ingest_line
    ingest_line-IsRunning line rest on e =
        let (parser, o, error) = lp.parse_next s.parser line in
        record {
          conserved = ingest_line-conserved line rest e;
          ingest_ended = λ off. cc;
          closed_after = λ c. r.closed_after (sym (emit-closed o s.queue) ∙ c);
          ended_closed = λ off. cc;
          egress_ended = λ off. let both = r.egress_ended off in cc;
          join_ended = r.join_ended;
        }

    pub ingest_end-IsRunning : s.input ≡ [] → IsRunning p input (ingest_end s)
    unfolding ingest_end close
    ingest_end-IsRunning e = record {
      conserved = r.conserved;
      ingest_ended = λ off. e;
      closed_after = λ c. refl;
      ended_closed = λ off. refl;
      egress_ended = λ off. (refl, (r.egress_ended off).1);
      join_ended = r.join_ended;
    }

    pub egress_message-IsRunning :
        (message : A) (q : MessageQueue A)
        → s.egressing ≡ true
        → wait_pop false s.queue ≡ returns (some message) q
        → IsRunning p input (egress_message message q s)
    unfolding egress_message
    egress_message-IsRunning message q on e =
        let (front, same) = wait_pop-some false s.queue q message e in
        record {
          conserved =
              rw (append_assoc s.delivered (message ∷ []) (q.queue ++ messages s.parser s.input)) (
                subst
                  (λ (w : List A).
                    s.delivered ++ (w ++ messages s.parser s.input) ≡ messages p input)
                  front r.conserved);
          ingest_ended = r.ingest_ended;
          closed_after = λ c. r.closed_after (sym same ∙ c);
          ended_closed = λ off. same ∙ r.ended_closed off;
          egress_ended = λ off. cc;
          join_ended = λ j. let off = r.join_ended j in cc;
        }

    pub egress_end-IsRunning :
        (q : MessageQueue A)
        → wait_pop false s.queue ≡ returns none q
        → IsRunning p input (egress_end q s)
    unfolding egress_end
    egress_end-IsRunning q e =
        let (closed, empty, same) = wait_pop-none false s.queue q e in
        rw same record {
          conserved = r.conserved;
          ingest_ended = r.ingest_ended;
          closed_after = r.closed_after;
          ended_closed = r.ended_closed;
          egress_ended = λ off. (r.closed_after (ground arith), empty);
          join_ended = λ j. refl;
        }

    pub join_close-IsRunning : s.ingesting ≡ false → IsRunning p input (join_close s)
    unfolding join_close close
    join_close-IsRunning off = record {
      conserved = r.conserved;
      ingest_ended = r.ingest_ended;
      closed_after = λ c. off;
      ended_closed = λ c. refl;
      egress_ended = r.egress_ended;
      join_ended = λ j. cc;
    }

    pub joining-IsRunning :
        (j : Joining)
        → (j ≡ joined → s.egressing ≡ false)
        → IsRunning p input (record s { joining = j })
    joining-IsRunning j off = record {
      conserved = r.conserved;
      ingest_ended = r.ingest_ended;
      closed_after = r.closed_after;
      ended_closed = r.ended_closed;
      egress_ended = r.egress_ended;
      join_ended = off;
    }
