-- ===== src/Engine/Lifetime/Outcome.antt =====
-- What an `Engine` has done when `Join` returns and when `~Engine` returns, over every interleaving.
use mathlib.Core.Path.{subst}
use mathlib.Core.List.{append-nil}
use nyse_pillar_market_data.Prelude.{
  ◌+◌, ◌%◌, ◌≤◌, ◌≡◌, ◌⊎◌, inl, inr, refl, sym, ap, ◌∙◌, true, false, List, [], ◌++◌, arith, length,
}
use nyse_pillar_market_data.Prelude.Word.{u64_mod}
use nyse_pillar_market_data.Engine.{LineParser}
use nyse_pillar_market_data.Engine.Steps.Running.{messages}
use nyse_pillar_market_data.Engine.Lifetime.{
  IngestPhase, ended, failed, joined, destroyed, Construction, LifetimeState, new_engine, is_done,
  Reach, get_success, get_total, get_egress_count,
}
use nyse_pillar_market_data.Engine.Lifetime.Orderly.{
  has_stopped, IsOrderly, new_engine-IsOrderly, Reach-IsOrderly,
}
use nyse_pillar_market_data.Engine.Lifetime.Conserved.Kept.{
  new_engine-IsConserved, Reach-IsConserved,
}
use nyse_pillar_market_data.Engine.Lifetime.Conserved.{
  parse_all, lines_left, uncounted, unrecorded, IsConserved,
}

module _ {L : Type 0} where
  done-cases : (ph : IngestPhase L) → is_done ph ≡ true → (ph ≡ ended) ⊎ (ph ≡ failed)
  done-cases ph h = ground arith

  done-lines :
      (ph : IngestPhase L) (input : List L) → is_done ph ≡ true → lines_left ph input ≡ input
  done-lines ph input h = ground arith

  done-recorded : (ph : IngestPhase L) → is_done ph ≡ true → unrecorded ph ≡ 0
  done-recorded ph h = ground arith

length-zero : {A : Type 0} (xs : List A) → length xs ≡ 0 → xs ≡ []
length-zero xs h = ground arith

module _ {A L P : Type 0} (lp : LineParser A L P) (c : Construction) (input : List L) (p : P) where
  reached :
      {s : LifetimeState A L P}
      → Reach lp (new_engine c input p) s
      → IsOrderly s × IsConserved lp p input s
  reached reach = (
    Reach-IsOrderly lp reach (new_engine-IsOrderly c input p),
    Reach-IsConserved lp p input reach (new_engine-IsConserved lp p input c),
  )

  -- At every moment, also while `Join` or the destructor runs and whatever the interleaving, the callback
  -- has taken the first messages of the input in order: the queue holds the ones after these, and the
  -- lines that are not parsed give the others.
  pub Reach-in_order :
      {s : LifetimeState A L P}
      → Reach lp (new_engine c input p) s
      → s.delivered ++ (s.queue.queue ++ messages lp s.parser (lines_left s.phase s.input))
        ≡ messages lp p input
  Reach-in_order reach = (reached reach).1.conserved

  ended-delivered :
      (s : LifetimeState A L P)
      → IsConserved lp p input s
      → s.phase ≡ ended
      → s.input ≡ []
      → s.queue.queue ≡ []
      → (s.delivered ≡ messages lp p input)
        × (get_egress_count s ≡ length (messages lp p input) % u64_mod)
        × (get_success s ≡ length (messages lp p input) % u64_mod)
        × (get_total s ≡ length input % u64_mod)
  unfolding messages
  ended-delivered s v e done empty =
      let all : s.delivered ≡ messages lp p input =
        sym (append-nil s.delivered)
        ∙ subst (λ (w : List A). s.delivered ++ w ≡ messages lp p input) (rw (empty, e, done) refl)
            v.conserved in
      (
        all,
        rw (sym all) v.delivered_count,
        rw (sym all) (
            let u = ap unrecorded e in
            let q = ap length empty in
            rw v.success_count (ap (λ n. n % u64_mod) (omega (arith, u, q, v.succeeded_count)))),
        rw v.total_count (
            ap (λ n. n % u64_mod)
              (let u = ap uncounted e in
                let q : length (lines_left s.phase s.input) ≡ 0 = rw (e, done) refl in
                omega (arith, u, q, v.handled_count))),
      )

  failed-nothing :
      (s : LifetimeState A L P)
      → IsConserved lp p input s
      → s.phase ≡ failed
      → (s.delivered ≡ []) × (get_egress_count s ≡ 0) × (get_success s ≡ 0) × (get_total s ≡ 0)
  failed-nothing s v e =
      let (none_handled, none_succeeded) = v.untouched (rw e refl) in
      let u = ap unrecorded e in
      let nothing : length s.delivered ≡ 0 = omega (arith, u, v.succeeded_count, none_succeeded) in
      (
        length-zero s.delivered nothing,
        omega (arith, v.delivered_count, nothing),
        omega (arith, v.success_count, none_succeeded),
        omega (arith, v.total_count, none_handled),
      )

  -- `Join` returns on one of two outcomes, whatever the interleaving. The file was opened: then the
  -- callback has taken each message of the input once and in order, and the three counts are those of the
  -- input, modulo 2^64. Or the file could not be opened: then the callback has taken nothing, and the three
  -- counts are 0.
  pub joined-outcome :
      {s : LifetimeState A L P}
      → Reach lp (new_engine c input p) s
      → s.owner ≡ joined
      → ((s.phase ≡ ended)
          × (s.delivered ≡ messages lp p input)
          × (get_egress_count s ≡ length (messages lp p input) % u64_mod)
          × (get_success s ≡ length (messages lp p input) % u64_mod)
          × (get_total s ≡ length input % u64_mod))
        ⊎ ((s.phase ≡ failed)
            × (s.delivered ≡ [])
            × (get_egress_count s ≡ 0)
            × (get_success s ≡ 0)
            × (get_total s ≡ 0))
  joined-outcome {s} reach j =
      let (o, v) = reached reach in
      let off = o.egress_joined (rw j refl) in
      let running : s.ingest_stop ≡ false = o.stopped ∙ ap has_stopped j in
      elim (done-cases s.phase (o.ingest_joined (rw j refl))) [
        | inl e ↦
            let (taken, count, successes, total) =
              ended-delivered s v e (ground (arith, o.read_all)) (ground (arith, o.drained)) in
            inl (e, taken, count, successes, total)
        | inr e ↦
            let (taken, count, successes, total) = failed-nothing s v e in
            inr (e, taken, count, successes, total)
      ]

  -- When the destructor returns, whether `Join` was called before or not and whatever the interleaving, both threads have ended, and at most one message that was parsed has not
  -- reached the callback: the successes are the messages that it took and that one, modulo 2^64.
  pub destroyed-leaves :
      {s : LifetimeState A L P}
      → Reach lp (new_engine c input p) s
      → s.owner ≡ destroyed
      → (is_done s.phase ≡ true)
        × (s.egressing ≡ false)
        × (length s.queue.queue ≤ 1)
        × (s.delivered ++ (s.queue.queue ++ messages lp s.parser s.input) ≡ messages lp p input)
        × (get_egress_count s ≡ length s.delivered % u64_mod)
        × (get_success s ≡ (length s.delivered + length s.queue.queue) % u64_mod)
  destroyed-leaves {s} reach d =
      let (o, v) = reached reach in
      let off = o.egress_joined (rw d refl) in
      let done = o.ingest_joined (rw d refl) in
      (
        done,
        off,
        (let h = o.left_over off in omega (arith, h)),
        rw (sym (done-lines s.phase s.input done)) v.conserved,
        v.delivered_count,
        rw v.success_count (
            ap (λ n. n % u64_mod)
              (let u = done-recorded s.phase done in omega (arith, u, v.succeeded_count))),
      )

  -- When `Join` returns and the file was opened, the parser has parsed each line.
  pub joined-parsed :
      {s : LifetimeState A L P}
      → Reach lp (new_engine c input p) s
      → s.owner ≡ joined
      → s.phase ≡ ended
      → s.parser ≡ parse_all lp p input
  unfolding parse_all
  joined-parsed {s} reach j e =
      let (o, v) = reached reach in
      let running : s.ingest_stop ≡ false = o.stopped ∙ ap has_stopped j in
      let done : s.input ≡ [] = ground (arith, o.read_all) in
      let none_left : lines_left s.phase s.input ≡ [] = rw (e, done) refl in
      subst (λ ls. parse_all lp s.parser ls ≡ parse_all lp p input) none_left v.parsed
