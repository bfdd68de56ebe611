-- ===== src/Engine/Exchange.antt =====
-- What the threads of the engine hand on and count: lemmas on `Emit`, `WaitPop` and `RecordParseResult`.
use mathlib.Core.List.{append-nil}
use nyse_pillar_market_data.Prelude.{
  ℕ, ◌+◌, ◌%◌, ◌≡◌, ◌≤◌, ◌⊎◌, inl, inr, refl, sym, Bool, true, List, [], ◌∷◌, ◌++◌, Option, none,
  some, ◌||◌, arith, length, length-append, if◌then◌else◌,
}
use nyse_pillar_market_data.Prelude.Word.{u64_mod, add64}
use nyse_pillar_market_data.Queue.{MessageQueue, returns, wait_pop, push}
use nyse_pillar_market_data.Engine.{ParseMetrics, emit, record_parse_result, is_some, is_no_error}

pub List-cases :
    {A : Type 0} (xs : List A) → (xs ≡ []) ⊎ ((a : A) × (rest : List A) × (xs ≡ a ∷ rest))
List-cases [] = inl refl
List-cases (a ∷ rest) = inr (a, rest, refl)

abbrev pub to_list : {A : Type 0} → Option A → List A
to_list none = []
to_list (some a) = a ∷ []

module _ {A : Type 0} where
  pub emit-queue : (o : Option A) (q : MessageQueue A) → (emit o q).queue ≡ q.queue ++ to_list o
  unfolding emit push
  emit-queue none q = sym (append-nil q.queue)
  emit-queue (some a) q = refl

  pub emit-closed : (o : Option A) (q : MessageQueue A) → (emit o q).closed ≡ q.closed
  unfolding emit push
  emit-closed none q = refl
  emit-closed (some a) q = refl

  pub length-to_list : (o : Option A) → length (to_list o) ≡ (if is_some o then 1 else 0)
  length-to_list none = refl
  length-to_list (some a) = refl

  pub emit-length :
      (o : Option A) (q : MessageQueue A) → length (emit o q).queue ≤ length q.queue + 1
  unfolding emit push
  emit-length none q = omega arith
  emit-length (some a) q = omega (arith, length-append q.queue (a ∷ []))

  -- The queue is left only when it is empty, and closed or with a stop requested.
  pub wait_pop-none :
      (stop : Bool) (q q' : MessageQueue A)
      → wait_pop stop q ≡ returns none q'
      → (q.closed || stop ≡ true) × (q.queue ≡ []) × (q' ≡ q)
  unfolding wait_pop
  wait_pop-none stop q q' h = ground arith

  pub wait_pop-some :
      (stop : Bool) (q q' : MessageQueue A) (a : A)
      → wait_pop stop q ≡ returns (some a) q'
      → (q.queue ≡ a ∷ q'.queue) × (q'.closed ≡ q.closed)
  unfolding wait_pop
  wait_pop-some stop q q' a h = ground arith

  -- A closed queue never makes `WaitPop` wait.
  pub wait_pop-closed :
      (stop : Bool) (q : MessageQueue A)
      → q.closed ≡ true
      → (wait_pop stop q ≡ returns none q)
        ⊎ ((message : A) × (q' : MessageQueue A) × (wait_pop stop q ≡ returns (some message) q'))
  unfolding wait_pop
  wait_pop-closed stop q h = elim (List-cases q.queue) [
    | inl e ↦ inl (rw (e, h) refl)
    | inr (message, rest, e) ↦ inr (message, record q { queue = rest }, rw e refl)
  ]

pub record_parse_result-lem :
    (e : _) (m : ParseMetrics)
    → ((record_parse_result e m).total ≡ add64 m.total 1)
      × ((record_parse_result e m).success
          ≡ (if is_no_error e then add64 m.success 1 else m.success))
unfolding record_parse_result
record_parse_result-lem e m = ground arith

pub add64-mod : (n k : ℕ) → k ≡ n % u64_mod → add64 k 1 ≡ (n + 1) % u64_mod
add64-mod n k h = omega arith

pub success-lem :
    (n k : ℕ) (b : Bool)
    → k ≡ n % u64_mod
    → (if b then add64 k 1 else k) ≡ (n + (if b then 1 else 0)) % u64_mod
success-lem n k b h = ground (arith, add64-mod n k h)
