-- ===== src/Queue.antt =====
-- include/queue.hpp: `MessageQueue`. Each operation runs under the mutex, so it is one step; the
-- condition variable only decides when a blocked `WaitPop` runs again.
use nyse_pillar_market_data.Prelude.{
  ℕ, Bool, true, false, List, [], ◌∷◌, ◌++◌, Option, none, some, ◌||◌, length, if◌then◌else◌,
}

pub record MessageQueue (A : Type 0) : Type 0 where
  pub queue : List A
  pub closed : Bool

-- `WaitPop` waits, or returns a message or `std::nullopt`.
pub data Waited (A : Type 0) : Type 0 where
  waits : Waited A
  returns : Option A → MessageQueue A → Waited A

module _ {A : Type 0} where
  abbrev pub new_queue : MessageQueue A
  new_queue = record { queue = []; closed = false }

  unfoldable pub push : A → MessageQueue A → MessageQueue A
  push message q = record q { queue = q.queue ++ message ∷ [] }

  -- `stop` says whether a stop is requested of the token.
  unfoldable pub wait_pop : Bool → MessageQueue A → Waited A
  wait_pop stop q = elim q.queue [
    | [] ↦ if q.closed || stop then returns none q else waits
    | message ∷ rest ↦ returns (some message) (record q { queue = rest })
  ]

  unfoldable pub close : MessageQueue A → MessageQueue A
  close q = record q { closed = true }

  unfoldable pub size : MessageQueue A → ℕ
  size q = length q.queue
