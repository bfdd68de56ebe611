-- ===== src/Examples/Loaders/Events.antt =====
-- What a trades file says, without a ledger: its trades and cancels in order, and which of the trades of a
-- symbol are cancelled after them.
use nyse_pillar_market_data.Prelude.{
  ℕ, Bool, true, false, ◌&&◌, List, [], ◌∷◌, ◌++◌, none, some, Text, text_eq, ◌==◌, if◌then◌else◌,
}
use nyse_pillar_market_data.Csv.{csv_reader, get_field}
use nyse_pillar_market_data.Csv.Fields.{StdNumbers, value, unexpected}
use nyse_pillar_market_data.Wire.Trades.{wire_trade_cancel}
use nyse_pillar_market_data.Wire.Reference.{wire_taq_trade, wire_taq_trade_correction}
use nyse_pillar_market_data.Stats.{TradeRecord}

pub data TradeEvent (D : Type 0) : Type 0 where
  trades : Text → ℕ → D → ℕ → TradeEvent D
  cancels : Text → ℕ → TradeEvent D

module _ {D : Type 0} (lib : StdNumbers D) where
  -- A Trade (220) is a trade, a Trade Cancel (221) a cancel, and a Trade Correction (222) a cancel of the
  -- original trade and a new trade. A line of another type, or that does not decode, is nothing.
  unfoldable pub line_events : Text → List (TradeEvent D)
  line_events line =
      let (reader, msg_type) = get_field 0 (csv_reader line) in
      elim msg_type [
        | none ↦ []
        | some code ↦
            if text_eq.beq code (b'2' ∷ b'2' ∷ b'0' ∷ [])
            then (elim (wire_taq_trade lib 0 reader).1 [
              | unexpected e ↦ []
              | value m ↦ trades m.header.symbol m.trade_id m.price m.volume ∷ []
            ])
            else if text_eq.beq code (b'2' ∷ b'2' ∷ b'1' ∷ [])
            then (elim (wire_trade_cancel lib 0 reader).1 [
              | unexpected e ↦ []
              | value m ↦ cancels m.header.symbol m.trade_id ∷ []
            ])
            else if text_eq.beq code (b'2' ∷ b'2' ∷ b'2' ∷ [])
            then (elim (wire_taq_trade_correction lib 0 reader).1 [
              | unexpected e ↦ []
              | value m ↦
                  cancels m.header.symbol m.original_trade_id
                  ∷ trades m.header.symbol m.trade_id m.price m.volume
                  ∷ []
            ])
            else []
      ]

  unfoldable pub file_events : List Text → List (TradeEvent D)
  file_events [] = []
  file_events (l ∷ ls) = line_events l ++ file_events ls

module _ {D : Type 0} where
  -- Whether a trade is cancelled by what comes after it: a cancel names its symbol and its id, and no
  -- trade between them takes the id over.
  unfoldable pub is_cancelled_by : Text → ℕ → List (TradeEvent D) → Bool
  is_cancelled_by s k [] = false
  is_cancelled_by s k (trades symbol id price volume ∷ es) =
      if text_eq.beq symbol s && (id == k) then false else is_cancelled_by s k es
  is_cancelled_by s k (cancels symbol id ∷ es) =
      if text_eq.beq symbol s && (id == k) then true else is_cancelled_by s k es

  -- The trades of a symbol with their ids, in order.
  unfoldable pub entries_of : Text → List (TradeEvent D) → List (ℕ × TradeRecord D)
  entries_of s [] = []
  entries_of s (trades symbol id price volume ∷ es) =
      if text_eq.beq symbol s
      then (id, record { price = price; volume = volume; cancelled = is_cancelled_by s id es })
        ∷ entries_of s es
      else entries_of s es
  entries_of s (cancels symbol id ∷ es) = entries_of s es

  abbrev pub records : List (ℕ × TradeRecord D) → List (TradeRecord D)
  records [] = []
  records (e ∷ es) = e.1 ∷ records es

  -- The trades of a symbol, with those marked that something later cancels.
  abbrev pub trades_of : Text → List (TradeEvent D) → List (TradeRecord D)
  trades_of s es = records (entries_of s es)
