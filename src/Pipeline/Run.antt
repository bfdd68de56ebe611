-- ===== src/Pipeline/Run.antt =====
-- A run of the pipeline on a file of one trade and one order.
use nyse_pillar_market_data.Prelude.{inr, refl, true, false, List, [], ◌∷◌, Text, text_eq, nat_eq}
use nyse_pillar_market_data.Double.{Ticks, ticks_double}
use nyse_pillar_market_data.Map.{find}
use nyse_pillar_market_data.Message.{Message, non_displayed_trade, add_order}
use nyse_pillar_market_data.Queue.{MessageQueue, wait_pop, push, close}
use nyse_pillar_market_data.Sequence.{ParserData, new_parser_data, no_error}
use nyse_pillar_market_data.Csv.{get_field, scan, field_start}
use nyse_pillar_market_data.Csv.Fields.{
  parse_std_type, parse_source_time, populate_string, populate_char, populate_with,
  populate_optional,
}
use nyse_pillar_market_data.Csv.Decimal.{decimal}
use nyse_pillar_market_data.Wire.{message_header, per_symbol_header}
use nyse_pillar_market_data.Wire.Orders.{wire_add_order}
use nyse_pillar_market_data.Wire.Trades.{wire_non_displayed_trade}
use nyse_pillar_market_data.NyseParser.{type_of, decode, parse_next}
use nyse_pillar_market_data.NyseParser.Emission.{nyse_parser}
use nyse_pillar_market_data.Engine.{validate_ingest_type, emit}
use nyse_pillar_market_data.Examples.Program.{readable, IsJoined}
use nyse_pillar_market_data.Engine.Lifetime.{
  parsing, reading, ingest_join, egress_join, joined, on_path, LifetimeState, new_engine,
  construct_on_path, parse_line, count_result, leave_loop, deliver, owner_close, opens, takes_line,
  parses, counts, leaves_loop, delivers, ends_egress, calls_join, joins_ingest, joins_egress, Reach,
  here, then_step,
}

abbrev pub symbol : Text
symbol = b'A' ∷ []

abbrev pub line : Text
line =
    b'1' ∷ b'1' ∷ b'0' ∷ b',' ∷ b'5' ∷ b',' ∷ b'0' ∷ b'1' ∷ b':' ∷ b'0' ∷ b'0' ∷ b':' ∷ b'0' ∷ b'0'
    ∷ b'.' ∷ b'0' ∷ b'0' ∷ b'0' ∷ b'0' ∷ b'0' ∷ b'0' ∷ b'0' ∷ b'0' ∷ b'7' ∷ b',' ∷ b'A' ∷ b','
    ∷ b'7' ∷ b',' ∷ b'1' ∷ b',' ∷ b'9' ∷ b'0' ∷ b',' ∷ b'5' ∷ b'0' ∷ b',' ∷ b'1' ∷ b',' ∷ b','
    ∷ b',' ∷ b',' ∷ []

abbrev pub order_line : Text
order_line =
    b'1' ∷ b'0' ∷ b'0' ∷ b',' ∷ b'6' ∷ b',' ∷ b'0' ∷ b'1' ∷ b':' ∷ b'0' ∷ b'0' ∷ b':' ∷ b'0' ∷ b'0'
    ∷ b'.' ∷ b'0' ∷ b'0' ∷ b'0' ∷ b'0' ∷ b'0' ∷ b'0' ∷ b'0' ∷ b'0' ∷ b'7' ∷ b',' ∷ b'A' ∷ b','
    ∷ b'8' ∷ b',' ∷ b'2' ∷ b',' ∷ b'1' ∷ b'0' ∷ b'0' ∷ b',' ∷ b'3' ∷ b'0' ∷ b',' ∷ b'B' ∷ b','
    ∷ b'F' ∷ b',' ∷ []

abbrev pub lines : List Text
lines = line ∷ order_line ∷ []

abbrev pub trade : Message Ticks
trade = non_displayed_trade (record {
  nanos_since_midnight = 3600000000007;
  symbol = symbol;
  symbol_seq_num = 7;
  trade_id = 1;
  price = 90;
  volume = 50;
  printed_to_sip = true;
})

abbrev pub order : Message Ticks
order = add_order (record {
  nanos_since_midnight = 3600000000007;
  symbol = symbol;
  symbol_seq_num = 8;
  order_id = 2;
  price = 100;
  volume = 30;
  side = b'B';
  firm_id = b'F' ∷ [];
})

abbrev pub State : Type 0
State = LifetimeState (Message Ticks) Text ParserData

abbrev pub started : State
started = new_engine on_path lines new_parser_data

abbrev pub reading1 : State
reading1 = record started { phase = reading }

-- A line is taken, parsed and counted.
abbrev pub after_line : Text → List Text → State → State
after_line l rest s =
    count_result no_error
      (parse_line (nyse_parser decimal) l (record s { phase = parsing l; input = rest }))

abbrev pub counted : State
counted = after_line order_line [] (after_line line (order_line ∷ []) reading1)

abbrev pub holding : MessageQueue (Message Ticks)
holding = record { queue = order ∷ []; closed = false }

abbrev pub popped : MessageQueue (Message Ticks)
popped = record { queue = []; closed = false }

abbrev pub closed : State
closed =
    owner_close egress_join
      (record (leave_loop (deliver order popped (deliver trade holding counted))) {
        owner = ingest_join;
      })

abbrev pub done : State
done = record closed { egressing = false; owner = joined }

pub trace_lines : Reach (nyse_parser decimal) started counted
unfolding parse_line count_result leave_loop deliver emit push wait_pop owner_close close parse_next
    message_header type_of find decode wire_non_displayed_trade wire_add_order per_symbol_header
    get_field scan field_start parse_std_type parse_source_time populate_string populate_char
    populate_with populate_optional
trace_lines =
    then_step
      (then_step
        (then_step
          (then_step
            (then_step
              (then_step (then_step here (opens refl refl))
                (takes_line line (order_line ∷ []) refl refl refl refl))
              (parses line refl refl))
            (counts no_error refl refl))
          (takes_line order_line [] refl refl refl refl))
        (parses order_line refl refl))
      (counts no_error refl refl)

pub trace : Reach (nyse_parser decimal) started done
unfolding parse_line count_result leave_loop deliver emit push wait_pop owner_close close parse_next
    message_header type_of find decode wire_non_displayed_trade wire_add_order per_symbol_header
    get_field scan field_start parse_std_type parse_source_time populate_string populate_char
    populate_with populate_optional
trace =
    then_step
      (then_step
        (then_step
          (then_step
            (then_step
              (then_step (then_step trace_lines (delivers trade holding refl refl refl))
                (delivers order popped refl refl refl))
              (leaves_loop refl (inr refl) refl))
            (calls_join refl refl))
          (joins_ingest refl refl refl))
        (ends_egress closed.queue refl refl refl))
      (joins_egress refl refl refl)

pub done-IsJoined : IsJoined decimal (readable lines) done
unfolding owner_close leave_loop construct_on_path validate_ingest_type
done-IsJoined = record {
  start = started;
  constructed = refl;
  reach = trace;
  owner_joined = refl;
  opened = refl;
}
