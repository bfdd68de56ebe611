-- ===== src/Examples/Program.antt =====
-- What the two programs of examples/ do alike: they look for their files, run an engine on the feed up to the
-- return of `Join`, and end.
use mathlib.Core.Path.{subst}
use nyse_pillar_market_data.Prelude.{
  ◌%◌, ◌≡◌, refl, sym, ◌∙◌, Bool, true, false, List, [], Option, none, some, Text, arith, inl, inr,
  length,
}
use nyse_pillar_market_data.Prelude.Word.{u64_mod}
use nyse_pillar_market_data.Message.{Message}
use nyse_pillar_market_data.Sequence.{ParserData, new_parser_data}
use nyse_pillar_market_data.Csv.Fields.{StdNumbers}
use nyse_pillar_market_data.Engine.{nyse_pillar}
use nyse_pillar_market_data.Engine.Steps.Running.{messages}
use nyse_pillar_market_data.Engine.Lifetime.{
  IngestPhase, ended, failed, joined, on_path, LifetimeState, construct_on_path,
  construct_on_path-some, Reach, get_total, get_egress_count,
}
use nyse_pillar_market_data.Engine.Lifetime.Outcome.{joined-outcome}
use nyse_pillar_market_data.NyseParser.Emission.{nyse_parser}

-- A path: nothing is there, it cannot be opened, or its lines can be read.
pub data File : Type 0 where
  missing unreadable : File
  readable : List Text → File

-- `std::filesystem::exists`.
abbrev pub exists : File → Bool
exists missing = false
exists _ = true

-- `std::ifstream`, with `is_open`.
abbrev pub open_file : File → Option (List Text)
open_file (readable lines) = some lines
open_file _ = none

abbrev pub lines_of : File → List Text
lines_of (readable lines) = lines
lines_of _ = []

-- How a program ends: `return 1`, by an exception that leaves `main`, or by `return 0` after its report.
pub data Exit (R : Type 0) : Type 0 where
  failure aborted : Exit R
  success : R → Exit R

-- Where the ingest thread ends on a file: `is_open` holds exactly where the lines can be read.
abbrev pub phase_after : File → IngestPhase Text
phase_after (readable lines) = ended
phase_after _ = failed

module _ {D : Type 0} (lib : StdNumbers D) where
  -- An engine on the file after `Join`.
  pub record IsJoined (file : File) (s : LifetimeState (Message D) Text ParserData) : Type 0 where
    pub start : LifetimeState (Message D) Text ParserData
    pub constructed :
        construct_on_path nyse_pillar (exists file) (lines_of file) new_parser_data ≡ some start
    pub reach : Reach (nyse_parser lib) start s
    pub owner_joined : s.owner ≡ joined
    pub opened : s.phase ≡ phase_after file

  abbrev pub feed_of : File → List (Message D)
  feed_of file = messages (nyse_parser lib) new_parser_data (lines_of file)

  failed-feed :
      (file : File) → phase_after file ≡ failed → (feed_of file ≡ []) × (lines_of file ≡ [])
  unfolding messages
  failed-feed (readable lines) e = absurd (ground arith)
  failed-feed missing e = (refl, refl)
  failed-feed unreadable e = (refl, refl)

  -- Whatever the interleaving, and also where the file cannot be opened, the callback has taken the messages
  -- of its lines, and the counts are theirs.
  pub IsJoined-feed :
      (file : File) (s : LifetimeState (Message D) Text ParserData)
      → IsJoined file s
      → (s.delivered ≡ feed_of file)
        × (get_egress_count s ≡ length (feed_of file) % u64_mod)
        × (get_total s ≡ length (lines_of file) % u64_mod)
  IsJoined-feed file s h =
      let lp = nyse_parser lib in
      let start =
        construct_on_path-some nyse_pillar (exists file) (lines_of file) new_parser_data h.start
          h.constructed in
      let reach = subst (λ t. Reach lp t s) start h.reach in
      elim (joined-outcome lp on_path (lines_of file) new_parser_data reach h.owner_joined) [
        | inl (e, taken, count, successes, total) ↦ (taken, count, total)
        | inr (e, taken, count, successes, total) ↦
            let (nothing, no_line) = failed-feed file (sym h.opened ∙ e) in
            (rw nothing taken, rw nothing (omega (arith, count)), rw no_line (omega (arith, total)))
      ]
