-- ===== src/Sharded.antt =====
-- rusty-gasket/src/observability/sharded.rs: log lines and audit events that go through a
-- `sharded_sink::ShardedSink` with one shard. The crate's sink is the record `Sink`; a line is its
-- bytes.
pub mod Lines
use rusty_gasket.Common.{
  ℕ, ◌*◌, max, ◌≡◌, Bool, true, false, List, [], ◌∷◌, ◌++◌, Option, none, some, if◌then◌else◌,
}
use rusty_gasket.Common.Text.{Text, codes}

pub record ShardedSinkConfig : Type 0 where
  pub enabled : Bool
  pub shards : ℕ
  pub ring_capacity : ℕ
  pub drain_batch : ℕ
  pub idle_sleep_micros : ℕ
  pub shutdown_timeout_secs : Option ℕ

abbrev pub default_config : ShardedSinkConfig
default_config = record {
  enabled = false;
  shards = 1;
  ring_capacity = 8192;
  drain_batch = 256;
  idle_sleep_micros = 100;
  shutdown_timeout_secs = some 5;
}

pub record SinkConfig : Type 0 where
  pub name : Text
  pub shards : ℕ
  pub ring_capacity : ℕ
  pub drain_batch : ℕ
  pub idle_sleep_micros : ℕ
  pub shutdown_timeout_secs : Option ℕ

unfoldable pub to_sink_config : ShardedSinkConfig → Text → SinkConfig
to_sink_config c name = record {
  name = name;
  shards = max c.shards 1;
  ring_capacity = max c.ring_capacity 1;
  drain_batch = max c.drain_batch 1;
  idle_sleep_micros = max c.idle_sleep_micros 1;
  shutdown_timeout_secs = c.shutdown_timeout_secs;
}

-- A sink with one shard: `push` says whether it kept the record, and the records that it kept are taken
-- out in the order in which they came.
pub record Sink (S Item : Type 0) : Type 0 where
  pub spawn : SinkConfig → S
  pub push : S → Item → S × Bool
  pub take_batch : S → List Item × S
  pub contents : S → List Item
  pub contents_spawn : (c : SinkConfig) → contents (spawn c) ≡ []
  pub contents_kept :
      (s : S) (i : Item) → (push s i).1 ≡ true → contents (push s i).0 ≡ contents s ++ i ∷ []
  pub contents_shed : (s : S) (i : Item) → (push s i).1 ≡ false → contents (push s i).0 ≡ contents s
  pub contents_batch : (s : S) → (take_batch s).0 ++ contents (take_batch s).1 ≡ contents s

-- `ShardedLineWriter`, for one event.
pub record ShardedLineWriter : Type 0 where
  pub buf : Text

abbrev pub make_writer : ShardedLineWriter
make_writer = record { buf = [] }

unfoldable pub write : ShardedLineWriter → Text → ShardedLineWriter
write w bytes = record { buf = w.buf ++ bytes }

unfoldable pub write_pieces : ShardedLineWriter → List Text → ShardedLineWriter
unfolding write
write_pieces w [] = w
write_pieces w (piece ∷ pieces) = write_pieces (write w piece) pieces

-- What its `drop` pushes.
abbrev pub line_of : ShardedLineWriter → Option Text
line_of w = elim w.buf [ [] ↦ none | b ∷ bs ↦ some (b ∷ bs) ]

module _ {S Item Out : Type 0} (sink : Sink S Item) (emit : Out → Item → Out) where
  -- The sink, and what the drain worker has emitted.
  pub record Pipeline : Type 0 where
    pub queue : S
    pub out : Out

  pub data PipelineEvent : Type 0 where
    offers : Option Item → PipelineEvent
    drains : PipelineEvent

  -- `WriteDrain::drain` and `AuditDrain::drain`: every item of the batch, in its order.
  unfoldable pub emit_all : List Item → Out → Out
  emit_all [] out = out
  emit_all (i ∷ items) out = emit_all items (emit out i)

  unfoldable pub pipeline_step : PipelineEvent → Pipeline → Pipeline
  unfolding emit_all
  pipeline_step (offers none) p = p
  pipeline_step (offers (some i)) p = record p { queue = (sink.push p.queue i).0 }
  pipeline_step drains p = record {
    queue = (sink.take_batch p.queue).1;
    out = emit_all (sink.take_batch p.queue).0 p.out;
  }

  -- From a new sink; the last event first.
  unfoldable pub pipeline : ShardedSinkConfig → Text → Out → List PipelineEvent → Pipeline
  unfolding pipeline_step
  pipeline c name out [] = record { queue = sink.spawn (to_sink_config c name); out = out }
  pipeline c name out (e ∷ earlier) = pipeline_step e (pipeline c name out earlier)

-- What the process does with its log, and the formatter's writes of one event.
pub data LogEvent : Type 0 where
  logs : List Text → LogEvent
  flushes : LogEvent

-- `write_all` on a writer behind the sink that takes every byte.
abbrev pub append_line : Text → Text → Text
append_line out line = out ++ line

module _ {S : Type 0} (sink : Sink S Text) where
  abbrev pub to_event : LogEvent → PipelineEvent sink append_line
  to_event (logs pieces) = offers (line_of (write_pieces make_writer pieces))
  to_event flushes = drains

  abbrev pub to_events : List LogEvent → List (PipelineEvent sink append_line)
  to_events [] = []
  to_events (e ∷ earlier) = to_event e ∷ to_events earlier

  -- What the writer has after the events, the last of which comes first.
  abbrev pub log_output : ShardedSinkConfig → List LogEvent → Text
  log_output c events =
      (pipeline sink append_line c (codes "rusty-gasket-log") [] (to_events events)).out
