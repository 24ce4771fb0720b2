-- ===== src/Sharded/Lines.antt =====
-- What arrives behind a sharded sink of rusty-gasket/src/observability/sharded.rs.
use mathlib.Core.List.{append-nil, append_assoc, nil-sublist, sublist-append_left}
use mathlib.Core.List.Sublist
use mathlib.Core.List.{Sublist}
use rusty_gasket.Common.{
  ◌≡◌, refl, sym, ap, ◌∙◌, List, [], ◌∷◌, ◌++◌, Option, none, some, inl, inr, Bool-cases, concat,
  ◌⊎◌, ◌≤◌, arith,
}
use rusty_gasket.Common.Text.{Text, codes}
use rusty_gasket.Sharded.{
  ShardedSinkConfig, to_sink_config, Sink, ShardedLineWriter, make_writer, write, write_pieces,
  line_of, Pipeline, PipelineEvent, offers, drains, emit_all, pipeline_step, pipeline, LogEvent,
  logs, flushes, append_line, to_events, log_output,
}

module _ {S Item Out : Type 0} (sink : Sink S Item) (emit : Out → Item → Out) where
  emit_all-append :
      (xs ys : List Item) (out : Out)
      → emit_all sink emit (xs ++ ys) out ≡ emit_all sink emit ys (emit_all sink emit xs out)
  unfolding emit_all
  emit_all-append [] ys out = refl
  emit_all-append (x ∷ xs) ys out = emit_all-append xs ys (emit out x)

  -- What was offered, the oldest first.
  abbrev pub offered : List (PipelineEvent sink emit) → List Item
  offered [] = []
  offered (offers none ∷ earlier) = offered earlier
  offered (offers (some i) ∷ earlier) = offered earlier ++ i ∷ []
  offered (drains ∷ earlier) = offered earlier

  -- The items that the sink kept: those that were emitted, and those that wait.
  pub record IsWhole (out : Out) (events : List (PipelineEvent sink emit)) (p : Pipeline sink emit)
      : Type 0 where
    pub emitted : List Item
    pub kept : Sublist (emitted ++ sink.contents p.queue) (offered events)
    pub written : p.out ≡ emit_all sink emit emitted out

  pipeline-IsWhole :
      (c : ShardedSinkConfig) (name : Text) (out : Out) (events : List (PipelineEvent sink emit))
      → IsWhole out events (pipeline sink emit c name out events)
  unfolding pipeline pipeline_step emit_all
  pipeline-IsWhole c name out [] =
      let empty = sink.contents_spawn (to_sink_config c name) in
      record { emitted = []; kept = rw empty (Sublist.refl []); written = refl }
  pipeline-IsWhole c name out (offers none ∷ earlier) =
      let h = pipeline-IsWhole c name out earlier in
      record { emitted = h.emitted; kept = h.kept; written = h.written }
  pipeline-IsWhole c name out (offers (some i) ∷ earlier) =
      let h = pipeline-IsWhole c name out earlier in
      let queue = (pipeline sink emit c name out earlier).queue in
      elim (Bool-cases (sink.push queue i).1) [
        | inl taken ↦ record {
          emitted = h.emitted;
          kept =
              rw
                (
                  sink.contents_kept queue i taken,
                  ← append_assoc h.emitted (sink.contents queue) (i ∷ []),
                )
                (Sublist.append h.kept (Sublist.refl (i ∷ [])));
          written = h.written;
        }
        | inr shed ↦ record {
          emitted = h.emitted;
          kept =
              rw (sink.contents_shed queue i shed, ← append-nil (h.emitted ++ sink.contents queue))
                (Sublist.append h.kept (nil-sublist (i ∷ [])));
          written = h.written;
        }
      ]
  pipeline-IsWhole c name out (drains ∷ earlier) =
      let h = pipeline-IsWhole c name out earlier in
      let queue = (pipeline sink emit c name out earlier).queue in
      let batch = sink.take_batch queue in
      record {
        emitted = h.emitted ++ batch.0;
        kept =
            rw (append_assoc h.emitted batch.0 (sink.contents batch.1), sink.contents_batch queue)
              h.kept;
        written =
            ap (emit_all sink emit batch.0) h.written ∙ sym (emit_all-append h.emitted batch.0 out);
      }

-- The whole text of each event, the oldest first.
abbrev pub texts_of : List LogEvent → List Text
texts_of [] = []
texts_of (logs pieces ∷ earlier) = texts_of earlier ++ concat pieces ∷ []
texts_of (flushes ∷ earlier) = texts_of earlier

write_pieces-buf :
    (w : ShardedLineWriter) (pieces : List Text)
    → (write_pieces w pieces).buf ≡ w.buf ++ concat pieces
unfolding write_pieces write
write_pieces-buf w [] = sym (append-nil w.buf)
write_pieces-buf w (piece ∷ pieces) =
    write_pieces-buf (write w piece) pieces ∙ append_assoc w.buf piece (concat pieces)

buffered : Text → Option Text
buffered [] = none
buffered (b ∷ bs) = some (b ∷ bs)

buffered-cases : (s : Text) → (buffered s ≡ none) ⊎ (buffered s ≡ some s)
unfolding buffered
buffered-cases [] = inl refl
buffered-cases (b ∷ bs) = inr refl

line_of-buffered : (w : ShardedLineWriter) → line_of w ≡ buffered w.buf
unfolding buffered
line_of-buffered w = elim w.buf as (λ b. line_of (record { buf = b }) ≡ buffered b) [
  | [] ↦ refl
  | b ∷ bs ↦ refl
]

emit_lines :
    {S : Type 0} (sink : Sink S Text) (lines : List Text) (out : Text)
    → emit_all sink append_line lines out ≡ out ++ concat lines
unfolding emit_all
emit_lines sink [] out = sym (append-nil out)
emit_lines sink (line ∷ lines) out =
    emit_lines sink lines (out ++ line) ∙ append_assoc out line (concat lines)

module _ {S : Type 0} (sink : Sink S Text) where
  offered-texts :
      (events : List LogEvent)
      → Sublist (offered sink append_line (to_events sink events)) (texts_of events)
  offered-texts [] = Sublist.refl []
  offered-texts (flushes ∷ earlier) = offered-texts earlier
  offered-texts (logs pieces ∷ earlier) =
      let w = write_pieces make_writer pieces in
      let whole = write_pieces-buf make_writer pieces in
      let below = offered-texts earlier in
      elim (buffered-cases w.buf) [
        | inl nothing ↦
            rw
              (
                line_of-buffered w ∙ nothing,
                ← append-nil (offered sink append_line (to_events sink earlier)),
              )
              (Sublist.append below (nil-sublist (concat pieces ∷ [])))
        | inr line ↦
            rw (line_of-buffered w ∙ line, whole)
              (Sublist.append below (Sublist.refl (concat pieces ∷ [])))
      ]

  -- Behind a sink with one shard, however its pushes and drains interleave and whatever it sheds, a
  -- writer that takes every byte receives whole lines only, each the text of one event, in the order
  -- of the events.
  pub log_output-lines :
      (c : ShardedSinkConfig) (events : List LogEvent)
      → (lines : List Text) × Sublist lines (texts_of events)
        × (log_output sink c events ≡ concat lines)
  log_output-lines c events =
      let h =
        pipeline-IsWhole sink append_line c (codes "rusty-gasket-log") [] (to_events sink events) in
      let p = pipeline sink append_line c (codes "rusty-gasket-log") [] (to_events sink events) in
      (
        h.emitted,
        Sublist.trans (Sublist.trans (sublist-append_left h.emitted (sink.contents p.queue)) h.kept)
            (offered-texts events),
        h.written ∙ emit_lines sink h.emitted [],
      )

-- Every size that reaches the sink is positive.
to_sink_config-positive :
    (c : ShardedSinkConfig) (name : Text)
    → let s = to_sink_config c name in
      (1 ≤ s.shards) × (1 ≤ s.ring_capacity) × (1 ≤ s.drain_batch) × (1 ≤ s.idle_sleep_micros)
unfolding to_sink_config
to_sink_config-positive c name = (omega arith, omega arith, omega arith, omega arith)
