-- ===== src/LogSink/Examples.antt =====
-- Tests of log_sink.cpp, and its theorems at inputs.
use qml_and_bgfx_testbridge.Prelude.{◌≡◌, refl, Bool, List, [], ◌∷◌, map, String, str_eq}
use qml_and_bgfx_testbridge.Prelude.Int.{pos, ℤ}
use qml_and_bgfx_testbridge.Json.{array_of}
use qml_and_bgfx_testbridge.Rpc.{Outcome, returns}
use qml_and_bgfx_testbridge.LogSink.{
  Entry, max_lines, drop_newline, entry_json, recent, wait_loop, matcher,
}
use qml_and_bgfx_testbridge.LogSink.Latest.{
  Message, entry_of, sink_all, latest, kept, sink_all_lem, recent_lem,
}
use qml_and_bgfx_testbridge.LogSink.Waiting.{Waited, wait_loop-Waited}

newline_dropped : drop_newline "a line\n" ≡ "a line"
unfolding drop_newline
newline_dropped = refl

abbrev message : String → Message
message text = record { level = "info"; formatted = text; ts_ms = pos 5 }

abbrev messages : List Message
messages = message "one\n" ∷ message "two\n" ∷ []

sink_all_lem_example : sink_all messages [] ≡ latest max_lines (map entry_of messages)
sink_all_lem_example = sink_all_lem messages

abbrev exactly : String → Outcome (String → Bool)
exactly regex = returns (λ text. str_eq text regex)

abbrev ring : List Entry
ring = map entry_of messages

recent_lem_example :
    recent exactly 1 "two" ring
    ≡ returns (array_of (map entry_json (latest 1 (kept (λ text. str_eq text "two") ring))))
unfolding matcher
recent_lem_example = recent_lem exactly (λ text. str_eq text "two") 1 "two" ring refl

abbrev looks : List (List Entry × ℤ)
looks = ([], pos 1) ∷ (ring, pos 2) ∷ []

wait_loop-Waited_example :
    Waited
      (λ text. str_eq text "two")
      (pos 9)
      looks
      (wait_loop (λ text. str_eq text "two") (pos 9) looks)
wait_loop-Waited_example = wait_loop-Waited (λ text. str_eq text "two") (pos 9) looks
