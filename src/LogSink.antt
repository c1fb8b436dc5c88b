-- ===== src/LogSink.antt =====
-- src/testbridge/log_sink.h and .cpp, `LogSink`: the ring of the latest log lines, and the questions put to it.
-- What spdlog gives of a message is its level's name, its formatted text and its time. The regular
-- expressions are a parameter, whose building can throw. The mutex makes a look at the ring one step.
pub mod Latest
pub mod Waiting
mod Examples
use Prim.Native.String
use mathlib.Core.List.{reverse}
use qml_and_bgfx_testbridge.Prelude.{
  ℕ, zero, suc, ◌+◌, ◌-◌, Bool, true, false, not, ◌&&◌, List, [], ◌∷◌, ◌++◌, Option, none, some,
  String, str_eq, ltb, leb, if◌then◌else◌, length, drop,
}
use qml_and_bgfx_testbridge.Prelude.Int.{ℤ, ◌+ℤ◌, ltb_ℤ}
use qml_and_bgfx_testbridge.Json.{Json, null, string, integer, object_of, array_of}
use qml_and_bgfx_testbridge.Rpc.{Outcome, returns, throws, throws_other}

-- `kMaxLines`
abbrev pub max_lines : ℕ
max_lines = 4096

pub record Entry : Type 0 where
  pub level : String
  pub text : String
  pub ts_ms : ℤ

-- `text.pop_back()` of a newline at the end.
unfoldable pub drop_newline : String → String
drop_newline String.[] = String.[]
drop_newline (String.◌∷◌ c s) =
    let rest = drop_newline s in
    if str_eq (String.◌∷◌ c s) "\n" then String.[] else String.◌∷◌ c rest

-- `m_ring`, its front first.
unfoldable pub push_entry : Entry → List Entry → List Entry
push_entry e ring =
    let grown = ring ++ e ∷ [] in if ltb max_lines (length grown) then drop 1 grown else grown

unfoldable pub sink_it : String → String → ℤ → List Entry → List Entry
sink_it level formatted ts_ms ring =
    push_entry (record { level = level; text = drop_newline formatted; ts_ms = ts_ms }) ring

-- The object that stands for a line.
unfoldable pub entry_json : Entry → Json
entry_json e =
    object_of
      (("level", string e.level) ∷ ("text", string e.text) ∷ ("ts_ms", integer e.ts_ms) ∷ [])

-- The loop of `recent` over the lines from the newest on. Each is put in front of those found.
unfoldable pub recent_loop : (String → Bool) → ℕ → ℕ → List Entry → List Json → List Json
recent_loop matches count most [] arr = arr
recent_loop matches count most (e ∷ older) arr =
    let taken = recent_loop matches (suc count) most older (entry_json e ∷ arr) in
    let passed = recent_loop matches count most older arr in
    if ltb count most then if matches e.text then taken else passed else arr

-- The loop of `wait` over the lines from the newest on.
unfoldable pub newest_match : (String → Bool) → List Entry → Option Entry
newest_match matches [] = none
newest_match matches (e ∷ older) =
    let passed = newest_match matches older in if matches e.text then some e else passed

-- Its outer loop over the looks at the ring, the first and one after each waking, each with the time after it.
-- `none` is to wait still.
unfoldable pub wait_loop : (String → Bool) → ℤ → List (List Entry × ℤ) → Option Json
wait_loop matches deadline [] = none
wait_loop matches deadline ((ring, now) ∷ later) =
    look (newest_match matches (reverse ring)) (wait_loop matches deadline later)
  where
    look : Option Entry → Option Json → Option Json
    look (some e) rest = some (entry_json e)
    look none rest = if ltb_ℤ now deadline then rest else some null

module _ (regex_of : String → Outcome (String → Bool)) where
  -- `use_re` and `re`: with no expression every line is taken.
  unfoldable pub matcher : String → Outcome (String → Bool)
  matcher regex = if str_eq regex "" then returns (λ text. true) else regex_of regex

  unfoldable pub recent : ℕ → String → List Entry → Outcome Json
  recent most regex ring = found (matcher regex)
    where
      found : Outcome (String → Bool) → Outcome Json
      found (returns re) = returns (array_of (recent_loop re 0 most (reverse ring) []))
      found (throws what) = throws what
      found throws_other = throws_other

  unfoldable pub wait : String → ℤ → ℤ → List (List Entry × ℤ) → Outcome (Option Json)
  wait regex timeout_ms start looks = with_regex (regex_of regex)
    where
      with_regex : Outcome (String → Bool) → Outcome (Option Json)
      with_regex (returns re) = returns (wait_loop re (start +ℤ timeout_ms) looks)
      with_regex (throws what) = throws what
      with_regex throws_other = throws_other
