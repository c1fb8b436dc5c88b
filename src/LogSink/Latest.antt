-- ===== src/LogSink/Latest.antt =====
-- log_sink.cpp: the ring and the answers of `recent` against a log that forgets nothing.
use mathlib.Core.List.{reverse, reverse-cons, reverse-reverse, append_assoc, append-nil, map-append}
use qml_and_bgfx_testbridge.Prelude.{
  ℕ, zero, suc, ◌-◌, ◌≤◌, ◌<◌, ◌≡◌, refl, ap, ◌∙◌, Bool, List, [], ◌∷◌, ◌++◌, map, String, ltb, leb,
  if◌then◌else◌, length, take, drop, length-append, length-drop, arith, Bool-cases, inl, inr,
}
use qml_and_bgfx_testbridge.Prelude.Int.{ℤ}
use qml_and_bgfx_testbridge.Json.{Json, array_of}
use qml_and_bgfx_testbridge.Rpc.{Outcome, returns}
use qml_and_bgfx_testbridge.LogSink.{
  Entry, max_lines, push_entry, sink_it, drop_newline, entry_json, recent_loop, recent, matcher,
}

module _ {ℓ} {A : Type ℓ} where
  -- The last n of a list, or all.
  abbrev pub latest : ℕ → List A → List A
  latest n xs = drop (length xs - n) xs

  drop-append : (k : ℕ) (xs ys : List A) → k ≤ length xs → drop k (xs ++ ys) ≡ drop k xs ++ ys
  drop-append zero xs ys h = refl
  drop-append (suc k) [] ys h = absurd (omega arith)
  drop-append (suc k) (x ∷ xs) ys h = drop-append k xs ys (omega arith)

  drop-drop : (k : ℕ) (xs : List A) → drop 1 (drop k xs) ≡ drop (suc k) xs
  drop-drop zero [] = refl
  drop-drop zero (x ∷ xs) = refl
  drop-drop (suc k) [] = refl
  drop-drop (suc k) (x ∷ xs) = drop-drop k xs

  take-append : (k : ℕ) (xs ys : List A) → k ≤ length xs → take k (xs ++ ys) ≡ take k xs
  take-append zero xs ys h = refl
  take-append (suc k) [] ys h = absurd (omega arith)
  take-append (suc k) (x ∷ xs) ys h = ap (◌∷◌ x) (take-append k xs ys (omega arith))

  take-all : (k : ℕ) (xs : List A) → length xs ≤ k → take k xs ≡ xs
  take-all zero [] h = refl
  take-all zero (x ∷ xs) h = absurd (omega arith)
  take-all (suc k) [] h = refl
  take-all (suc k) (x ∷ xs) h = ap (◌∷◌ x) (take-all k xs (omega arith))

  reversed_length : (xs : List A) → length (reverse xs) ≡ length xs
  reversed_length [] = refl
  reversed_length (x ∷ xs) =
      rw (reverse-cons x xs)
        (omega (arith, length-append (reverse xs) (x ∷ []), reversed_length xs))

  drop-nil : (n : ℕ) → drop {A = A} n [] ≡ []
  drop-nil zero = refl
  drop-nil (suc n) = refl

  take-nil : (n : ℕ) → take {A = A} n [] ≡ []
  take-nil zero = refl
  take-nil (suc n) = refl

  -- Taken from the end.
  reverse-take-reverse : (n : ℕ) (xs : List A) → reverse (take n (reverse xs)) ≡ latest n xs
  reverse-take-reverse n [] = rw (drop-nil (0 - n), take-nil n) refl
  reverse-take-reverse n (x ∷ xs) = elim (Bool-cases (leb n (length xs))) [
    | inl short ↦
        let k : suc (length xs) - n ≡ suc (length xs - n) = ground arith in
        let few : n ≤ length (reverse xs) = ground (arith, reversed_length xs) in
        rw (reverse-cons x xs, take-append n (reverse xs) (x ∷ []) few, k)
          (reverse-take-reverse n xs)
    | inr long ↦
        let k : suc (length xs) - n ≡ 0 = ground arith in
        let many : length (reverse (x ∷ xs)) ≤ n = ground (arith, reversed_length (x ∷ xs)) in
        rw (take-all n (reverse (x ∷ xs)) many, k) (reverse-reverse (x ∷ xs))
  ]

  -- A push on the latest n with n positive gives the latest n.
  push-latest :
      (n : ℕ) (xs : List A) (e : A)
      → 0 < n
      → let grown = latest n xs ++ e ∷ [] in
        (if ltb n (length grown) then drop 1 grown else grown) ≡ latest n (xs ++ e ∷ [])
  push-latest n xs e positive =
      let len = length-append (latest n xs) (e ∷ []) in
      let cut = length-drop (length xs - n) xs in
      let all = length-append xs (e ∷ []) in
      elim (Bool-cases (ltb n (length (latest n xs ++ e ∷ [])))) [
        | inl full ↦
            let k : length (xs ++ e ∷ []) - n ≡ suc (length xs - n) = ground arith in
            let some_left : suc (length xs - n) ≤ length (xs ++ e ∷ []) = omega arith in
            rw (full, k, ← drop-append (length xs - n) xs (e ∷ []) (omega arith))
              (drop-drop (length xs - n) (xs ++ e ∷ []))
        | inr room ↦
            let k : length xs - n ≡ 0 = ground arith in
            let k' : length (xs ++ e ∷ []) - n ≡ 0 = ground arith in rw (room, k', k) refl
      ]

-- What spdlog hands over of a message.
pub record Message : Type 0 where
  pub level : String
  pub formatted : String
  pub ts_ms : ℤ

abbrev pub entry_of : Message → Entry
entry_of m = record { level = m.level; text = drop_newline m.formatted; ts_ms = m.ts_ms }

unfoldable pub sink_all : List Message → List Entry → List Entry
sink_all [] ring = ring
sink_all (m ∷ ms) ring = sink_all ms (sink_it m.level m.formatted m.ts_ms ring)

sink_all-latest :
    (ms : List Message) (xs : List Entry)
    → sink_all ms (latest max_lines xs) ≡ latest max_lines (xs ++ map entry_of ms)
unfolding sink_all sink_it push_entry
sink_all-latest [] xs = rw append-nil refl
sink_all-latest (m ∷ ms) xs = rw (push-latest max_lines xs (entry_of m) (omega arith)) (
    sink_all-latest ms (xs ++ entry_of m ∷ [])
    ∙ rw (append_assoc xs (entry_of m ∷ []) (map entry_of ms)) refl)

-- However many messages are logged from the start: the ring holds the last 4096 of them in their order, or all
-- of them.
pub sink_all_lem : (ms : List Message) → sink_all ms [] ≡ latest max_lines (map entry_of ms)
sink_all_lem ms = sink_all-latest ms []

abbrev pub kept : (String → Bool) → List Entry → List Entry
kept matches [] = []
kept matches (e ∷ es) = let rest = kept matches es in if matches e.text then e ∷ rest else rest

kept-append :
    (matches : String → Bool) (xs ys : List Entry)
    → kept matches (xs ++ ys) ≡ kept matches xs ++ kept matches ys
kept-append matches [] ys = refl
kept-append matches (x ∷ xs) ys = elim (Bool-cases (matches x.text)) [
  | inl e ↦ rw e (ap (◌∷◌ x) (kept-append matches xs ys))
  | inr e ↦ rw e (kept-append matches xs ys)
]

pub kept-reverse :
    (matches : String → Bool) (xs : List Entry)
    → kept matches (reverse xs) ≡ reverse (kept matches xs)
kept-reverse matches [] = refl
kept-reverse matches (x ∷ xs) =
    rw (reverse-cons x xs, kept-append matches (reverse xs) (x ∷ []), kept-reverse matches xs)
      (elim (Bool-cases (matches x.text)) [
        | inl e ↦ rw (e, reverse-cons x (kept matches xs)) refl
        | inr e ↦ rw (e, append-nil) refl
      ])

recent_loop-found :
    (matches : String → Bool) (count most : ℕ) (older : List Entry) (arr : List Json)
    → recent_loop matches count most older arr
      ≡ map entry_json (reverse (take (most - count) (kept matches older))) ++ arr
unfolding recent_loop
recent_loop-found matches count most [] arr = rw (take-nil (most - count)) refl
recent_loop-found matches count most (e ∷ older) arr = elim (Bool-cases (ltb count most)) [
  | inl more ↦ rw more (elim (Bool-cases (matches e.text)) [
    | inl hit ↦
        let k : most - count ≡ suc (most - suc count) = ground arith in
        let found = reverse (take (most - suc count) (kept matches older)) in
        rw
          (
            hit,
            k,
            reverse-cons e (take (most - suc count) (kept matches older)),
            map-append,
            append_assoc,
          )
          (recent_loop-found matches (suc count) most older (entry_json e ∷ arr))
    | inr miss ↦ rw miss (recent_loop-found matches count most older arr)
  ])
  | inr done ↦ let k : most - count ≡ 0 = ground arith in rw (done, k) refl
]

recent_loop-latest :
    (matches : String → Bool) (most : ℕ) (ring : List Entry)
    → recent_loop matches 0 most (reverse ring) []
      ≡ map entry_json (latest most (kept matches ring))
recent_loop-latest matches most ring =
    let k : most - 0 ≡ most = omega arith in
    recent_loop-found matches 0 most (reverse ring) []
    ∙ (rw (k, append-nil, kept-reverse matches ring, reverse-take-reverse most (kept matches ring))
        refl)

-- With a regular expression that is good, or none: `recent` gives the last lines of the log that match, at
-- most as many as asked for, in the order of their logging.
pub recent_lem :
    (regex_of : String → Outcome (String → Bool)) (matches : String → Bool) (most : ℕ)
    (regex : String) (ring : List Entry)
    → matcher regex_of regex ≡ returns matches
    → recent regex_of most regex ring
      ≡ returns (array_of (map entry_json (latest most (kept matches ring))))
unfolding recent
recent_lem regex_of matches most regex ring good =
    rw (good, recent_loop-latest matches most ring) refl
