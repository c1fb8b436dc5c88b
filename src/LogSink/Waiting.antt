-- ===== src/LogSink/Waiting.antt =====
-- log_sink.cpp, `wait`: the answers over the looks that it takes at the ring.
use mathlib.Core.List.{reverse, reverse-cons, reverse-append, reverse-reverse, append_assoc}
use qml_and_bgfx_testbridge.Prelude.{
  ◌≡◌, refl, sym, ap, ◌∙◌, subst, Bool, true, false, List, [], ◌∷◌, ◌++◌, Option, none, some,
  String, arith, Bool-cases, Option-cases, inl, inr,
}
use qml_and_bgfx_testbridge.Prelude.Int.{ℤ, ltb_ℤ}
use qml_and_bgfx_testbridge.Json.{Json, null}
use qml_and_bgfx_testbridge.LogSink.{Entry, entry_json, newest_match, wait_loop}
use qml_and_bgfx_testbridge.LogSink.Latest.{kept, kept-reverse}

-- A look at a ring that has no line that matches.
abbrev pub NoMatch : (String → Bool) → List Entry → Type 0
NoMatch matches ring = kept matches ring ≡ []

-- The answers of `wait`: it waits on after looks without a match before the deadline; it gives up after one at
-- the deadline or later; and it tells the last line that matches in the first ring that has one.
pub data Waited (matches : String → Bool) (deadline : ℤ)
    : List (List Entry × ℤ) → Option Json → Type 0 where
  waits : Waited matches deadline [] none
  found :
      (before after : List Entry) (e : Entry) (now : ℤ) (later : List (List Entry × ℤ))
      → matches e.text ≡ true
      → NoMatch matches after
      → Waited matches deadline ((before ++ e ∷ after, now) ∷ later) (some (entry_json e))
  gives_up :
      (ring : List Entry) (now : ℤ) (later : List (List Entry × ℤ))
      → NoMatch matches ring
      → ltb_ℤ now deadline ≡ false
      → Waited matches deadline ((ring, now) ∷ later) (some null)
  goes_on :
      (ring : List Entry) (now : ℤ) (later : List (List Entry × ℤ)) (answer : Option Json)
      → NoMatch matches ring
      → ltb_ℤ now deadline ≡ true
      → Waited matches deadline later answer
      → Waited matches deadline ((ring, now) ∷ later) answer

newest_match-none :
    (matches : String → Bool) (xs : List Entry)
    → newest_match matches xs ≡ none
    → kept matches xs ≡ []
unfolding newest_match
newest_match-none matches [] h = refl
newest_match-none matches (x ∷ xs) h = elim (Bool-cases (matches x.text)) [
  | inl e ↦ let bad = rw e at h in cc
  | inr e ↦ rw e (newest_match-none matches xs (rw e at h))
]

-- The lines newer than the match, and those older.
newest_match-split :
    (matches : String → Bool) (xs : List Entry) (e : Entry)
    → newest_match matches xs ≡ some e
    → (newer : List Entry) × (older : List Entry) × (xs ≡ newer ++ e ∷ older)
      × (matches e.text ≡ true)
      × (kept matches newer ≡ [])
unfolding newest_match
newest_match-split matches [] e h = ground arith
newest_match-split matches (x ∷ xs) e h = elim (Bool-cases (matches x.text)) [
  | inl hit ↦
      let same : x ≡ e = cc in
      ([], xs, ap (λ y. y ∷ xs) same, subst (λ y. matches y.text ≡ true) same hit, refl)
  | inr miss ↦
      let (newer, older, split, matched, none_newer) =
        newest_match-split matches xs e (rw miss at h) in
      (x ∷ newer, older, ap (◌∷◌ x) split, matched, rw miss none_newer)
]

turned :
    (matches : String → Bool) (xs : List Entry)
    → kept matches xs ≡ []
    → NoMatch matches (reverse xs)
turned matches xs h = rw (kept-reverse matches xs, h) refl

turned_back :
    (matches : String → Bool) (ring : List Entry)
    → kept matches (reverse ring) ≡ []
    → NoMatch matches ring
turned_back matches ring h = rw reverse-reverse at (turned matches (reverse ring) h)

ring_split :
    (ring newer older : List Entry) (e : Entry)
    → reverse ring ≡ newer ++ e ∷ older
    → ring ≡ reverse older ++ e ∷ reverse newer
ring_split ring newer older e split =
    sym (reverse-reverse ring)
    ∙ ap reverse split
    ∙ (rw (reverse-append newer (e ∷ older), reverse-cons e older, append_assoc) refl)

-- For a good regular expression, whatever the ring is at each look and whatever the clock shows: `wait` gives
-- up only at the deadline or after it and with no line that matches; before, it tells the last matching line
-- of the first ring that has one; and while neither is so it waits on.
pub wait_loop-Waited :
    (matches : String → Bool) (deadline : ℤ) (looks : List (List Entry × ℤ))
    → Waited matches deadline looks (wait_loop matches deadline looks)
unfolding wait_loop
wait_loop-Waited matches deadline [] = waits
wait_loop-Waited matches deadline ((ring, now) ∷ later) =
    elim (Option-cases (newest_match matches (reverse ring))) [
      | inl missed ↦
          let nothing =
            turned_back matches ring (newest_match-none matches (reverse ring) missed) in
          rw missed (elim (Bool-cases (ltb_ℤ now deadline)) [
            | inl early ↦
                rw early
                  (goes_on ring now later _ nothing early (wait_loop-Waited matches deadline later))
            | inr late ↦ rw late (gives_up ring now later nothing late)
          ])
      | inr (e, hit) ↦
          let (newer, older, split, matched, none_newer) =
            newest_match-split matches (reverse ring) e hit in
          rw hit (
            subst (λ r. Waited matches deadline ((r, now) ∷ later) (some (entry_json e)))
              (sym (ring_split ring newer older e split))
              (found (reverse older) (reverse newer) e now later matched
                (turned matches newer none_newer)))
    ]
