-- ===== src/Probe/Items/Truncated.antt =====
-- qml_probe.cpp, `tree`: when `truncated` is set, and when it is not although windows are missing.
use qml_and_bgfx_testbridge.Prelude.{
  ℕ, zero, suc, ◌+◌, ◌-◌, ◌≤◌, ◌<◌, ◌≡◌, refl, ap, ◌∙◌, Bool, true, false, not, ◌&&◌, List, [], ◌∷◌,
  ◌++◌, Bool-cases, length, take, length-append, length-take, arith, inl, inr,
}
use qml_and_bgfx_testbridge.Prelude.Int.{ℤ, pos_part}
use qml_and_bgfx_testbridge.Json.{Json}
use qml_and_bgfx_testbridge.Probe.Items.{
  Item, item, Items, nil, cons, tree_node, is_full, left_out, dump_item_tree, tree_loop,
  dump_children,
}
use qml_and_bgfx_testbridge.Probe.Items.Listing.{
  listing, listings, is_full-le, is_full-lt, dump_item_tree-Told,
}

take-whole : (n : ℕ) (xs : List Json) → length xs ≤ n → take n xs ≡ xs
take-whole zero [] h = refl
take-whole zero (x ∷ xs) h = absurd (omega arith)
take-whole (suc n) [] h = refl
take-whole (suc n) (x ∷ xs) h = ap (◌∷◌ x) (take-whole n xs (omega arith))

module _ (max_depth : ℤ) (only_visible : Bool) where
  -- No item of a tree is left out: none is hidden or too deep.
  unfoldable mutual
    pub all_shown : Item → ℕ → Bool
    all_shown (item i kids) depth =
        not (left_out max_depth only_visible i depth) && all_kids_shown kids (suc depth)

    pub all_kids_shown : Items → ℕ → Bool
    all_kids_shown nil depth = true
    all_kids_shown (cons child rest) depth = all_shown child depth && all_kids_shown rest depth

  left : (a b : Bool) → (a && b) ≡ true → a ≡ true
  left a b h = ground arith

  right : (a b : Bool) → (a && b) ≡ true → b ≡ true
  right a b h = ground arith

  not-left : (a b : Bool) → (not a && b) ≡ true → a ≡ false
  not-left a b h = ground arith

  listing-pos :
      (it : Item) (depth : ℕ)
      → all_shown it depth ≡ true
      → 0 < length (listing max_depth only_visible it depth)
  unfolding all_shown listing
  listing-pos (item i kids) depth h =
      let shown : left_out max_depth only_visible i depth ≡ false = not-left _ _ h in
      rw shown (omega arith)

module _ (max_depth : ℤ) (only_visible : Bool) (max_nodes : ℤ) where
  is_full-room : (out : List Json) → length out < pos_part max_nodes → is_full max_nodes out ≡ false
  is_full-room out h = elim (Bool-cases (is_full max_nodes out)) [
    | inl full ↦ absurd (omega (arith, is_full-le max_nodes out full))
    | inr room ↦ room
  ]

  mutual
    unfolding dump_item_tree listing all_shown

    dump_item_tree-quiet :
        (it : Item) (depth : ℕ) (out : List Json) (truncated : Bool)
        → all_shown max_depth only_visible it depth ≡ true
        → length out + length (listing max_depth only_visible it depth) ≤ pos_part max_nodes
        → (dump_item_tree max_depth only_visible max_nodes it depth (out, truncated)).1 ≡ truncated
    dump_item_tree-quiet (item i kids) depth out truncated h fits =
        let shown : left_out max_depth only_visible i depth ≡ false =
          not-left max_depth only_visible _ _ h in
        let fits' : length out + suc (length (listings max_depth only_visible kids (suc depth)))
            ≤ pos_part max_nodes =
          rw shown at fits in
        let room = is_full-room out (omega arith) in
        rw (shown, room)
          (dump_children-quiet kids (suc depth) (out ++ tree_node i depth ∷ []) truncated
            (right max_depth only_visible _ _ h)
            (omega (arith, length-append out (tree_node i depth ∷ []))))

    dump_children-quiet :
        (kids : Items) (depth : ℕ) (out : List Json) (truncated : Bool)
        → all_kids_shown max_depth only_visible kids depth ≡ true
        → length out + length (listings max_depth only_visible kids depth) ≤ pos_part max_nodes
        → (dump_children max_depth only_visible max_nodes kids depth (out, truncated)).1 ≡ truncated
    dump_children-quiet nil depth out truncated h fits = refl
    dump_children-quiet (cons child rest) depth out truncated h fits =
        let s = dump_item_tree max_depth only_visible max_nodes child depth (out, truncated) in
        let here = listing max_depth only_visible child depth in
        let later = listings max_depth only_visible rest depth in
        let child_shown = left max_depth only_visible _ _ h in
        let some_here = listing-pos max_depth only_visible child depth child_shown in
        let counted = length-append here later in
        let room = is_full-room out (omega arith) in
        let told =
          dump_item_tree-Told max_depth only_visible max_nodes child depth out truncated
            (omega arith) in
        let now : length s.0 + length later ≤ pos_part max_nodes = omega (
          arith,
          ap length told.lists,
          length-append out (take (pos_part max_nodes - length out) here),
          length-take (pos_part max_nodes - length out) here,
        ) in
        rw room (
          dump_children-quiet rest depth s.0 s.1 (right max_depth only_visible _ _ h) now
          ∙ dump_item_tree-quiet child depth out truncated child_shown (omega arith))

  -- With one window `truncated` is set whenever nodes are missing. When the items of a window just reach the limit, and
  -- none of them is left out for its depth or as hidden, then `tree` gives just these and says that nothing is
  -- missing, whatever windows come after it.
  pub tree_loop-truncated :
      (root : Item) (rest : List Item)
      → (pos_part max_nodes < length (listing max_depth only_visible root 0)
          → (tree_loop max_depth only_visible max_nodes (root ∷ []) ([], false)).1 ≡ true)
        × (length (listing max_depth only_visible root 0) ≡ pos_part max_nodes
            → all_shown max_depth only_visible root 0 ≡ true
            → tree_loop max_depth only_visible max_nodes (root ∷ rest) ([], false)
              ≡ (listing max_depth only_visible root 0, false))
  unfolding tree_loop
  tree_loop-truncated root rest =
      let here = listing max_depth only_visible root 0 in
      let s = dump_item_tree max_depth only_visible max_nodes root 0 ([], false) in
      let first =
        dump_item_tree-Told max_depth only_visible max_nodes root 0 [] false (omega arith) in
      elim (Bool-cases (is_full max_nodes s.0)) [
        | inl full ↦ rw full (
          λ past. first.tells (omega arith),
          λ exact shown.
              ap (λ out. (out, s.1))
                (first.lists ∙ take-whole (pos_part max_nodes - 0) here (omega arith))
              ∙ ap (λ t. (here, t)) (dump_item_tree-quiet root 0 [] false shown (omega arith)),
        )
        | inr room ↦ rw room (
          λ past. first.tells (omega arith),
          λ exact shown. absurd (
              omega (
                arith,
                is_full-lt max_nodes s.0 room,
                ap length first.lists,
                length-take (pos_part max_nodes - 0) here,
              )),
        )
      ]
