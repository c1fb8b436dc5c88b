-- ===== src/Probe/Items/Listing.antt =====
-- qml_probe.cpp, `dumpItemTree` and `tree`: what they list is the start of the whole list of items.
use qml_and_bgfx_testbridge.Prelude.{
  ℕ, zero, suc, ◌+◌, ◌-◌, ◌≤◌, ◌<◌, ◌≡◌, refl, ap, sym, ◌∙◌, Bool, true, false, List, [], ◌∷◌, ◌++◌,
  Bool-cases, if◌then◌else◌, length, take, length-append, length-take, arith, inl, inr, leb, tests,
}
use mathlib.Core.List.{append_assoc, append-nil}
use qml_and_bgfx_testbridge.Prelude.Int.{ℤ, pos, negsuc, pos_part}
use qml_and_bgfx_testbridge.Json.{Json}
use qml_and_bgfx_testbridge.Probe.Items.{
  Item, item, Items, nil, cons, tree_node, is_full, left_out, dump_item_tree, tree_loop,
  dump_children,
}

module _ (max_depth : ℤ) (only_visible : Bool) where
  -- All nodes in the order of the items, without a limit on their number.
  unfoldable mutual
    pub listing : Item → ℕ → List Json
    listing (item i kids) depth =
        if left_out max_depth only_visible i depth
        then []
        else tree_node i depth ∷ listings kids (suc depth)

    pub listings : Items → ℕ → List Json
    listings nil depth = []
    listings (cons child rest) depth = listing child depth ++ listings rest depth

  unfoldable pub whole_listing : List Item → List Json
  whole_listing [] = []
  whole_listing (root ∷ rest) = listing root 0 ++ whole_listing rest

take-append {ℓ} :
    {A : Type ℓ} (n : ℕ) (xs ys : List A) → take n (xs ++ ys) ≡ take n xs ++ take (n - length xs) ys
take-append zero xs ys = let e : 0 - length xs ≡ 0 = omega arith in rw e refl
take-append (suc n) [] ys = let e : suc n - 0 ≡ suc n = omega arith in rw e refl
take-append (suc n) (x ∷ xs) ys =
    let e : suc n - suc (length xs) ≡ n - length xs = omega arith in
    rw e (ap (◌∷◌ x) (take-append n xs ys))

-- `out` with the first nodes of `more`, as many as the limit still allows.
abbrev pub filled : ℕ → List Json → List Json → List Json
filled limit out more = out ++ take (limit - length out) more

filled-append :
    (limit : ℕ) (out xs ys : List Json)
    → filled limit (filled limit out xs) ys ≡ filled limit out (xs ++ ys)
filled-append limit out xs ys =
    let room : limit - length (filled limit out xs) ≡ limit - length out - length xs = omega (
      arith,
      length-append out (take (limit - length out) xs),
      length-take (limit - length out) xs,
    ) in
    rw (room, take-append (limit - length out) xs ys, append_assoc) refl

full_filled : (limit : ℕ) (out more : List Json) → limit ≤ length out → filled limit out more ≡ out
full_filled limit out more h =
    let none_left : limit - length out ≡ 0 = omega arith in rw none_left (append-nil out)

pub is_full-le :
    (max_nodes : ℤ) (out : List Json)
    → is_full max_nodes out ≡ true
    → pos_part max_nodes ≤ length out
is_full-le (pos n) out h = ground arith
is_full-le (negsuc n) out h = omega arith

pub is_full-lt :
    (max_nodes : ℤ) (out : List Json)
    → is_full max_nodes out ≡ false
    → length out < pos_part max_nodes
is_full-lt (pos n) out h = ground arith
is_full-lt (negsuc n) out h = ground arith

pub take-nil {ℓ} : {A : Type ℓ} (n : ℕ) → take {A = A} n [] ≡ []
take-nil zero = refl
take-nil (suc n) = refl

filled-cons :
    (limit : ℕ) (out : List Json) (x : Json) (more : List Json)
    → length out < limit
    → filled limit (out ++ x ∷ []) more ≡ filled limit out (x ∷ more)
filled-cons limit out x more h =
    let room : limit - length out ≡ suc (limit - length (out ++ x ∷ [])) =
      omega (arith, length-append out (x ∷ [])) in
    rw (room, append_assoc) refl

-- What a dump with a limit gives, from `out` and `truncated`, where `more` is what it has to list.
pub record Told (limit : ℕ) (out more : List Json) (truncated : Bool) (s : List Json × Bool)
    : Type 0 where
  pub lists : s.0 ≡ filled limit out more
  pub tells : limit < length out + length more → s.1 ≡ true
  pub keeps : truncated ≡ true → s.1 ≡ true

-- The dump stops as the limit is reached.
stopped :
    (limit : ℕ) (out more : List Json) (truncated : Bool)
    → limit ≤ length out
    → Told limit out more truncated (out, true)
stopped limit out more truncated h = record {
  lists = sym (full_filled limit out more h);
  tells = λ _. refl;
  keeps = λ _. refl;
}

nothing_more :
    (limit : ℕ) (out : List Json) (truncated : Bool)
    → length out ≤ limit
    → Told limit out [] truncated (out, truncated)
nothing_more limit out truncated h = record {
  lists = sym (rw (take-nil {A = Json} (limit - length out)) (append-nil out));
  tells = λ past. absurd (omega arith);
  keeps = λ e. e;
}

pub filled-le :
    (limit : ℕ) (out more : List Json) → length out ≤ limit → length (filled limit out more) ≤ limit
filled-le limit out more h = omega (
  arith,
  length-append out (take (limit - length out) more),
  length-take (limit - length out) more,
)

-- One part after the other.
in_turn :
    (limit : ℕ) (out xs ys : List Json) (truncated : Bool) (s s' : List Json × Bool)
    → Told limit out xs truncated s
    → Told limit s.0 ys s.1 s'
    → Told limit out (xs ++ ys) truncated s'
in_turn limit out xs ys truncated s s' first then_ = record {
  lists = then_.lists ∙ ap (λ o. filled limit o ys) first.lists ∙ filled-append limit out xs ys;
  tells = λ past. elim (Bool-cases (leb (length out + length xs) limit)) [
    | inl fits ↦
        let counted = ap length first.lists in
        then_.tells (
          omega (
            tests,
            length-append xs ys,
            length-append out (take (limit - length out) xs),
            length-take (limit - length out) xs,
          ))
    | inr past_here ↦ then_.keeps (first.tells (ground arith))
  ];
  keeps = λ e. then_.keeps (first.keeps e);
}

-- A node, then the nodes below it.
node_first :
    (limit : ℕ) (out : List Json) (x : Json) (more : List Json) (truncated : Bool)
    (s : List Json × Bool)
    → length out < limit
    → Told limit (out ++ x ∷ []) more truncated s
    → Told limit out (x ∷ more) truncated s
node_first limit out x more truncated s room told = record {
  lists = told.lists ∙ filled-cons limit out x more room;
  tells = λ past. told.tells (omega (arith, length-append out (x ∷ [])));
  keeps = told.keeps;
}

module _ (max_depth : ℤ) (only_visible : Bool) (max_nodes : ℤ) where
  mutual
    unfolding dump_item_tree listing

    pub dump_item_tree-Told :
        (it : Item) (depth : ℕ) (out : List Json) (truncated : Bool)
        → length out ≤ pos_part max_nodes
        → Told
            (pos_part max_nodes)
            out
            (listing max_depth only_visible it depth)
            truncated
            (dump_item_tree max_depth only_visible max_nodes it depth (out, truncated))
    dump_item_tree-Told (item i kids) depth out truncated h =
        elim (Bool-cases (left_out max_depth only_visible i depth)) [
          | inl e ↦ rw e (nothing_more (pos_part max_nodes) out truncated h)
          | inr e ↦ rw e (elim (Bool-cases (is_full max_nodes out)) [
            | inl full ↦ rw full (
                stopped (pos_part max_nodes) out
                  (tree_node i depth ∷ listings max_depth only_visible kids (suc depth)) truncated
                  (is_full-le max_nodes out full))
            | inr room ↦ rw room (
                node_first (pos_part max_nodes) out (tree_node i depth)
                  (listings max_depth only_visible kids (suc depth)) truncated
                  (dump_children max_depth only_visible max_nodes kids (suc depth)
                    (out ++ tree_node i depth ∷ [], truncated))
                  (is_full-lt max_nodes out room)
                  (dump_children-Told kids (suc depth) (out ++ tree_node i depth ∷ []) truncated (
                    omega (
                      arith,
                      is_full-lt max_nodes out room,
                      length-append out (tree_node i depth ∷ []),
                    ))))
          ])
        ]

    dump_children-Told :
        (kids : Items) (depth : ℕ) (out : List Json) (truncated : Bool)
        → length out ≤ pos_part max_nodes
        → Told
            (pos_part max_nodes)
            out
            (listings max_depth only_visible kids depth)
            truncated
            (dump_children max_depth only_visible max_nodes kids depth (out, truncated))
    dump_children-Told nil depth out truncated h = nothing_more (pos_part max_nodes) out truncated h
    dump_children-Told (cons child rest) depth out truncated h =
        let s = dump_item_tree max_depth only_visible max_nodes child depth (out, truncated) in
        let first = dump_item_tree-Told child depth out truncated h in
        let room : length s.0 ≤ pos_part max_nodes =
          rw first.lists
            (filled-le (pos_part max_nodes) out (listing max_depth only_visible child depth) h) in
        elim (Bool-cases (is_full max_nodes out)) [
          | inl full ↦ rw full (
              stopped (pos_part max_nodes) out
                (listing max_depth only_visible child depth
                  ++ listings max_depth only_visible rest depth)
                truncated (is_full-le max_nodes out full))
          | inr free ↦ rw free (
              in_turn (pos_part max_nodes) out (listing max_depth only_visible child depth)
                (listings max_depth only_visible rest depth) truncated s
                (dump_children max_depth only_visible max_nodes rest depth s) first
                (dump_children-Told rest depth s.0 s.1 room))
        ]

  tree_loop-filled :
      (roots : List Item) (out : List Json) (truncated : Bool)
      → length out ≤ pos_part max_nodes
      → (tree_loop max_depth only_visible max_nodes roots (out, truncated)).0
        ≡ filled (pos_part max_nodes) out (whole_listing max_depth only_visible roots)
  unfolding tree_loop whole_listing
  tree_loop-filled [] out truncated h =
      sym (rw (take-nil {A = Json} (pos_part max_nodes - length out)) (append-nil out))
  tree_loop-filled (root ∷ rest) out truncated h =
      let limit = pos_part max_nodes in
      let here = listing max_depth only_visible root 0 in
      let later = whole_listing max_depth only_visible rest in
      let s = dump_item_tree max_depth only_visible max_nodes root 0 (out, truncated) in
      let first = dump_item_tree-Told root 0 out truncated h in
      let joined : filled limit s.0 later ≡ filled limit out (here ++ later) =
        ap (λ o. filled limit o later) first.lists ∙ filled-append limit out here later in
      elim (Bool-cases (is_full max_nodes s.0)) [
        | inl full ↦
            rw full (sym (full_filled limit s.0 later (is_full-le max_nodes s.0 full)) ∙ joined)
        | inr room ↦
            let fits : length s.0 ≤ limit = omega (arith, is_full-lt max_nodes s.0 room) in
            rw room (tree_loop-filled rest s.0 s.1 fits ∙ joined)
      ]

  -- `tree` lists the items of the windows in their order, each before those below it, without the hidden and the deep
  -- ones, and of this list exactly the first nodes up to the limit. A negative limit is none at all.
  pub tree_loop-take :
      (roots : List Item)
      → (tree_loop max_depth only_visible max_nodes roots ([], false)).0
        ≡ take (pos_part max_nodes) (whole_listing max_depth only_visible roots)
  tree_loop-take roots =
      let all : pos_part max_nodes - 0 ≡ pos_part max_nodes = omega arith in
      tree_loop-filled roots [] false (omega arith)
      ∙ ap (λ n. take n (whole_listing max_depth only_visible roots)) all
