-- ===== src/Dump/Lines.antt =====
-- samconf.c: the lines that `samconfDumpConfigTree` prints.
use samconf.Common.{
  ℕ, suc, ◌+◌, Bool, true, false, List, [], ◌∷◌, ◌++◌, some, ◌≡◌, refl, ap, ◌∙◌, arith, leb,
  if◌then◌else◌, append-nil, append_assoc, inl, inr, Bool-cases,
}
use samconf.Text.{Bytes, codes}
use samconf.Config.{Node, Config, config, Children, nil, cons, child_count}
use samconf.Dump.{
  Printf, Screen, print, push, pop, without_last, level_of, level_loop, signed_mark, text_of,
  head_of, value_text, is_container, dump_config_tree, dump_children, dump_tree,
}

-- The texts of a list, one behind the other.
abbrev pub concat : List Bytes → Bytes
concat [] = []
concat (t ∷ ts) = t ++ concat ts

-- The indentation for the flags of the ancestors.
abbrev pub indent : List Bool → Bytes
indent [] = []
indent (b ∷ bs) = level_of b ++ indent bs

-- Whether a list of children ends here.
abbrev pub ends : Children → Bool
ends nil = true
ends (cons c cs) = false

-- The lines of a tree below ancestors with some flags: that of the node, and those of its children if it
-- is an object or an array. A node is marked as the last child if no child follows it.
module _ (printf : Printf) where
  abbrev pub line : List Bool → Bool → Node → Bytes
  line flags last n = indent flags ++ head_of printf last n ++ value_text printf n.value

  unfoldable mutual
    pub lines : List Bool → Bool → Config → List Bytes
    lines flags last (config n cs) =
        let below = lines_of cs (flags ++ last ∷ []) in
        line flags last n ∷ (if is_container n.value then below else [])

    pub lines_of : Children → List Bool → List Bytes
    lines_of nil flags = []
    lines_of (cons c cs) flags = lines flags (ends cs) c ++ lines_of cs flags

without_last-snoc : (bs : List Bool) (b : Bool) → without_last (bs ++ b ∷ []) ≡ bs
unfolding without_last
without_last-snoc [] b = refl
without_last-snoc (x ∷ []) b = refl
without_last-snoc (x ∷ y ∷ bs) b = ap (λ t. x ∷ t) (without_last-snoc (y ∷ bs) b)

concat-append : (ss ts : List Bytes) → concat (ss ++ ts) ≡ concat ss ++ concat ts
concat-append [] ts = refl
concat-append (s ∷ ss) ts = simp (concat-append ss ts, append_assoc)

level_loop-indent : (bs : List Bool) (s : Screen) → level_loop bs s ≡ print (indent bs) s
unfolding level_loop
level_loop-indent [] s = rw append-nil
level_loop-indent (b ∷ bs) s = rw (level_loop-indent bs, append_assoc)

-- The flag of the child at an index of `count` says whether it ends the list.
last-ends : (cs : Children) (i : ℕ) → leb (i + suc (child_count cs)) (i + 1) ≡ ends cs
last-ends nil i = ground arith
last-ends (cons c cs) i = ground arith

-- A pop behind a push, with text printed meanwhile.
popped : (s : Screen) (last : Bool) (text : Bytes) → pop (print text (push last s)) ≡ print text s
popped s last text = rw (without_last-snoc s.indicator last)

module _ (printf : Printf) where
  -- The parts of what is printed of a node and below it, in the order of the code.
  abbrev parts : Bool → Node → Bytes → Screen → Screen
  parts last n below s = print below (
      print (value_text printf n.value)
        (push last (print (head_of printf last n) (print (indent s.indicator) s))))

  parts-line :
      (last : Bool) (n : Node) (ts : List Bytes) (s : Screen)
      → pop (parts last n (concat ts) s) ≡ print (concat (line printf s.indicator last n ∷ ts)) s
  parts-line last n ts s = simp (without_last-snoc, append_assoc)

  -- A node, given what is printed of its children.
  node-lines :
      (n : Node) (cs : Children) (last : Bool) (s : Screen)
      → ((t : Screen)
          → dump_children printf cs 0 (child_count cs) t
            ≡ print (concat (lines_of printf cs t.indicator)) t)
      → dump_config_tree printf (config n cs) last s
        ≡ print (concat (lines printf s.indicator last (config n cs))) s
  unfolding dump_config_tree lines
  node-lines n cs last s below = elim (Bool-cases (is_container n.value)) [
    | inl goes_on ↦
        rw (goes_on, level_loop-indent, below)
          (parts-line last n (lines_of printf cs (s.indicator ++ last ∷ [])) s)
    | inr stops ↦ rw (stops, level_loop-indent) (simp (without_last-snoc, append-nil, append_assoc))
  ]

  mutual
    unfolding dump_config_tree dump_children lines lines_of

    dump_config_tree-lines :
        (c : Config) (last : Bool) (s : Screen)
        → dump_config_tree printf c last s ≡ print (concat (lines printf s.indicator last c)) s
    dump_config_tree-lines (config n cs) last s =
        node-lines n cs last s (λ t. dump_children-lines cs 0 (child_count cs) t (omega arith))

    dump_children-lines :
        (cs : Children) (i count : ℕ) (s : Screen)
        → count ≡ i + child_count cs
        → dump_children printf cs i count s ≡ print (concat (lines_of printf cs s.indicator)) s
    dump_children-lines nil i count s e = rw append-nil
    dump_children-lines (cons c cs) i count s e =
        let flag : leb count (i + 1) ≡ ends cs = rw e (last-ends cs i) in
        rw (dump_config_tree-lines c (leb count (i + 1)) s, flag)
          (dump_children-lines cs (i + 1) count
              (print (concat (lines printf s.indicator (ends cs) c)) s) (omega arith)
            ∙ simp (concat-append, append_assoc))

  -- What `samconfDumpConfigTree` prints of a tree is its headline and then the lines of its nodes in
  -- order: each is indented by one step for each ancestor below the root, with a bar where that ancestor
  -- has a sibling behind it, is marked as the last child exactly if no sibling follows it, and the lines
  -- of its children follow it if it is an object or an array.
  pub dump_tree-lines :
      (n : Node) (cs : Children)
      → dump_tree printf (some (config n cs))
        ≡ signed_mark n.is_signed
          ++ (codes " / (" ++ text_of printf n.key ++ codes ")" ++ b'\n' ∷ [])
          ++ concat (lines_of printf cs [])
  unfolding dump_tree
  dump_tree-lines n cs =
      let head =
        signed_mark n.is_signed
        ++ codes " / ("
        ++ text_of printf n.key
        ++ codes ")"
        ++ b'\n' ∷ [] in
      ap (λ (s : Screen). s.out)
        (dump_children-lines cs 0 (child_count cs) (record { out = head; indicator = [] })
          (omega arith))
      ∙ simp append_assoc
