-- ===== src/Tables/Refine.antt =====
-- lua/ltable.c: what a key that is placed does to the nodes of the hash part.
use primemover.Prelude.{
  ℕ, ◌+◌, ◌<◌, false, none, some, ◌≡◌, ◌≢◌, ◌⊎◌, inl, inr, refl, sym, ◌∙◌, ap, arith,
}
use primemover.Tables.{Numbers, Object, Node, Table, raw_equal, mainposition, sizenode}
use primemover.Tables.Chains.{Linked, index_cases, set_key-Linked}
use primemover.Tables.Links.{
  clash_some, linked, link_node-Linked, linked-key_cases, linked-key_self, linked-key_other,
  linked-val,
}
use primemover.Tables.Moves.{
  moved, moved-Linked, moved-key_cases, moved-key_other, moved-val_other, move_node-moved,
  moved_gone, moved_new,
}
use primemover.Tables.Insert.{set_key, move_node, link_node}
use primemover.Tables.Equal.{IsLawful, raw_equal-sym, mainposition-lt}

module _ {N : Type 0} (num : Numbers N) (str_hash : ℕ → ℕ) (laws : IsLawful num) where
  -- What a new key does to the nodes: it stands at `p` with no value, each value is still held by
  -- its key, and no other key has come.
  pub record Placing (t : Table N) (k : Object N) (bound : ℕ) (nodes : ℕ → Node N) (p : ℕ)
      : Type 0 where
    pub bound' : ℕ
    pub linked :
        Linked (mainposition num str_hash t.lsizenode) (raw_equal num) (sizenode t) bound' nodes
    pub room : (bound' ≡ bound) ⊎ ((bound' ≡ bound + 1) × ((nodes t.firstfree).key ≢ none))
    pub at : (nodes p).key ≡ some k
    pub vacant : (nodes p).val ≡ none
    pub kept :
        (j : ℕ) (a : Object N)
        → (t.node j).key ≡ some a
        → (t.node j).val ≢ none
        → (i : ℕ) × ((nodes i).key ≡ some a) × ((nodes i).val ≡ (t.node j).val)
    pub old :
        (i : ℕ) (a : Object N)
        → (nodes i).key ≡ some a
        → (a ≡ k) ⊎ ((j : ℕ) × ((t.node j).key ≡ some a) × ((nodes i).val ≡ (t.node j).val))

  module _ (t : Table N) (k : Object N) (bound : ℕ)
      (l : Linked (mainposition num str_hash t.lsizenode) (raw_equal num) (sizenode t) bound t.node)
      (n_inside : t.firstfree < sizenode t) (n_free : (t.node t.firstfree).key ≡ none)
      (absent : (i : ℕ) (a : Object N) → (t.node i).key ≡ some a → raw_equal num a k ≡ false) where
    abbrev mp : ℕ
    mp = mainposition num str_hash t.lsizenode k

    pub in_main-Placing : (t.node mp).val ≡ none → Placing t k bound (set_key t.node mp k) mp
    in_main-Placing vacant = record {
      bound' = bound;
      linked =
          set_key-Linked l k (raw_equal-sym num laws) absent
            (mainposition-lt num str_hash t.lsizenode k) vacant;
      room = inl refl;
      at = ground arith;
      vacant = ground arith;
      kept = kept;
      old = old;
    }
      where
        kept :
            (j : ℕ) (a : Object N)
            → (t.node j).key ≡ some a
            → (t.node j).val ≢ none
            → (i : ℕ) × ((set_key t.node mp k i).key ≡ some a)
              × ((set_key t.node mp k i).val ≡ (t.node j).val)
        kept j a h v = elim (index_cases j mp) [
          | inl e ↦ absurd (v (rw e.0 vacant))
          | inr e ↦ (j, ground arith, ground arith)
        ]

        old :
            (i : ℕ) (a : Object N)
            → (set_key t.node mp k i).key ≡ some a
            → (a ≡ k)
              ⊎ ((j : ℕ) × ((t.node j).key ≡ some a)
                  × ((set_key t.node mp k i).val ≡ (t.node j).val))
        old i a h = elim (index_cases i mp) [
          | inl e ↦ inl (ground arith)
          | inr e ↦ inr (i, ground arith, ground arith)
        ]

    pub behind-Placing :
        (b : Object N)
        → (t.node mp).key ≡ some b
        → mainposition num str_hash t.lsizenode b ≡ mp
        → Placing t k bound (set_key (link_node t.node mp t.firstfree) t.firstfree k) t.firstfree
    unfolding linked
    behind-Placing b at own = record {
      bound' = bound + 1;
      linked = behind;
      room = inr (refl, λ h. clash_some new_key h);
      at = new_key;
      vacant = val n ∙ l.empty n n_free;
      kept = kept;
      old = old;
    }
      where
        n : ℕ
        n = t.firstfree

        nodes : ℕ → Node N
        nodes = set_key (link_node t.node mp n) n k

        behind :
            Linked
              (mainposition num str_hash t.lsizenode)
              (raw_equal num)
              (sizenode t)
              (bound + 1)
              nodes
        behind =
            link_node-Linked l k (raw_equal-sym num laws) absent mp n n_inside n_free b at own refl

        apart : mp ≢ n
        apart e = clash_some at (rw e n_free)

        new_key : (nodes n).key ≡ some k
        new_key = linked-key_self l k (raw_equal-sym num laws) absent mp n n_inside n_free

        val : (i : ℕ) → (nodes i).val ≡ (t.node i).val
        val i = linked-val l k (raw_equal-sym num laws) absent mp n n_inside n_free i apart

        kept :
            (j : ℕ) (a : Object N)
            → (t.node j).key ≡ some a
            → (t.node j).val ≢ none
            → (i : ℕ) × ((nodes i).key ≡ some a) × ((nodes i).val ≡ (t.node j).val)
        kept j a h v =
            let other : j ≢ n = λ e. clash_some h (rw e n_free) in
            (
              j,
              linked-key_other l k (raw_equal-sym num laws) absent mp n n_inside n_free j other ∙ h,
              val j,
            )

        old :
            (i : ℕ) (a : Object N)
            → (nodes i).key ≡ some a
            → (a ≡ k) ⊎ ((j : ℕ) × ((t.node j).key ≡ some a) × ((nodes i).val ≡ (t.node j).val))
        old i a h =
            elim (linked-key_cases l k (raw_equal-sym num laws) absent mp n n_inside n_free i a h) [
              | inl e ↦ inl e.1
              | inr e ↦ inr (i, e.1, val i)
            ]

    pub moved-Placing :
        (b : Object N) (prev : ℕ)
        → (t.node mp).key ≡ some b
        → mainposition num str_hash t.lsizenode b ≢ mp
        → (t.node prev).next ≡ some mp
        → Placing t k bound (set_key (move_node t.node prev mp t.firstfree) mp k) mp
    moved-Placing b prev at away leads =
        rw (move_node-moved l prev mp n n_inside n_free leads b at away k) (record {
          bound' = bound;
          linked =
              set_key-Linked (moved-Linked l prev mp n n_inside n_free leads b at away) k
                (raw_equal-sym num laws) still_absent (mainposition-lt num str_hash t.lsizenode k)
                gone;
          room = inl refl;
          at = ground arith;
          vacant = let g = gone in ground arith;
          kept = kept;
          old = old;
        })
      where
        n : ℕ
        n = t.firstfree

        after : ℕ → Node N
        after = moved l prev mp n n_inside n_free leads b at away

        nodes : ℕ → Node N
        nodes = set_key after mp k

        apart : mp ≢ n
        apart e = clash_some at (rw e n_free)

        gone : (after mp).val ≡ none
        gone = ap Node.val (moved_gone l prev mp n n_inside n_free leads b at away)

        new : after n ≡ t.node mp
        new = moved_new l prev mp n n_inside n_free leads b at away

        still_absent : (i : ℕ) (a : Object N) → (after i).key ≡ some a → raw_equal num a k ≡ false
        still_absent i a h =
            elim (moved-key_cases l prev mp n n_inside n_free leads b at away i a h) [
              | inl e ↦ rw e.1 (absent mp b at)
              | inr e ↦ absent i a e.2
            ]

        val_other : (j : ℕ) → j ≢ mp → j ≢ n → (after j).val ≡ (t.node j).val
        val_other = moved-val_other l prev mp n n_inside n_free leads b at away

        key_other : (j : ℕ) → j ≢ mp → j ≢ n → (after j).key ≡ (t.node j).key
        key_other = moved-key_other l prev mp n n_inside n_free leads b at away

        elsewhere : (j : ℕ) → j ≢ mp → nodes j ≡ after j
        elsewhere j h = ground arith

        n_elsewhere : nodes n ≡ t.node mp
        n_elsewhere = elsewhere n (λ e. apart (sym e)) ∙ new

        kept :
            (j : ℕ) (a : Object N)
            → (t.node j).key ≡ some a
            → (t.node j).val ≢ none
            → (i : ℕ) × ((nodes i).key ≡ some a) × ((nodes i).val ≡ (t.node j).val)
        kept j a h v = elim (index_cases j mp) [
          | inl e ↦ (
            n,
            ap Node.key (n_elsewhere ∙ ap t.node (sym e.0)) ∙ h,
            ap Node.val (n_elsewhere ∙ ap t.node (sym e.0)),
          )
          | inr e ↦
              let other : j ≢ n = λ u. clash_some h (rw u n_free) in
              (
                j,
                ap Node.key (elsewhere j e.0) ∙ key_other j e.0 other ∙ h,
                ap Node.val (elsewhere j e.0) ∙ val_other j e.0 other,
              )
        ]

        old :
            (i : ℕ) (a : Object N)
            → (nodes i).key ≡ some a
            → (a ≡ k) ⊎ ((j : ℕ) × ((t.node j).key ≡ some a) × ((nodes i).val ≡ (t.node j).val))
        old i a h = elim (index_cases i mp) [
          | inl e ↦ inl (ground arith)
          | inr e ↦
              elim (moved-key_cases l prev mp n n_inside n_free leads b at away i a
                (sym (ap Node.key (elsewhere i e.0)) ∙ h)) [
                  | inl u ↦
                      inr (mp, at ∙ ap some (sym u.1), ap Node.val (ap nodes u.0 ∙ n_elsewhere))
                  | inr u ↦ inr (i, u.2, ap Node.val (elsewhere i e.0) ∙ val_other i e.0 u.0)
                ]
        ]
