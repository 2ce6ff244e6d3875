-- ===== src/Notes/Import/Plan/Rule.antt =====
-- Which notes of the tree are kept.
use notes_md_app_be.Prelude.{
  String, ◌≡◌, ◌≢◌, refl, sym, Bool, true, false, not, ◌||◌, Option, none, some, List, [], ◌∷◌, ltb,
  str_eq, eq_iff, eq_refl, arith, All, All-zip, ◌∙◌,
}
use notes_md_app_be.Notes.Import.Plan.{Draft, has, keeps, sweep, kept, is_root}
use notes_md_app_be.Notes.Import.Plan.Pruning.{
  is_parent, knows, IsPreorder, survivors, has-cons, has_head, children, removed-sweep,
  removed-visit, child_count-sweep, children-survivors, kept-eq-survivors,
}

module _ (linked : List String) where
  -- The rule by which a draft is kept.
  abbrev pub rule : List Draft → Draft → Bool
  rule left d =
      is_root d.node.kind
      || (not d.is_empty || (has linked d.node.id || ltb 0 (children left d.node.id)))

  keeps-eq-rule :
      (d : Draft) (ds : List Draft)
      → d.node.id ≢ ""
      → keeps linked (sweep linked ds).child_count d ≡ rule (survivors linked ds) d
  unfolding keeps
  keeps-eq-rule d ds ne = rw (child_count-sweep linked ds d.node.id ne) refl

  abbrev pub is_kept : List Draft → Draft → Bool
  is_kept ds d = not (has (sweep linked ds).removed d.node.id)

  is_kept-head :
      (d : Draft) (ds : List Draft) (seen : List String)
      → IsPreorder (d.node.id ∷ seen) ds
      → is_kept (d ∷ ds) d ≡ keeps linked (sweep linked ds).child_count d
  is_kept-head d ds seen h = ground (
    arith,
    removed-visit linked d ds,
    has-cons d.node.id (sweep linked ds).removed d.node.id,
    eq_refl d.node.id,
    removed-sweep linked ds d.node.id (has_head ds seen d.node.id h),
  )

  is_kept-tail :
      (d x : Draft) (ds : List Draft)
      → str_eq d.node.id x.node.id ≡ false
      → is_kept (d ∷ ds) x ≡ is_kept ds x
  is_kept-tail d x ds ne =
      ground
        (arith, removed-visit linked d ds, has-cons d.node.id (sweep linked ds).removed x.node.id)

  -- The head's parent is not among the later drafts.
  not_parent :
      (o : Option String) (seen : List String) (i : String)
      → knows seen o ≡ true
      → has seen i ≡ false
      → is_parent i o ≡ false
  not_parent none seen i k e = refl
  not_parent (some q) seen i k e = ground (arith, eq_iff q i)

  rule-head :
      (d x : Draft) (ds : List Draft)
      → is_parent x.node.id d.node.parent_id ≡ false
      → rule (survivors linked (d ∷ ds)) x ≡ rule (survivors linked ds) x
  rule-head d x ds e = ground (arith, children-survivors linked d ds x.node.id)

  IsPreorder-new :
      (ds : List Draft) (seen : List String)
      → IsPreorder seen ds
      → All (λ x. has seen x.node.id ≡ false) ds
  IsPreorder-new [] seen h = tt
  IsPreorder-new (d ∷ ds) seen (ne, (new, (k, h))) = (
    new,
    All-zip {P = λ x. has (d.node.id ∷ seen) x.node.id ≡ false}
        {Q = λ x. has (d.node.id ∷ seen) x.node.id ≡ false}
        (λ x e f. ground (arith, has-cons d.node.id seen x.node.id)) ds
        (IsPreorder-new ds (d.node.id ∷ seen) h) (IsPreorder-new ds (d.node.id ∷ seen) h),
  )

  All-rule :
      (ds : List Draft) (seen : List String)
      → IsPreorder seen ds
      → All (λ d. is_kept ds d ≡ rule (survivors linked ds) d) ds
  All-rule [] seen h = tt
  All-rule (d ∷ ds) seen (ne, (new, (k, h))) = (
    is_kept-head d ds seen h
        ∙ (keeps-eq-rule d ds ne
            ∙ sym (rule-head d d ds (not_parent d.node.parent_id seen d.node.id k new))),
    All-zip {P = λ x. has (d.node.id ∷ seen) x.node.id ≡ false}
        {Q = λ x. is_kept ds x ≡ rule (survivors linked ds) x}
        (λ x e f. ground (
          arith,
          has-cons d.node.id seen x.node.id,
          is_kept-tail d x ds,
          rule-head d x ds,
          not_parent d.node.parent_id seen x.node.id k,
        ))
        ds (IsPreorder-new ds (d.node.id ∷ seen) h) (All-rule ds (d.node.id ∷ seen) h),
  )

  -- In a tree that is listed in preorder, exactly these notes are kept: the root, and each note that
  -- is not empty, is linked to, or has a child that is kept.
  pub kept-rule :
      (ds : List Draft) → IsPreorder [] ds → All (λ d. is_kept ds d ≡ rule (kept linked ds) d) ds
  kept-rule ds h = rw (kept-eq-survivors linked ds [] h) (All-rule ds [] h)
