-- ===== src/Notes/Trees/Loading.antt =====
-- What the loading of one level keeps.
use notes_md_app_be.Prelude.{
  ℕ, ◌+◌, ◌≤◌, ◌<◌, String, ◌≡◌, refl, sym, subst, Bool, true, some, List, [], ◌∷◌, ◌++◌, inl, inr,
  get_elem?, length, str_eq, eq_iff, is_some, arith, All, All-append, Bool-cases,
}
use notes_md_app_be.Prelude.Map
use notes_md_app_be.Prelude.Map.{Map, get-set}
use notes_md_app_be.Core.Limiters.{allow, current}
use notes_md_app_be.Core.Tree.{TreeNode, add_child, attach, push_child}
use notes_md_app_be.Core.Tree.Edits.{IsTree, require-cases, attach-IsTree}
use notes_md_app_be.Notes.Service.{Note}
use notes_md_app_be.Notes.Trees.{
  Level, Loaded, loaded, load_failed, after, load_note, load_notes, add_note,
}
use notes_md_app_be.Core.Selectors.{includes}
use notes_md_app_be.Notes.Trees.Counted.{
  IsCounted, AreThere, All-set_at, All-get_elem?, IsCall, allow-IsCall, current-bounded,
  AreThere-set, is_there, IsCounted-push, absent_there, leaf,
}

found_included :
    (by_id : Map ℕ) (ids : List String) (id : String)
    → AreThere by_id ids
    → includes ids id ≡ true
    → is_some (Map.get by_id id) ≡ true
unfolding includes
found_included by_id [] id h inside = ground (arith, inside)
found_included by_id (i ∷ is) id (there, h) inside = elim (Bool-cases (str_eq i id)) [
  | inl same ↦ subst (λ k. is_some (Map.get by_id k) ≡ true) ((eq_iff i id).0 same) there
  | inr other ↦ found_included by_id is id h (ground (arith, inside, other))
]

-- `P` holds of every node's id, and the ids that were asked for are in the tree.
module _ (limit : ℕ) (P : String → Type 0) (asked : List String) where
  abbrev pub IsLevel : Level → Type 0
  IsLevel level =
      IsTree level.tree
      × (IsCounted level.counters level.tree.nodes
          × (((id : String) → current level.counters id ≤ limit)
              × (All (λ n. P n.id) level.tree.nodes
                  × (AreThere level.tree.by_id asked × AreThere level.tree.by_id level.ids))))

  abbrev pub GivesLevel : Loaded Level → Type 0
  GivesLevel (loaded level) = IsLevel level
  GivesLevel (load_failed e) = ⊥

  attached-IsLevel :
      (level : Level) (note : Note) (parent : String) (at : ℕ) (n : TreeNode Note)
      → IsLevel level
      → P note.id
      → current level.counters parent < limit
      → get_elem? level.tree.nodes at ≡ some n
      → n.id ≡ parent
      → IsLevel (record {
        tree = attach level.tree (at, n) parent note.id note;
        counters = Map.set level.counters parent (current level.counters parent + 1);
        ids = level.ids ++ (note.id ∷ []);
      })
  attached-IsLevel level note parent at n (t, (counted, (bound, (own, (kept, present))))) p free
        cell same =
      let nodes = level.tree.nodes in
      let size = length nodes in
      (
        attach-IsTree level.tree at n parent note.id note t cell,
        (
          subst
              (λ k.
                IsCounted (Map.set level.counters k (current level.counters k + 1))
                  (push_child nodes at n size ++ (leaf note parent ∷ [])))
              same
              (IsCounted-push level.counters nodes at size n (leaf note parent) counted cell refl),
          (
            (λ k. current-bounded limit level.counters parent k free (bound k)),
            (
              All-append (λ x. P x.id) (push_child nodes at n size) (leaf note parent ∷ [])
                  (All-set_at (λ x. P x.id) nodes at _ own
                    (All-get_elem? (λ x. P x.id) nodes at n own cell))
                  (p, tt),
              (
                AreThere-set level.tree.by_id note.id size asked kept,
                All-append
                    (λ id. is_some (Map.get (Map.set level.tree.by_id note.id size) id) ≡ true)
                    level.ids (note.id ∷ [])
                    (AreThere-set level.tree.by_id note.id size level.ids present)
                    (is_there level.tree.by_id note.id size, tt),
              ),
            ),
          ),
        ),
      )

  called :
      (level : Level) (note : Note) (parent : String) (answer : Map ℕ × Bool)
      → IsLevel level
      → P note.id
      → is_some (Map.get level.tree.by_id parent) ≡ true
      → IsCall limit level.counters parent answer
      → GivesLevel (add_note level note answer (some parent))
  unfolding add_child
  called level note parent answer h p there (inl e) =
      subst (λ r. GivesLevel (add_note level note r (some parent))) (sym e) h
  called level note parent answer h p there (inr (free, e)) =
      subst (λ r. GivesLevel (add_note level note r (some parent))) (sym e)
        (elim (require-cases level.tree parent h.0) [
          | inl (missing, gone) ↦
              elim (absent_there (Map.get level.tree.by_id parent) gone there) [ ]
          | inr (at, (n, (found, (cell, (same, got))))) ↦
              rw (found, add_child, GivesLevel)
                (attached-IsLevel level note parent at n h p free cell same)
        ])

  load_note-GivesLevel :
      (level : Level) (note : Note) (parent : String)
      → IsLevel level
      → P note.id
      → note.parent_id ≡ some parent
      → is_some (Map.get level.tree.by_id parent) ≡ true
      → GivesLevel (load_note limit level note)
  unfolding load_note
  load_note-GivesLevel level note parent h p named there =
      let (t, (counted, (bound, (own, (kept, present))))) = h in
      subst (λ o. GivesLevel (add_note level note (allow limit level.counters o) o)) (sym named)
        (called level note parent (allow limit level.counters (some parent)) h p there
          (allow-IsCall limit level.counters parent))

  after-GivesLevel :
      (r : Loaded Level) (f : Level → Loaded Level)
      → GivesLevel r
      → ((level : Level) → IsLevel level → GivesLevel (f level))
      → GivesLevel (after r f)
  after-GivesLevel (loaded level) f h k = k level h
  after-GivesLevel (load_failed e) f h k = elim (h) [ ]

  -- A row below one of the ids that were asked for.
  abbrev pub IsAsked : Note → Type 0
  IsAsked note =
      P note.id
      × ((parent : String) × ((note.parent_id ≡ some parent) × (includes asked parent ≡ true)))

  pub load_notes-GivesLevel :
      (level : Level) (notes : List Note)
      → IsLevel level
      → All IsAsked notes
      → GivesLevel (load_notes limit level notes)
  unfolding load_notes
  load_notes-GivesLevel level [] h asks = h
  load_notes-GivesLevel level (note ∷ notes) h ((p, (parent, (named, inside))), asks) =
      let (t, (counted, (bound, (own, (kept, present))))) = h in
      after-GivesLevel (load_note limit level note) (λ next. load_notes limit next notes)
        (load_note-GivesLevel level note parent h p named
          (found_included level.tree.by_id asked parent kept inside))
        (λ next k. load_notes-GivesLevel next notes k asks)
