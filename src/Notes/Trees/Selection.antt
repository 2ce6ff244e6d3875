-- ===== src/Notes/Trees/Selection.antt =====
-- Which columns of the children are read.
use notes_md_app_be.Prelude.{String, ◌≡◌, refl, ap, Bool, false, none, List, [], ◌∷◌, All}
use notes_md_app_be.Core.Selectors.{includes, from_string_to_array, with_keys}
use notes_md_app_be.Notes.Database.{NoteRow, NotesDatabase}
use notes_md_app_be.Notes.Service.{RankedId, select, select_all, get_note_by_parent_id}
use notes_md_app_be.Notes.Trees.{
  children_of, GetNoteQuery, build_root_children_selector, default_children_fields,
}

select_all-without :
    (fields : List String) (rows : List NoteRow)
    → includes fields "content" ≡ false
    → All (λ n. n.content ≡ none) (select_all fields rows)
unfolding select_all select
select_all-without fields [] h = tt
select_all-without fields (r ∷ rs) h = (rw h refl, select_all-without fields rs h)

without_content :
    (query : GetNoteQuery)
    → query.fields ≡ none
    → query.children_fields ≡ none
    → build_root_children_selector query ≡ default_children_fields
unfolding build_root_children_selector from_string_to_array with_keys includes
without_content query e f = rw (e, f) refl

module _ {Db : Type 0} (d : NotesDatabase Db) (locale : String → String → Bool)
    (search : Db → String → String → List RankedId) where
  -- Children are listed without their content, unless the request names fields for them or for the
  -- note.
  pub children_of-content :
      (db : Db) (query : GetNoteQuery) (user : String) (ids : List String)
      → query.fields ≡ none
      → query.children_fields ≡ none
      → All (λ n. n.content ≡ none) (children_of d locale search db query user ids)
  unfolding get_note_by_parent_id includes
  children_of-content db query user [] e f = tt
  children_of-content db query user (i ∷ is) e f =
      select_all-without ("parentId" ∷ build_root_children_selector query) _
        (ap (λ fields. includes ("parentId" ∷ fields) "content") (without_content query e f))
