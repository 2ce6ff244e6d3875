-- ===== src/Notes/Search/Results.antt =====
-- What a search answers.
use notes_md_app_be.Prelude.{
  String, ◌≡◌, refl, sym, ap, subst, ◌∙◌, Bool, true, false, Option, none, some, List, [], ◌∷◌,
  ◌++◌, if◌then◌else◌, str_eq, eq_refl, or_else, is_some, All, if_either, Bool-cases, inl, inr,
}
use notes_md_app_be.Core.Selectors.{from_string_to_array, includes, with_key, build_field_selector}
use notes_md_app_be.Notes.Database.{NoteRow, NotesDatabase}
use notes_md_app_be.Notes.Service.{
  Note, RankedId, NoteSearchOptions, Rank, select_all, select, ordered_page, ranked_notes, page_of,
  get_note_by_text,
}
use notes_md_app_be.Notes.Service.Reading.{by_text, query, IsOwn, query-IsOwn}
use notes_md_app_be.Notes.Search.{
  SearchNotesQuery, NoteSearchResult, Found, found, search_failed, CursorFields, to_results,
  content_if, found_with, found_for, found_fields, search_options, id_of, decode_cursor,
  search_by_text,
}

abbrev pub HasContent : Note → Type 0
HasContent n = is_some n.content ≡ true

select_all-HasContent :
    (fields : List String) (rows : List NoteRow)
    → includes fields "content" ≡ true
    → All HasContent (select_all fields rows)
unfolding select_all select
select_all-HasContent fields [] h = tt
select_all-HasContent fields (r ∷ rs) h = (rw h refl, select_all-HasContent fields rs h)

includes-append : (xs : List String) (x : String) → includes (xs ++ (x ∷ [])) x ≡ true
unfolding includes
includes-append [] x = rw (eq_refl x) refl
includes-append (y ∷ ys) x = if_either (λ b. b ≡ true) (str_eq y x) refl (includes-append ys x)

includes-with_key : (xs : List String) (x : String) → includes (with_key xs x) x ≡ true
includes-with_key xs x = elim (Bool-cases (includes xs x)) [
  | inl there ↦ subst (λ b. includes (if b then xs else xs ++ (x ∷ [])) x ≡ true) (sym there) there
  | inr other ↦
      subst (λ b. includes (if b then xs else xs ++ (x ∷ [])) x ≡ true) (sym other)
        (includes-append xs x)
]

abbrev pub AllFound : (NoteSearchResult → Type 0) → Found → Type 0
AllFound P (found results) = All P results
AllFound P search_failed = Unit

is_some-content_if :
    (b : Bool) (content : Option String)
    → is_some content ≡ true
    → is_some (content_if b content) ≡ b
is_some-content_if true content h = h
is_some-content_if false content h = refl

module _ {Db : Type 0} (d : NotesDatabase Db) (locale : String → String → Bool)
    (search : Db → String → String → List RankedId) (to_ts_query : String → Option String)
    (json : String → Option CursorFields) (build_snippet : String → String → String) where
  ordered_page-HasContent :
      (db : Db) (user : String) (fields : List String) (options : NoteSearchOptions)
      (hits : List RankedId) (rank : Option Rank)
      → includes fields "content" ≡ true
      → All HasContent (ordered_page d locale search db user fields options hits rank)
  unfolding ordered_page ranked_notes
  ordered_page-HasContent db user fields options hits none h = select_all-HasContent fields _ h
  ordered_page-HasContent db user fields options hits (some rank) h =
      select_all-HasContent fields _ h

  page_of-HasContent :
      (db : Db) (user : String) (fields : List String) (options : NoteSearchOptions)
      (hits : List RankedId)
      → includes fields "content" ≡ true
      → All HasContent (page_of d locale search db user fields options hits)
  unfolding page_of
  page_of-HasContent db user fields options [] h = tt
  page_of-HasContent db user fields options (x ∷ xs) h =
      ordered_page-HasContent db user fields options (x ∷ xs) options.rank h

  -- A result with the note of the user that it shows, and with its content exactly when that was
  -- asked for.
  abbrev pub IsShown : Db → String → Bool → NoteSearchResult → Type 0
  IsShown db sub asked x =
      ((r : NoteRow) × ((d.note db x.note.id ≡ some r) × (r.user_id ≡ sub)))
      × (is_some x.note.content ≡ asked)

  to_results-IsShown :
      (db : Db) (sub q : String) (asked : Bool) (notes : List Note)
      → All (IsOwn d locale search db sub) notes
      → All HasContent notes
      → All (IsShown db sub asked) (to_results build_snippet q asked notes)
  unfolding to_results select
  to_results-IsShown db sub q asked [] own content = tt
  to_results-IsShown db sub q asked (n ∷ ns) ((r, (there, (mine, (fields, same)))), own)
        (c, content) =
      (
        (
          (r, (ap (d.note db) (ap (λ m. m.id) same) ∙ there, mine)),
          is_some-content_if asked n.content c,
        ),
        to_results-IsShown db sub q asked ns own content,
      )

  found_with-IsShown :
      (db : Db) (sub : String) (query : SearchNotesQuery) (selector : List String) (tsq : String)
      (options : Option NoteSearchOptions)
      → AllFound (IsShown db sub (includes selector "content")) (
          found_with d locale search to_ts_query json build_snippet db sub query selector tsq
            options)
  unfolding query get_note_by_text
  found_with-IsShown db sub request selector tsq none = tt
  found_with-IsShown db sub request selector tsq (some options) =
      to_results-IsShown db sub request.q (includes selector "content") _
        (query-IsOwn d locale search db sub (by_text (with_key selector "content") tsq options))
        (page_of-HasContent db sub (with_key selector "content") options (search db sub tsq)
          (includes-with_key selector "content"))

  found_for-IsShown :
      (db : Db) (sub : String) (query : SearchNotesQuery) (selector : List String)
      (tsq : Option String)
      → AllFound
          (IsShown db sub (includes selector "content"))
          (found_for d locale search to_ts_query json build_snippet db sub query selector tsq)
  found_for-IsShown db sub request selector none = tt
  found_for-IsShown db sub request selector (some tsq) =
      if_either (AllFound (IsShown db sub (includes selector "content"))) (str_eq tsq "") tt (
        found_with-IsShown db sub request selector tsq
          (search_options request.order request.limit (id_of (decode_cursor json request.cursor))))

  found_fields-IsShown :
      (db : Db) (sub : String) (query : SearchNotesQuery) (fields : Option (List String))
      → AllFound
          (IsShown db sub (includes (build_field_selector (or_else fields [])) "content"))
          (found_fields d locale search to_ts_query json build_snippet db sub query fields)
  found_fields-IsShown db sub request none = tt
  found_fields-IsShown db sub request (some fields) =
      found_for-IsShown db sub request (build_field_selector fields) (to_ts_query request.q)

  -- Every result of a search is a note of the user, whatever the full-text index and the cursor
  -- say, and it comes with its content exactly when the request names that field, although the
  -- content is always loaded for the snippet.
  pub search_by_text-IsShown :
      (db : Db) (sub : String) (query : SearchNotesQuery)
      → AllFound
          (IsShown db sub (
            includes
              (build_field_selector (or_else (from_string_to_array query.fields) []))
              "content"))
          (search_by_text d locale search to_ts_query json build_snippet db sub query)
  unfolding search_by_text
  search_by_text-IsShown db sub request =
      found_fields-IsShown db sub request (from_string_to_array request.fields)
