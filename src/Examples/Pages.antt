-- ===== src/Examples/Pages.antt =====
-- A run of the listing.
use event_driven_notificatio.Prelude.{
  ◌≡◌, refl, true, ◌&&◌, str_eq, [], ◌∷◌, map, none, some, arith, ◌==◌, if◌then◌else◌,
}
use mathlib.Core.List.{Perm}
use event_driven_notificatio.Store.{Db}
use event_driven_notificatio.Handlers.Listing.{
  Parsers, ListQuery, scan_to_response, decode_cursor, clauses, conjunction, page_limit,
}
use event_driven_notificatio.Handlers.Listing.Sorted.{Desc}
use event_driven_notificatio.Handlers.Listing.Pages.{
  visible, Admitted, follow, listing, follow_whole_list,
}
use event_driven_notificatio.Auth.{is_admin, has_scope}
use event_driven_notificatio.Examples.Data.{db_of, waiting}
use event_driven_notificatio.Examples.Handlers.{admin}

-- Two rows, and one of them to a page.
abbrev rows : Db
rows = record (db_of waiting) {
  notifications = waiting ∷ record waiting { id = 2; created_at = 12 } ∷ [];
}

abbrev parsers : Parsers
parsers = record {
  atoi = λ s. some 1;
  parse_time = λ s. none;
  encode = λ c. if c.1 == 1 then "one" else "two";
  decode = λ s. if str_eq s "one" then some (some (10, 1)) else some (some (12, 2));
}

abbrev query : ListQuery
query = record {
  limit = "1";
  cursor = "";
  status = "";
  channel = "";
  batch_id = "";
  created_after = "";
  created_before = "";
}

unfoldable admitted : Admitted admin parsers query
unfolding visible is_admin has_scope page_limit clauses conjunction
admitted = record {
  own = λ n. true;
  wanted = λ n. true && (true && (true && (true && (true && true))));
  limit = 1;
  sees = refl;
  sized = refl;
  built_as = refl;
}

follow_whole_list_example :
    let listed =
      listing (λ n. true && (true && (true && (true && (true && (true && true)))))) rows in
    (follow 3 admin parsers query rows ≡ map scan_to_response listed)
    × Desc listed
    × Perm listed rows.notifications
unfolding admitted decode_cursor
follow_whole_list_example =
    follow_whole_list admin parsers query rows (refl, (refl, tt)) ((refl, tt), (tt, tt)) admitted 3
      (omega arith)
