-- ===== src/Tests/Visible.antt =====
-- Examples for the lists that a client sees.
use maxops.Prelude.{
  ◌≤◌, true, Option, none, some, List, [], ◌∷◌, ◌≡◌, refl, ok, str_eq, codes, contains, find?, take,
  select_where, count_where, All,
}
use maxops.Proto.Jobs.{JobRecord, JobsListParams}
use maxops.Store.Db.{Db}
use maxops.Store.History.{no_rows}
use maxops.Store.Jobs.{queued_job, find_job, get_job, get_owned_job}
use maxops.Store.Listing.Visible.{
  Position, codes_before, is_below, follows, insert_row, descending, job_position, job_cursor,
  is_visible_job, list_visible_jobs,
}
use maxops.Store.Listing.Scoped.{IsAdmitted, smaller, list_visible_jobs-IsAdmitted}
use maxops.Tests.Deliveries.{a_clock}
use maxops.Tests.Jobs.{new_job}

-- Of two jobs of the same second the one with the greater identifier is listed first.
abbrev four_jobs : Db
four_jobs = record no_rows {
  jobs =
      queued_job 1 "h" "j1" new_job
      ∷ queued_job 2 "h" "j2" new_job
      ∷ queued_job 2 "h" "j3" new_job
      ∷ queued_job 1 "h" "j4" (record new_job { host = "host-b" })
      ∷ [];
}

abbrev after_j3 : JobsListParams
after_j3 = record { cursor = some "j3"; host = none; states = []; limit = 1 }

abbrev a_page : List JobRecord
a_page = queued_job 2 "h" "j2" new_job ∷ queued_job 1 "h" "j1" new_job ∷ []

page_after_j3 :
    list_visible_jobs a_clock four_jobs "automation-a" ("host-a" ∷ []) after_j3 ≡ ok a_page
unfolding list_visible_jobs job_cursor get_owned_job get_job find_job find? str_eq contains
    is_visible_job is_below codes codes_before select_where descending insert_row take
page_after_j3 = refl

list_visible_jobs-IsAdmitted_example :
    (cursor : Option Position) × (job_cursor four_jobs "automation-a" ("host-a" ∷ []) (some "j3")
      ≡ ok cursor)
    × All
        (λ r.
          IsAdmitted "automation-a" ("host-a" ∷ []) after_j3 r
          × (follows a_clock cursor (job_position r) ≡ true))
        a_page
    × (2
        ≡ smaller 2 (
            count_where
              (is_visible_job a_clock "automation-a" ("host-a" ∷ []) after_j3 cursor)
              four_jobs.jobs))
    × (2 ≤ 201)
list_visible_jobs-IsAdmitted_example =
    list_visible_jobs-IsAdmitted a_clock "automation-a" ("host-a" ∷ []) after_j3 four_jobs a_page
      page_after_j3
