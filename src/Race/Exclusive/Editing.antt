-- ===== src/Race/Exclusive/Editing.antt =====
-- Creating, changing, deleting and repeating races, and the telemetry ingest, keep the invariant
-- of the running race.
use carrera_monitor.Prelude.{
  if_elim, if◌then◌else◌, ℕ, false, String, ◌≡◌, ◌≢◌, ◌∙◌, ap, inl, inr, Option, none, some, not,
  ◌&&◌, arith, Option-cases, Bool-cases,
}
use carrera_monitor.Race.Model.{Race, RaceStatus, running, parse_status}
use carrera_monitor.Race.Repository
use carrera_monitor.Race.Repository.{same_status, save_race, accepts_names, to_read}
use carrera_monitor.Race.App.{App, Result, ok, err, integrity, RaceManagementConfig}
use carrera_monitor.Race.Schema.{RaceForm, is_valid}
use carrera_monitor.Race.Crud.{
  create_race, update_race, delete_race, repeat_race, new_row, copy_row, copy_form, edited,
  is_editable, is_running,
}
use carrera_monitor.Race.Rows.{
  status-create_race, status-delete_race, status-save_race, get_race-id, status-found,
}
use carrera_monitor.Race.Exclusive.{IsExclusive}
use carrera_monitor.Race.Exclusive.Leaving.{clear_active-IsExclusive}

-- The status that new races get is not `running`.
abbrev pub StartsIdle : RaceManagementConfig → Type 0
StartsIdle cfg = parse_status cfg.default_race_status_after_create ≢ some running

module _ {F : Type 0} (cfg : RaceManagementConfig) (now : ℕ) (s : App F) (x : IsExclusive s) where
  insert-IsExclusive :
      (r : Race)
      → Repository.get_race s.db r.id ≡ none
      → same_status r.status running ≡ false
      → IsExclusive (record s { db = Repository.create_race s.db r })
  insert-IsExclusive r fresh idle = record {
    only = λ j h. ground (arith, status-create_race s.db j r fresh, x.only j);
  }

  idle_status :
      (st : RaceStatus)
      → StartsIdle cfg
      → parse_status cfg.default_race_status_after_create ≡ some st
      → same_status st running ≡ false
  idle_status st idle e = ground arith

  -- A row that is refused leaves the state as it was.
  abbrev accepted_or_refused : Race → Result Race → App F → Result Race × App F
  accepted_or_refused r done t = if accepts_names r then (done, t) else (err integrity, s)

  kept_if :
      (r : Race) (done : Result Race) (t : App F)
      → IsExclusive t
      → IsExclusive (accepted_or_refused r done t).1
  kept_if r done t h =
      if_elim (λ (p : Result Race × App F). IsExclusive p.1) (accepts_names r) (λ b. h) (λ b. x)

  pub create_race-IsExclusive :
      (id : ℕ) (f : RaceForm)
      → Repository.get_race s.db id ≡ none
      → StartsIdle cfg
      → IsExclusive (create_race cfg id now f s).1
  unfolding create_race new_row
  create_race-IsExclusive id f fresh idle = elim (Bool-cases (is_valid f)) [
    | inr bad ↦ rw bad x
    | inl good ↦ elim (Option-cases (parse_status cfg.default_race_status_after_create)) [
      | inl e ↦ rw good (rw (e, create_race) x)
      | inr (st, e) ↦ rw good (
          rw (e, create_race)
            (kept_if (new_row id now f st none) (ok (to_read (new_row id now f st none))) _
              (insert-IsExclusive (new_row id now f st none) fresh (idle_status st idle e))))
    ]
  ]

  pub delete_race-IsExclusive : (k : ℕ) → IsExclusive (delete_race k s).1
  unfolding delete_race
  delete_race-IsExclusive k = elim (Option-cases (Repository.get_race s.db k)) [
    | inl e ↦ rw (e, delete_race) x
    | inr (r, e) ↦ elim (Bool-cases (is_running r.status)) [
      | inl live ↦ rw (e, delete_race) (rw live x)
      | inr idle ↦
          rw (e, delete_race)
            (rw idle (
              clear_active-IsExclusive k _ (ground (arith, status-delete_race s.db k k))
                (record { only = λ j h. ground (arith, status-delete_race s.db j k, x.only j) })))
    ]
  ]

  edit-IsExclusive :
      (k : ℕ) (r : Race) (f : RaceForm)
      → Repository.get_race s.db k ≡ some r
      → IsExclusive (record s { db = save_race s.db (edited now f r) })
  unfolding edited
  edit-IsExclusive k r f e =
      let i = get_race-id s.db k r e in
      record {
        only = λ j h. ground (
          arith,
          status-save_race s.db j (edited now f r) {q = r} (ap (Repository.get_race s.db) i ∙ e),
          status-found s.db k r e,
          x.only j,
        );
      }

  copy_row_fields :
      (id : ℕ) (new_name : Option String) (st : RaceStatus) (src : Race)
      → ((copy_row id now new_name st src).id ≡ id)
        × ((copy_row id now new_name st src).status ≡ st)
  unfolding copy_row new_row
  copy_row_fields id new_name st src = ground arith

  pub update_race-IsExclusive : (k : ℕ) (f : RaceForm) → IsExclusive (update_race cfg now k f s).1
  unfolding update_race
  update_race-IsExclusive k f = elim (Option-cases (Repository.get_race s.db k)) [
    | inl e ↦ rw (e, update_race) (ground arith)
    | inr (r, e) ↦ elim (Bool-cases (is_valid f)) [
      | inr bad ↦ rw (e, update_race) (rw bad x)
      | inl good ↦
          elim (Bool-cases (not (is_editable r.status) && not cfg.allow_edit_running_race)) [
            | inl shut ↦ rw (e, update_race) (rw good (rw shut x))
            | inr open_race ↦
                rw (e, update_race)
                  (rw good (
                    rw open_race (
                      kept_if (edited now f r) (ok (to_read (edited now f r))) _
                        (edit-IsExclusive k r f e))))
          ]
    ]
  ]

  pub repeat_race-IsExclusive :
      (id k : ℕ) (new_name : Option String)
      → Repository.get_race s.db id ≡ none
      → StartsIdle cfg
      → IsExclusive (repeat_race cfg id now k new_name s).1
  unfolding repeat_race
  repeat_race-IsExclusive id k new_name fresh idle =
      elim (Option-cases (Repository.get_race s.db k)) [
        | inl e ↦ rw (e, repeat_race) x
        | inr (src, e) ↦ elim (Bool-cases (is_valid (copy_form new_name src))) [
          | inr bad ↦ rw (e, repeat_race) (rw bad x)
          | inl good ↦ elim (Option-cases (parse_status cfg.default_race_status_after_create)) [
            | inl n ↦ rw (e, repeat_race) (rw good (rw (n, repeat_race) x))
            | inr (st, n) ↦
                rw (e, repeat_race)
                  (rw good (
                    rw (n, repeat_race)
                      (kept_if (copy_row id now new_name st src)
                        (ok (to_read (copy_row id now new_name st src))) _
                        (insert-IsExclusive (copy_row id now new_name st src)
                          (rw (copy_row_fields id new_name st src).0 fresh)
                          (rw (copy_row_fields id new_name st src).1 (idle_status st idle n))))))
          ]
        ]
      ]
