-- ===== src/Jobs/Recovery.antt =====
-- `recover_stale_processing_jobs`: what one recovery pass requeues.
use mathlib.Core.List.{Memᴰ}
use document_generation_anek.Prelude.{
  ℕ, suc, ◌≤◌, ◌≡◌, refl, ap, ◌∙◌, some, List, [], ◌∷◌, true, false, not, ◌&&◌, ◌||◌, All, All-take,
  All-sort_by, any, any-sort_by, map, take, take-all, select, sort_by, update, length,
  length-take-le, length-sort_by, ◌==◌, if◌then◌else◌, Bool, Bool-cases, inl, inr, All-weaken,
}
use document_generation_anek.Result.{ok}
use document_generation_anek.Models.{DocumentJob}
use document_generation_anek.Database.{Db}
use document_generation_anek.Jobs.Ids.{has_id-select}
use document_generation_anek.Jobs.{
  asc, has_id, is_stale_processing, stale_jobs, requeued_row, recover_stale_processing_jobs,
}

module _ (locked : ℕ → Bool) (stale_before limit : ℕ) where
  abbrev is_target : DocumentJob → Bool
  is_target r = is_stale_processing (some stale_before) r && not (locked r.id)

  length-map_id : (xs : List DocumentJob) → length (map (λ (j : DocumentJob). j.id) xs) ≡ length xs
  length-map_id [] = refl
  length-map_id (x ∷ xs) = ap suc (length-map_id xs)

  rows_selected :
      (all rows : List DocumentJob)
      → ((r : DocumentJob) → Memᴰ r rows → Memᴰ r all)
      → All (λ r. Memᴰ r all × (is_target r ≡ true)) (select is_target rows)
  rows_selected all [] h = tt
  rows_selected all (r ∷ rows) h =
      one (rows_selected all rows λ x m. h x (Memᴰ.tail m)) (is_target r) refl
    where
      one :
          All (λ x. Memᴰ x all × (is_target x ≡ true)) (select is_target rows)
          → (b : Bool) → is_target r ≡ b
          → All
              (λ x. Memᴰ x all × (is_target x ≡ true))
              (if b then r ∷ select is_target rows else select is_target rows)
      one rest true e = ((h r (Memᴰ.head refl), e), rest)
      one rest false e = rest

  -- A pass reports at most `limit` jobs: each of them is a row of the table, was processing since before the limit, and was
  -- locked by no other session. The rows with the reported identifiers are requeued, and no other row changes.
  pub recover_sound :
      (ids : List ℕ) (db db' : Db)
      → recover_stale_processing_jobs locked stale_before limit db ≡ ok (ids, db')
      → (jobs : List DocumentJob) × (ids ≡ map (λ (j : DocumentJob). j.id) jobs)
        × (length ids ≤ limit)
        × All (λ r. Memᴰ r db.jobs × (is_target r ≡ true)) jobs
        × (db'.jobs
            ≡ update (has_id jobs) (requeued_row (some "Recovered stale processing job.")) db.jobs)
  unfolding recover_stale_processing_jobs
  recover_sound ids db db' e =
      let jobs = stale_jobs locked stale_before limit db.jobs in
      let q : ids ≡ map (λ (j : DocumentJob). j.id) jobs = cc in
      (
        jobs,
        q,
        (rw q (rw (length-map_id jobs) (length-take-le limit _))),
        All-take _ limit _ (
            All-sort_by _ (λ a b. asc a.started_at b.started_at) (select is_target db.jobs)
              (rows_selected db.jobs db.jobs (λ r m. m))),
        cc,
      )

  no_target :
      (jobs rows : List DocumentJob)
      → All (λ r. is_target r ≡ true → has_id jobs r ≡ true) rows
      → any is_target
          (update (has_id jobs) (requeued_row (some "Recovered stale processing job.")) rows)
        ≡ false
  unfolding requeued_row is_stale_processing
  no_target jobs [] h = refl
  no_target jobs (r ∷ rows) h = one (has_id jobs r) h.0 (no_target jobs rows h.1)
    where
      new : DocumentJob → DocumentJob
      new = requeued_row (some "Recovered stale processing job.")

      one :
          (b : Bool)
          → (is_target r ≡ true → b ≡ true)
          → any is_target (update (has_id jobs) new rows) ≡ false
          → (is_target (if b then new r else r) || any is_target (update (has_id jobs) new rows))
            ≡ false
      one true f e = e
      one false f e = elim (Bool-cases (is_target r)) [ inl t ↦ absurd (cc (f t)) | inr t ↦ rw t e ]

  -- Where the stale unlocked jobs are no more than `limit`, none is left after the pass.
  pub recover_complete :
      (ids : List ℕ) (db db' : Db)
      → length (select is_target db.jobs) ≤ limit
      → recover_stale_processing_jobs locked stale_before limit db ≡ ok (ids, db')
      → any is_target db'.jobs ≡ false
  unfolding recover_stale_processing_jobs
  recover_complete ids db db' few e =
      let by = λ (a b : DocumentJob). asc a.started_at b.started_at in
      let targets = sort_by by (select is_target db.jobs) in
      let cut : take limit targets ≡ targets =
        take-all limit targets (rw (length-sort_by by (select is_target db.jobs)) few) in
      let q : db'.jobs
          ≡ update (has_id (take limit targets))
              (requeued_row (some "Recovered stale processing job.")) db.jobs =
        cc in
      rw q (
        rw cut (
          no_target targets db.jobs (
            All-weaken _ _ db.jobs
              (λ r f h. any-sort_by by (λ j. j.id == r.id) (select is_target db.jobs) ∙ f h)
              (has_id-select is_target db.jobs))))
