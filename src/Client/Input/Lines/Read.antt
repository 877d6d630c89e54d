-- ===== src/Client/Input/Lines/Read.antt =====
-- The loop of kv_test_get_set_from_file over the file of a list of jobs, and its growing arrays.
use rdma_rendezvous_key_valu.Prelude.{
  ℕ, suc, ◌+◌, ◌-◌, ◌*◌, ◌<◌, ◌==◌, ◌≡◌, refl, sym, ap, ◌∙◌, inl, inr, true, false, List, [], ◌∷◌,
  ◌++◌, if◌then◌else◌, lt→ltb, length, length-append, arith, All, Bool-cases,
}
use mathlib.Core.List.{append_assoc, append-nil}
use rdma_rendezvous_key_valu.Prelude.Exec.{Outcome, done, Exec, exit, ◌>>=◌, bind-done}
use rdma_rendezvous_key_valu.Platform.{Platform}
use rdma_rendezvous_key_valu.Client.Requests.{calloc}
use rdma_rendezvous_key_valu.Client.State.{Client}
use rdma_rendezvous_key_valu.Client.Input.{
  Job, get_job, set_job, JobArrays, store_job, add_job, read_jobs, lines_in,
}
use rdma_rendezvous_key_valu.Client.Input.Lines.{line_of, lines_of, IsWritable, parse_job-line_of}
use rdma_rendezvous_key_valu.Client.Input.Lines.Getline.{file_of, lines_in-file_of}

module _ ⦃x : Platform⦄ where
  -- The client after that many allocations.
  abbrev pub after_calls : ℕ → Client → Client
  after_calls n s = record s { queue = record s.queue { calls = n } }

  -- Room for one entry more.
  abbrev pub HasRoom : JobArrays → Type 0
  HasRoom a = (length a.jobs + 1 < a.allocated_size)

  -- What an entry leaves.
  Stored : Client → JobArrays → Job → Outcome (JobArrays × Client) → Type 0
  Stored s a job r =
      (b : JobArrays) × (n : ℕ) × (r ≡ done (b, after_calls n s))
      × (b.jobs ≡ a.jobs ++ job ∷ [])
      × HasRoom b

  grown_room :
      (jobs : List Job) (job : Job) (size : ℕ)
      → length jobs + 1 < size
      → (length (jobs ++ job ∷ []) == size - 1) ≡ true
      → length (jobs ++ job ∷ []) + 1 < size * 2
  grown_room jobs job size room e = ground (arith, length-append jobs (job ∷ []))

  kept_room :
      (jobs : List Job) (job : Job) (size : ℕ)
      → length jobs + 1 < size
      → (length (jobs ++ job ∷ []) == size - 1) ≡ false
      → length (jobs ++ job ∷ []) + 1 < size
  kept_room jobs job size room e = ground (arith, length-append jobs (job ∷ []))

  store_job-Stored :
      (job : Job) (a : JobArrays) (s : Client)
      → ((n : ℕ) → x.calloc n ≡ true)
      → HasRoom a
      → Stored s a job (store_job job a s)
  unfolding store_job calloc Stored
  store_job-Stored (get_job key) a s ok room =
      let c = s.queue.calls in
      let jobs = a.jobs ++ get_job key ∷ [] in
      let space = lt→ltb (length a.jobs) a.allocated_size (omega arith) in
      elim (Bool-cases (length jobs == a.allocated_size - 1)) [
        | inl full ↦ (
          record { jobs = jobs; allocated_size = a.allocated_size * 2 },
          suc (suc (suc (suc c))),
          rw (space, ok c, full, ok (suc c), ok (suc (suc c)), ok (suc (suc (suc c)))),
          refl,
          grown_room a.jobs (get_job key) a.allocated_size room full,
        )
        | inr left ↦ (
          record { jobs = jobs; allocated_size = a.allocated_size },
          suc c,
          rw (space, ok c, left),
          refl,
          kept_room a.jobs (get_job key) a.allocated_size room left,
        )
      ]
  store_job-Stored (set_job key value) a s ok room =
      let c = s.queue.calls in
      let jobs = a.jobs ++ set_job key value ∷ [] in
      let space = lt→ltb (length a.jobs) a.allocated_size (omega arith) in
      elim (Bool-cases (length jobs == a.allocated_size - 1)) [
        | inl full ↦ (
          record { jobs = jobs; allocated_size = a.allocated_size * 2 },
          suc (suc (suc (suc (suc c)))),
          rw (
            space,
            ok c,
            ok (suc c),
            full,
            ok (suc (suc c)),
            ok (suc (suc (suc c))),
            ok (suc (suc (suc (suc c)))),
          ),
          refl,
          grown_room a.jobs (set_job key value) a.allocated_size room full,
        )
        | inr left ↦ (
          record { jobs = jobs; allocated_size = a.allocated_size },
          suc (suc c),
          rw (space, ok c, ok (suc c), left),
          refl,
          kept_room a.jobs (set_job key value) a.allocated_size room left,
        )
      ]

  add_job-line_of :
      (job : Job) (a : JobArrays) (s : Client)
      → IsWritable job
      → ((n : ℕ) → x.calloc n ≡ true)
      → HasRoom a
      → Stored s a job (add_job (line_of job) a s)
  unfolding add_job
  add_job-line_of job a s short ok room =
      rw (parse_job-line_of job s short) (store_job-Stored job a s ok room)

  read_jobs-cons :
      (line : List ℕ) (lines : List (List ℕ)) (a b : JobArrays) (s t : Client)
      → s.immediate_shutdown ≡ false
      → add_job line a s ≡ done (b, t)
      → read_jobs (line ∷ lines) a s ≡ read_jobs lines b t
  unfolding read_jobs
  read_jobs-cons line lines a b s t run added =
      let step : Exec Client JobArrays = add_job line a >>= read_jobs lines in
      ap (λ shutdown. (if shutdown then exit 1 else step) s) run
      ∙ bind-done (add_job line a) (read_jobs lines) s b t added

  read_jobs-lines :
      (jobs : List Job) (a : JobArrays) (s : Client)
      → ((n : ℕ) → x.calloc n ≡ true)
      → s.immediate_shutdown ≡ false
      → All IsWritable jobs
      → HasRoom a
      → (b : JobArrays) × (n : ℕ) × (read_jobs (lines_of jobs) a s ≡ done (b, after_calls n s))
        × (b.jobs ≡ a.jobs ++ jobs)
        × HasRoom b
  unfolding read_jobs Stored
  read_jobs-lines [] a s ok run writable room =
      (a, s.queue.calls, refl, sym (append-nil a.jobs), room)
  read_jobs-lines (job ∷ jobs) a s ok run (writable, rest) room =
      let (b, n, stored, added, more) = add_job-line_of job a s writable ok room in
      let (c, m, read, all, last) = read_jobs-lines jobs b (after_calls n s) ok run rest more in
      (
        c,
        m,
        read_jobs-cons (line_of job) (lines_of jobs) a b s (after_calls n s) run stored ∙ read,
        all ∙ rw added (append_assoc a.jobs (job ∷ []) jobs),
        last,
      )

  -- Reading a file that was written for jobs, whose keys and values have neither a zero byte nor a
  -- newline in them and lengths that an `int` holds, with every allocation successful and no signal
  -- to stop: getline cuts it into the lines that were written, and just these jobs are appended to
  -- the arrays, however often these have to grow. No entry is written past their end, and there is
  -- room for another one.
  pub read_jobs-lines_of :
      (jobs : List Job) (a : JobArrays) (s : Client)
      → ((n : ℕ) → x.calloc n ≡ true)
      → s.immediate_shutdown ≡ false
      → All IsWritable jobs
      → HasRoom a
      → (b : JobArrays) × (n : ℕ) × (read_jobs (lines_in (file_of jobs)) a s
          ≡ done (b, after_calls n s))
        × (b.jobs ≡ a.jobs ++ jobs)
        × HasRoom b
  read_jobs-lines_of jobs a s ok run writable room =
      let (b, n, read, all, more) = read_jobs-lines jobs a s ok run writable room in
      (b, n, ap (λ lines. read_jobs lines a s) (lines_in-file_of jobs writable) ∙ read, all, more)
