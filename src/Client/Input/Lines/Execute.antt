-- ===== src/Client/Input/Lines/Execute.antt =====
-- execute_jobs_according_to_input_file of client.c on the lines of a list of jobs.
use rdma_rendezvous_key_valu.Prelude.{
  ℕ, ◌≡◌, refl, ap, subst, take, ◌<◌, ◌^◌, ◌∙◌, List, [], ◌∷◌, ◌++◌, some, if◌then◌else◌, length,
  take-append, le→leb, arith, All, print_dec, fun_ext,
}
use mathlib.Core.List.{append-nil}
use rdma_rendezvous_key_valu.Prelude.Exec.{done, Exec, pure, exit, gets, ◌>>=◌, ◌>>◌}
use rdma_rendezvous_key_valu.Platform.{Platform}
use rdma_rendezvous_key_valu.Client.State.{Client}
use rdma_rendezvous_key_valu.Client.Api.{kv_get, kv_set}
use rdma_rendezvous_key_valu.Client.Input.{
  Job, get_job, set_job, find_value, strip_newline, execute_line, execute_lines,
  execute_jobs_according_to_input_file,
}
use rdma_rendezvous_key_valu.Client.Input.Lines.{
  line_of, lines_of, IsWritable, text_of-IsCString, find_key-get, find_key-set, find_value-cut,
  scan_key_len-word,
}
use rdma_rendezvous_key_valu.Client.Input.Lines.Getline.{
  file_of, bare_line, line_of-bare, lines_in-file_of,
}

strip_newline-append : (xs : List ℕ) → strip_newline (xs ++ 10 ∷ []) ≡ xs
unfolding strip_newline
strip_newline-append [] = refl
strip_newline-append (x ∷ []) = refl
strip_newline-append (x ∷ y ∷ xs) = ap (◌∷◌ x) (strip_newline-append (y ∷ xs))

strip_newline-line_of : (job : Job) → strip_newline (line_of job) ≡ bare_line job
strip_newline-line_of job =
    ap strip_newline (line_of-bare job) ∙ strip_newline-append (bare_line job)

take-whole : (xs : List ℕ) → take (length xs) xs ≡ xs
take-whole xs = subst (λ ys. take (length xs) ys ≡ xs) (append-nil xs) (take-append xs [])

find_value-bare :
    {S : Type 0} (key value : List ℕ) (s : S)
    → length value < 2 ^ 31
    → find_value (key ++ (b',' ∷ (print_dec (length value) ++ (b',' ∷ value)))) (length key) s
      ≡ done ((length value, value), s)
find_value-bare key value s h =
    subst
      (λ (v : List ℕ).
        find_value (key ++ (b',' ∷ (print_dec (length value) ++ (b',' ∷ v)))) (length key) s
        ≡ done ((length value, v), s))
      (append-nil value) (find_value-cut key value [] s h)

module _ ⦃x : Platform⦄ (rounds : ℕ) where
  -- The call for a job.
  abbrev pub call_of : Job → Exec Client (Unit {0})
  call_of (get_job key) = do kv_get rounds key; pure tt
  call_of (set_job key value) = do kv_set rounds key value; pure tt

  -- The calls for a list of jobs, until a signal to stop.
  abbrev pub calls_of : List Job → Exec Client (Unit {0})
  calls_of [] = pure tt
  calls_of (job ∷ jobs) = do
    shutdown ← gets λ s. s.immediate_shutdown
    if shutdown then exit 1 else do call_of job; calls_of jobs

  execute_line-bare :
      (job : Job) (s : Client)
      → IsWritable job
      → execute_line rounds (bare_line job) s ≡ call_of job s
  unfolding execute_line
  execute_line-bare (get_job key) s h =
      rw (find_key-get (length key) key s, text_of-IsCString key h.string)
  execute_line-bare (set_job key value) s h =
      let tail = print_dec (length value) ++ (b',' ∷ value) in
      let rest = key ++ (b',' ∷ tail) in
      rw (
        scan_key_len-word (length key) rest b'S' b'E' b'T' h.0.short,
        find_key-set (length key) rest s,
        find_value-bare key value s h.1.short,
        le→leb (length value) (length value) (omega arith),
        take-append key (b',' ∷ tail),
        take-whole value,
        text_of-IsCString key h.0.string,
        text_of-IsCString value h.1.string,
      )

  execute_lines-lines_of :
      (jobs : List Job) (s : Client)
      → All IsWritable jobs
      → execute_lines rounds (lines_of jobs) s ≡ calls_of jobs s
  unfolding execute_lines
  execute_lines-lines_of [] s writable = refl
  execute_lines-lines_of (job ∷ jobs) s (writable, rest) =
      let line : execute_line rounds (strip_newline (line_of job)) ≡ call_of job = fun_ext λ t.
        ap (λ l. execute_line rounds l t) (strip_newline-line_of job)
        ∙ execute_line-bare job t writable in
      let lines : execute_lines rounds (lines_of jobs) ≡ calls_of jobs =
        fun_ext λ t. execute_lines-lines_of jobs t rest in
      ap
        (λ (m : Exec Client (Unit {0})).
          (if s.immediate_shutdown then exit 1 else (m >> execute_lines rounds (lines_of jobs))) s)
        line
      ∙ ap
          (λ (m : Exec Client (Unit {0})).
            (if s.immediate_shutdown then exit 1 else (call_of job >> m)) s)
          lines

  pub execute_jobs-lines_of :
      (jobs : List Job) (s : Client)
      → All IsWritable jobs
      → execute_jobs_according_to_input_file rounds (some (file_of jobs)) s ≡ calls_of jobs s
  unfolding execute_jobs_according_to_input_file
  execute_jobs-lines_of jobs s writable =
      ap (λ lines. execute_lines rounds lines s) (lines_in-file_of jobs writable)
      ∙ execute_lines-lines_of jobs s writable
