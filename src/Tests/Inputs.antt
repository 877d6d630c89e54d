-- ===== src/Tests/Inputs.antt =====
-- Two lines of an input file, the second with commas in its key and its value.
use rdma_rendezvous_key_valu.Prelude.{some, ℕ, ◌≡◌, refl, arith, List, All, [], ◌∷◌, ◌++◌}
use rdma_rendezvous_key_valu.Prelude.Exec.{done}
use rdma_rendezvous_key_valu.Platform.Instance.{test_platform}
use rdma_rendezvous_key_valu.Client.Input.{
  Job, get_job, set_job, JobArrays, read_jobs, lines_in, execute_jobs_according_to_input_file,
}
use rdma_rendezvous_key_valu.Client.Input.Lines.{IsField, IsWritable}
use rdma_rendezvous_key_valu.Client.Input.Lines.Getline.{file_of}
use rdma_rendezvous_key_valu.Client.Input.Lines.Read.{HasRoom, after_calls, read_jobs-lines_of}
use rdma_rendezvous_key_valu.Client.Input.Lines.Execute.{calls_of, execute_jobs-lines_of}
use rdma_rendezvous_key_valu.Tests.Clients.{client}

abbrev awkward : Job
awkward = set_job (b'k' ∷ b',' ∷ []) (b',' ∷ b'7' ∷ [])

abbrev two_jobs : List Job
two_jobs = get_job (b'k' ∷ []) ∷ awkward ∷ []

k-IsField : IsField (b'k' ∷ [])
k-IsField = record {
  short = omega arith;
  string = ((λ h. omega (arith, h)), tt);
  one_line = ((λ h. omega (arith, h)), tt);
}

awkward-IsWritable : IsWritable awkward
awkward-IsWritable = (
  record {
    short = omega arith;
    string = ((λ h. omega (arith, h)), ((λ h. omega (arith, h)), tt));
    one_line = ((λ h. omega (arith, h)), ((λ h. omega (arith, h)), tt));
  },
  record {
    short = omega arith;
    string = ((λ h. omega (arith, h)), ((λ h. omega (arith, h)), tt));
    one_line = ((λ h. omega (arith, h)), ((λ h. omega (arith, h)), tt));
  },
)

two_jobs-IsWritable : All IsWritable two_jobs
two_jobs-IsWritable = (k-IsField, (awkward-IsWritable, tt))

-- Arrays that have to grow at the first entry.
abbrev small : JobArrays
small = record { jobs = []; allocated_size = 2 }

read_jobs-lines_of_example :
    (b : JobArrays) × (n : ℕ) × (read_jobs (lines_in (file_of two_jobs)) small client
      ≡ done (b, after_calls n client))
    × (b.jobs ≡ [] ++ two_jobs)
    × HasRoom b
read_jobs-lines_of_example =
    read_jobs-lines_of two_jobs small client (λ n. refl) refl two_jobs-IsWritable (omega arith)

execute_jobs-lines_of_example :
    execute_jobs_according_to_input_file 2 (some (file_of two_jobs)) client
    ≡ calls_of 2 two_jobs client
execute_jobs-lines_of_example = execute_jobs-lines_of 2 two_jobs client two_jobs-IsWritable
