-- ===== src/Client/Input.antt =====
-- The input files of client.c: what execute_jobs_according_to_input_file and
-- kv_test_get_set_from_file read from a file, and what they do with it. A file is its bytes, which
-- getline cuts into lines; the functions of string.h stop at a zero byte. A length that sscanf does
-- not find, or that an `int` does not hold, is indeterminate, and a negative one is an undefined copy:
-- both are faults.
pub mod Lines
use rdma_rendezvous_key_valu.Prelude.{
  ℕ, suc, ◌+◌, ◌-◌, ◌*◌, ◌^◌, Bool, true, false, ◌&&◌, ◌||◌, List, [], ◌∷◌, ◌++◌, Option, none,
  some, if◌then◌else◌, ltb, leb, ◌==◌, length, take, drop, c_string, scan_number, scan_char,
  dec_value, str_eq,
}
use rdma_rendezvous_key_valu.Prelude.Exec.{
  Outcome, done, exited, fault, Exec, pure, exit, gets, deref, assert, ◌>>=◌, ◌>>◌,
}
use rdma_rendezvous_key_valu.Platform.{Platform}
use rdma_rendezvous_key_valu.Server.Db.{Buffer}
use rdma_rendezvous_key_valu.Client.Requests.{calloc}
use rdma_rendezvous_key_valu.Client.State.{Client, ClientState, in_queue}
use rdma_rendezvous_key_valu.Client.Api.{kv_get, kv_set}

abbrev pub get_word : List ℕ
get_word = b'G' ∷ b'E' ∷ b'T' ∷ []

abbrev pub set_word : List ℕ
set_word = b'S' ∷ b'E' ∷ b'T' ∷ []

-- strncmp(line, word, 3) == 0
abbrev pub starts_with : List ℕ → List ℕ → Bool
starts_with word line = str_eq (take 3 line) word

-- The lines that getline reads: each ends with its newline, the last one perhaps without.
abbrev pub into_first : ℕ → List (List ℕ) → List (List ℕ)
into_first c [] = (c ∷ []) ∷ []
into_first c (line ∷ lines) = (c ∷ line) ∷ lines

unfoldable pub lines_in : List ℕ → List (List ℕ)
lines_in [] = []
lines_in (c ∷ cs) = let rest = lines_in cs in if c == 10 then (c ∷ []) ∷ rest else into_first c rest

-- What a `char *` to these bytes is as a string: the bytes before the first zero.
unfoldable pub text_of : List ℕ → List ℕ
text_of [] = []
text_of (c ∷ cs) = let rest = text_of cs in if c == 0 then [] else c ∷ rest

-- strchr(s, ',') + 1
unfoldable pub after_comma : List ℕ → Option (List ℕ)
after_comma [] = none
after_comma (c ∷ cs) =
    let rest = after_comma cs in if c == 0 then none else if c == b',' then some cs else rest

abbrev pub is_space : ℕ → Bool
is_space c = (c == b' ') || (leb 9 c && leb c 13)

unfoldable pub skip_space : List ℕ → List ℕ
skip_space [] = []
skip_space (c ∷ cs) = let rest = skip_space cs in if is_space c then rest else c ∷ cs

unfoldable pub skip_plus : List ℕ → List ℕ
skip_plus [] = []
skip_plus (c ∷ cs) = if c == b'+' then cs else c ∷ cs

-- The number that an `int` takes.
abbrev pub int_of : Option (ℕ × List ℕ) → Option ℕ
int_of none = none
int_of (some (n, _)) = if ltb n (2 ^ 31) then some n else none

-- "%d" into an `int`
unfoldable pub scan_int : List ℕ → Option ℕ
scan_int s = int_of (scan_number dec_value 10 (skip_plus (skip_space s)))

-- sscanf(line, "GET,%d,", &key_len), on a line that starts with the three letters
unfoldable pub scan_key_len : List ℕ → Option ℕ
unfolding scan_int
scan_key_len line = elim (scan_char b',' (drop 3 line)) [ none ↦ none | some s ↦ scan_int s ]

-- One entry of requests.opcodes, requests.keys and requests.values.
pub data Job : Type 0 where
  get_job : (key : List ℕ) → Job
  set_job : (key value : List ℕ) → Job

-- The key, behind the second comma.
unfoldable pub find_key : {S : Type 0} → List ℕ → Exec S (List ℕ)
find_key line = do s ← deref (after_comma line); deref (after_comma s)

-- What stands behind a key of that length: the value's length and the value's start.
unfoldable pub find_value : {S : Type 0} → List ℕ → ℕ → Exec S (ℕ × List ℕ)
find_value key key_len = do
  assert (leb (key_len + 1) (length key))
  let rest = drop (key_len + 1) key
  value_len ← deref (scan_int rest)
  value ← deref (after_comma rest)
  pure (value_len, value)

-- The job of a line of kv_test_get_set_from_file: strncpy copies as much as there is.
unfoldable pub parse_job : {S : Type 0} → List ℕ → Exec S Job
unfolding find_key find_value text_of
parse_job line =
    if starts_with get_word line
    then (do
      key_len ← deref (scan_key_len line)
      key ← find_key line
      pure (get_job (text_of (take key_len key))))
    else if starts_with set_word line
    then (do
      key_len ← deref (scan_key_len line)
      key ← find_key line
      (value_len, value) ← find_value key key_len
      pure (set_job (text_of (take key_len key)) (text_of (take value_len value))))
    else exit 1

-- The arrays of requests: their entries so far, and allocated_size.
pub record JobArrays : Type 0 where
  pub jobs : List Job
  pub allocated_size : ℕ

-- The newline at the end of a line.
unfoldable pub strip_newline : List ℕ → List ℕ
strip_newline [] = []
strip_newline (c ∷ []) = if c == 10 then [] else c ∷ []
strip_newline (c ∷ d ∷ cs) = c ∷ strip_newline (d ∷ cs)

module _ ⦃x : Platform⦄ where
  -- A calloc whose result is used without a test.
  abbrev pub need : Exec Client ℕ
  need = do p ← in_queue calloc; deref p

  abbrev pub need_entry : Job → Exec Client (Unit {0})
  need_entry (get_job key) = do need; pure tt
  need_entry (set_job key value) = do need; need; pure tt

  -- An entry at the index num_lines, and arrays of twice the size when the old ones have room for
  -- one entry more.
  unfoldable pub store_job : Job → JobArrays → Exec Client JobArrays
  store_job job a = do
    assert (ltb (length a.jobs) a.allocated_size)
    need_entry job
    let jobs = a.jobs ++ job ∷ []
    if length jobs == a.allocated_size - 1
        then (do
          need
          need
          need
          pure (record { jobs = jobs; allocated_size = a.allocated_size * 2 }))
        else pure (record { jobs = jobs; allocated_size = a.allocated_size })

  unfoldable pub add_job : List ℕ → JobArrays → Exec Client JobArrays
  add_job line a = do job ← parse_job line; store_job job a

  -- The loop over the lines.
  unfoldable pub read_jobs : List (List ℕ) → JobArrays → Exec Client JobArrays
  unfolding add_job
  read_jobs [] a = pure a
  read_jobs (line ∷ lines) a = do
    shutdown ← gets λ s. s.immediate_shutdown
    if shutdown then exit 1 else do b ← add_job line a; read_jobs lines b

  module _ (rounds : ℕ) where
    -- strlen(output) of what kv_get has stored; after a failure that pointer is null or freed.
    output_length : Option (Option Buffer) → Exec Client ℕ
    output_length none s = fault
    output_length (some none) s = fault
    output_length (some (some b)) s =
        (do text ← deref (c_string b.len b.byte); pure (length text)) s

    -- The loop over the entries, which counts the bytes that the GETs have read.
    unfoldable pub run_jobs : List Job → ℕ → Exec Client ℕ
    unfolding output_length
    run_jobs [] total_read_len = pure total_read_len
    run_jobs (get_job key ∷ jobs) total_read_len = do
      output ← kv_get rounds key
      n ← output_length output
      run_jobs jobs (total_read_len + n)
    run_jobs (set_job key value ∷ jobs) total_read_len = do
      kv_set rounds key value
      run_jobs jobs total_read_len

    -- `none` is a file that cannot be opened. The result is total_read_len.
    unfoldable pub kv_test_get_set_from_file : Option (List ℕ) → Exec Client ℕ
    unfolding lines_in read_jobs run_jobs
    kv_test_get_set_from_file none = exit 1
    kv_test_get_set_from_file (some file) = do
      need
      need
      need
      requests ← read_jobs (lines_in file) (record { jobs = []; allocated_size = 50 })
      run_jobs requests.jobs 0

    -- A line of execute_jobs_according_to_input_file. The terminators are written into the line.
    unfoldable pub execute_line : List ℕ → Exec Client (Unit {0})
    unfolding find_key find_value text_of
    execute_line line =
        if starts_with get_word line
        then (do key ← find_key line; kv_get rounds (text_of key); pure tt)
        else if starts_with set_word line
        then (do
          key_len ← deref (scan_key_len line)
          key ← find_key line
          (value_len, value) ← find_value key key_len
          assert (leb value_len (length value))
          kv_set rounds (text_of (take key_len key)) (text_of (take value_len value))
          pure tt)
        else pure tt

    unfoldable pub execute_lines : List (List ℕ) → Exec Client (Unit {0})
    unfolding strip_newline execute_line
    execute_lines [] = pure tt
    execute_lines (line ∷ lines) = do
      shutdown ← gets λ s. s.immediate_shutdown
      if shutdown then exit 1 else do execute_line (strip_newline line); execute_lines lines

    unfoldable pub execute_jobs_according_to_input_file : Option (List ℕ) → Exec Client (Unit {0})
    unfolding lines_in execute_lines
    execute_jobs_according_to_input_file none = exit 1
    execute_jobs_according_to_input_file (some file) = execute_lines (lines_in file)
