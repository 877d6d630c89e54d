-- ===== src/Client/Input/Lines.antt =====
-- The lines that inputs/generate_inputs.py writes, and the jobs that client.c reads from them.
pub mod Getline
pub mod Execute
pub mod Read
use rdma_rendezvous_key_valu.Prelude.{
  ℕ, zero, suc, ◌+◌, ◌-◌, ◌*◌, ◌/◌, ◌%◌, ◌^◌, ◌<◌, ◌==◌, ◌≡◌, refl, sym, ap, ◌∙◌, inl, inr, true,
  false, List, [], ◌∷◌, ◌++◌, none, some, if◌then◌else◌, ltb, lt→ltb, le→leb, length, length-append,
  drop, take-append, arith, All, IsCString, ◌≢◌, ne→==_false, Bool-cases, dec_digits, print_dec,
  scan_number, scan_number-print_dec, scan_char, dec_value, HasDigit, print_dec-HasDigit,
}
use mathlib.Core.List.{append_assoc, append-nil}
use rdma_rendezvous_key_valu.Prelude.Exec.{Outcome, done, Exec, exit, ◌>>=◌, bind-done}
use rdma_rendezvous_key_valu.Platform.{Platform}
use rdma_rendezvous_key_valu.Client.Requests.{calloc}
use rdma_rendezvous_key_valu.Client.State.{Client}
use rdma_rendezvous_key_valu.Client.Input.{
  get_word, set_word, text_of, after_comma, skip_space, skip_plus, int_of, scan_int, scan_key_len,
  Job, get_job, set_job, find_key, find_value, parse_job, JobArrays, store_job, add_job, read_jobs,
}

-- generate_get_request and generate_set_request
unfoldable pub line_of : Job → List ℕ
line_of (get_job key) = get_word ++ (b',' ∷ (print_dec (length key) ++ (b',' ∷ (key ++ 10 ∷ []))))
line_of (set_job key value) =
    set_word
    ++ (b','
        ∷ (print_dec (length key)
            ++ (b','
                ∷ (key ++ (b',' ∷ (print_dec (length value) ++ (b',' ∷ (value ++ 10 ∷ []))))))))

-- A key or a value that a line can hold: an `int` holds its length, and it has neither a zero byte
-- nor a newline in it.
pub record IsField (field : List ℕ) : Type 0 where
  pub short : length field < 2 ^ 31
  pub string : IsCString field
  pub one_line : All (λ c. c ≢ 10) field

abbrev pub IsWritable : Job → Type 0
IsWritable (get_job key) = IsField key
IsWritable (set_job key value) = IsField key × IsField value

text_of-IsCString : (s : List ℕ) → IsCString s → text_of s ≡ s
unfolding text_of
text_of-IsCString [] h = refl
text_of-IsCString (c ∷ s) (nonzero, rest) = rw (ne→==_false c 0 nonzero, text_of-IsCString s rest)

-- No comma stands in a number.
after_comma-dec_digits :
    (fuel n : ℕ) (rest : List ℕ) → after_comma (dec_digits fuel n ++ rest) ≡ after_comma rest
unfolding dec_digits after_comma
after_comma-dec_digits zero n rest = refl
after_comma-dec_digits (suc fuel) n rest = elim (Bool-cases (ltb n 10)) [
  | inl one ↦ rw one (ground arith)
  | inr more ↦
      rw
        (
          more,
          append_assoc (dec_digits fuel (n / 10)) ((b'0' + n % 10) ∷ []) rest,
          after_comma-dec_digits fuel (n / 10) ((b'0' + n % 10) ∷ rest),
        )
        (ground arith)
]

after_comma-print_dec :
    (n : ℕ) (rest : List ℕ) → after_comma (print_dec n ++ (b',' ∷ rest)) ≡ some rest
unfolding print_dec after_comma
after_comma-print_dec n rest = after_comma-dec_digits (suc n) n (b',' ∷ rest)

-- A digit is neither white space nor a sign.
skips-digit : (s : List ℕ) → HasDigit dec_value s → skip_plus (skip_space s) ≡ s
unfolding skip_plus skip_space dec_value
skips-digit s (c, d, cs, e, h) = rw e (ground (arith, h))

comma_value : dec_value b',' ≡ none
unfolding dec_value
comma_value = refl

scan_int-some :
    (s rest : List ℕ) (n : ℕ)
    → skip_plus (skip_space s) ≡ s
    → scan_number dec_value 10 s ≡ some (n, rest)
    → n < 2 ^ 31
    → scan_int s ≡ some n
unfolding scan_int
scan_int-some s rest n e scanned h =
    ap (λ t. int_of (scan_number dec_value 10 t)) e ∙ ap int_of scanned ∙ rw (lt→ltb n (2 ^ 31) h)

scan_int-print_dec :
    (n : ℕ) (rest : List ℕ) → n < 2 ^ 31 → scan_int (print_dec n ++ (b',' ∷ rest)) ≡ some n
scan_int-print_dec n rest h =
    scan_int-some (print_dec n ++ (b',' ∷ rest)) (b',' ∷ rest) n
      (skips-digit (print_dec n ++ (b',' ∷ rest)) (print_dec-HasDigit n (b',' ∷ rest)))
      (scan_number-print_dec n (b',' ∷ rest) comma_value) h

drop_field : (key rest : List ℕ) → drop (suc (length key)) (key ++ (b',' ∷ rest)) ≡ rest
drop_field [] rest = refl
drop_field (c ∷ key) rest = drop_field key rest

drop_behind : (key rest : List ℕ) → drop (length key + 1) (key ++ (b',' ∷ rest)) ≡ rest
drop_behind key rest =
    let e : length key + 1 ≡ suc (length key) = omega arith in rw e (drop_field key rest)

-- The parts of a line with the word of its job left off.
module _ (n : ℕ) (rest : List ℕ) where
  abbrev after_word : List ℕ
  after_word = b',' ∷ (print_dec n ++ (b',' ∷ rest))

  find_key-set : {S : Type 0} (s : S) → find_key (set_word ++ after_word) s ≡ done (rest, s)
  unfolding find_key after_comma
  find_key-set s = rw (after_comma-print_dec n rest)

  find_key-get : {S : Type 0} (s : S) → find_key (get_word ++ after_word) s ≡ done (rest, s)
  unfolding find_key after_comma
  find_key-get s = rw (after_comma-print_dec n rest)

  scan_key_len-word : (a b c : ℕ) → n < 2 ^ 31 → scan_key_len (a ∷ b ∷ c ∷ after_word) ≡ some n
  unfolding scan_key_len scan_char
  scan_key_len-word a b c h = rw (scan_int-print_dec n rest h)

-- A key, and a value behind it, are cut out by their lengths.
find_value-cut :
    {S : Type 0} (key value tail : List ℕ) (s : S)
    → length value < 2 ^ 31
    → find_value
        (key ++ (b',' ∷ (print_dec (length value) ++ (b',' ∷ (value ++ tail)))))
        (length key)
        s
      ≡ done ((length value, value ++ tail), s)
unfolding find_value
find_value-cut key value tail s h =
    let rest = print_dec (length value) ++ (b',' ∷ (value ++ tail)) in
    rw (
      le→leb (length key + 1) (length (key ++ (b',' ∷ rest)))
          (omega (arith, length-append key (b',' ∷ rest))),
      drop_behind key rest,
      scan_int-print_dec (length value) (value ++ tail) h,
      after_comma-print_dec (length value) (value ++ tail),
    )

-- A line of a file is read as the job that it was written for, whatever else its key and its value
-- are made of, commas and digits included.
pub parse_job-line_of :
    {S : Type 0} (job : Job) (s : S) → IsWritable job → parse_job (line_of job) s ≡ done (job, s)
unfolding parse_job line_of
parse_job-line_of (get_job key) s h =
    let rest = key ++ 10 ∷ [] in
    rw (
      scan_key_len-word (length key) rest b'G' b'E' b'T' h.short,
      find_key-get (length key) rest s,
      take-append key (10 ∷ []),
      text_of-IsCString key h.string,
    )
parse_job-line_of (set_job key value) s h =
    let rest = key ++ (b',' ∷ (print_dec (length value) ++ (b',' ∷ (value ++ 10 ∷ [])))) in
    rw (
      scan_key_len-word (length key) rest b'S' b'E' b'T' h.0.short,
      find_key-set (length key) rest s,
      find_value-cut key value (10 ∷ []) s h.1.short,
      take-append key (b',' ∷ (print_dec (length value) ++ (b',' ∷ (value ++ 10 ∷ [])))),
      take-append value (10 ∷ []),
      text_of-IsCString key h.0.string,
      text_of-IsCString value h.1.string,
    )

abbrev pub lines_of : List Job → List (List ℕ)
lines_of [] = []
lines_of (job ∷ jobs) = line_of job ∷ lines_of jobs
