-- ===== src/Client/Input/Lines/Getline.antt =====
-- The lines that getline reads from a file that was written for a list of jobs.
use rdma_rendezvous_key_valu.Prelude.{
  ℕ, zero, suc, ◌+◌, ◌/◌, ◌%◌, ◌≡◌, ◌≢◌, refl, ap, sym, subst, ◌∙◌, inl, inr, List, [], ◌∷◌, ◌++◌,
  ltb, length, arith, All, Bool-cases, dec_digits, print_dec, ne→==_false,
}
use mathlib.Core.List.{append_assoc, append-nil}
use rdma_rendezvous_key_valu.Client.Input.{
  get_word, set_word, into_first, lines_in, Job, get_job, set_job,
}
use rdma_rendezvous_key_valu.Client.Input.Lines.{line_of, lines_of, IsWritable}

abbrev IsOneLine : List ℕ → Type 0
IsOneLine = All (λ c. c ≢ 10)

-- The bytes of the file.
abbrev pub file_of : List Job → List ℕ
file_of [] = []
file_of (job ∷ jobs) = line_of job ++ file_of jobs

-- A line without its newline.
abbrev pub bare_line : Job → List ℕ
bare_line (get_job key) = get_word ++ (b',' ∷ (print_dec (length key) ++ (b',' ∷ key)))
bare_line (set_job key value) =
    set_word
    ++ (b','
        ∷ (print_dec (length key)
            ++ (b',' ∷ (key ++ (b',' ∷ (print_dec (length value) ++ (b',' ∷ value)))))))

pub line_of-bare : (job : Job) → line_of job ≡ bare_line job ++ 10 ∷ []
unfolding line_of
line_of-bare (get_job key) =
    ap (λ t. get_word ++ (b',' ∷ t))
      (sym (append_assoc (print_dec (length key)) (b',' ∷ key) (10 ∷ [])))
line_of-bare (set_job key value) =
    let tail = print_dec (length value) ++ (b',' ∷ value) in
    let e : key ++ (b',' ∷ (print_dec (length value) ++ (b',' ∷ (value ++ 10 ∷ []))))
        ≡ (key ++ (b',' ∷ tail)) ++ 10 ∷ [] =
      ap (λ t. key ++ (b',' ∷ t))
        (sym (append_assoc (print_dec (length value)) (b',' ∷ value) (10 ∷ [])))
      ∙ sym (append_assoc key (b',' ∷ tail) (10 ∷ [])) in
    ap (λ t. set_word ++ (b',' ∷ (print_dec (length key) ++ (b',' ∷ t)))) e
    ∙ ap (λ t. set_word ++ (b',' ∷ t))
        (sym (append_assoc (print_dec (length key)) (b',' ∷ (key ++ (b',' ∷ tail))) (10 ∷ [])))

append-IsOneLine : (s t : List ℕ) → IsOneLine s → IsOneLine t → IsOneLine (s ++ t)
append-IsOneLine [] t hs ht = ht
append-IsOneLine (c ∷ s) t (h, hs) ht = (h, append-IsOneLine s t hs ht)

dec_digits-IsOneLine : (fuel n : ℕ) → IsOneLine (dec_digits fuel n)
unfolding dec_digits
dec_digits-IsOneLine zero n = tt
dec_digits-IsOneLine (suc fuel) n = elim (Bool-cases (ltb n 10)) [
  | inl one ↦ rw one ((λ h. omega (arith, h)), tt)
  | inr more ↦ rw more (
      append-IsOneLine (dec_digits fuel (n / 10)) ((b'0' + n % 10) ∷ [])
        (dec_digits-IsOneLine fuel (n / 10)) ((λ h. omega (arith, h)), tt))
]

-- A field behind its length, and what follows.
field-IsOneLine :
    (field rest : List ℕ)
    → IsOneLine field
    → IsOneLine rest
    → IsOneLine (b',' ∷ (print_dec (length field) ++ (b',' ∷ (field ++ rest))))
unfolding print_dec
field-IsOneLine field rest h hrest = (
  (λ e. omega (arith, e)),
  append-IsOneLine (print_dec (length field)) (b',' ∷ (field ++ rest))
      (dec_digits-IsOneLine (suc (length field)) (length field))
      ((λ e. omega (arith, e)), append-IsOneLine field rest h hrest),
)

last_field-IsOneLine :
    (field : List ℕ)
    → IsOneLine field
    → IsOneLine (b',' ∷ (print_dec (length field) ++ (b',' ∷ field)))
last_field-IsOneLine field h =
    subst (λ t. IsOneLine (b',' ∷ (print_dec (length field) ++ (b',' ∷ t)))) (append-nil field)
      (field-IsOneLine field [] h tt)

bare_line-IsOneLine : (job : Job) → IsWritable job → IsOneLine (bare_line job)
bare_line-IsOneLine (get_job key) h = (
  (λ e. omega (arith, e)),
  ((λ e. omega (arith, e)), ((λ e. omega (arith, e)), last_field-IsOneLine key h.one_line)),
)
bare_line-IsOneLine (set_job key value) (key_ok, value_ok) = (
  (λ e. omega (arith, e)),
  (
    (λ e. omega (arith, e)),
    (
      (λ e. omega (arith, e)),
      field-IsOneLine key (b',' ∷ (print_dec (length value) ++ (b',' ∷ value))) key_ok.one_line
          (last_field-IsOneLine value value_ok.one_line),
    ),
  ),
)

lines_in-line :
    (s rest : List ℕ)
    → IsOneLine s
    → lines_in ((s ++ 10 ∷ []) ++ rest) ≡ (s ++ 10 ∷ []) ∷ lines_in rest
unfolding lines_in
lines_in-line [] rest h = refl
lines_in-line (c ∷ s) rest (other, h) =
    rw (ne→==_false c 10 other) (ap (into_first c) (lines_in-line s rest h))

-- Fields without newlines: getline cuts the file into just the lines that were written.
pub lines_in-file_of :
    (jobs : List Job) → All IsWritable jobs → lines_in (file_of jobs) ≡ lines_of jobs
unfolding lines_in
lines_in-file_of [] h = refl
lines_in-file_of (job ∷ jobs) (one, rest) =
    ap (λ l. lines_in (l ++ file_of jobs)) (line_of-bare job)
    ∙ lines_in-line (bare_line job) (file_of jobs) (bare_line-IsOneLine job one)
    ∙ ap (λ l. l ∷ lines_in (file_of jobs)) (sym (line_of-bare job))
    ∙ ap (◌∷◌ (line_of job)) (lines_in-file_of jobs rest)
