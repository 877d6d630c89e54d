-- ===== src/Prelude/Memory.antt =====
-- Memory as bytes at offsets, and what `memcpy`, `memset`, `strlen` and `strncpy` do to it.
use Prim.Native.Nat.{ℕ, zero, suc, ◌+◌, ◌-◌, ◌≤◌, ◌<◌}
use mathlib.Core.Path.{◌≡◌, refl, ap, ◌∙◌}
use mathlib.Core.Logic.{◌≢◌}
use mathlib.Core.List.{List, [], ◌∷◌, ◌++◌}
use mathlib.Core.Option.{Option, none, some}
use native.Mathlib.Omega.{arith}
use rdma_rendezvous_key_valu.Prelude.Tests.{ltb, ◌==◌, if◌then◌else◌}
use rdma_rendezvous_key_valu.Prelude.Lists.{length, get_or, All}

abbrev pub Bytes : Type 0
Bytes = ℕ → ℕ

-- What `calloc` and `memset(…, 0, …)` leave.
abbrev pub zeroed : Bytes
zeroed = λ i. 0

-- The bytes after the first `off`, as `p + off` points to them.
abbrev pub advance : Bytes → ℕ → Bytes
advance m off = λ i. m (off + i)

-- memcpy(m + off, xs, length xs)
abbrev pub splice : Bytes → ℕ → List ℕ → Bytes
splice m off xs i =
    if ltb i off then m i else if ltb (i - off) (length xs) then get_or xs (i - off) 0 else m i

-- The first n bytes.
unfoldable pub read_bytes : Bytes → ℕ → List ℕ
read_bytes m zero = []
read_bytes m (suc n) = m 0 ∷ read_bytes (advance m 1) n

-- The C string at the start of `n` readable bytes; `none` if no terminator stands there.
unfoldable pub c_string : ℕ → Bytes → Option (List ℕ)
c_string zero m = none
c_string (suc n) m =
    let rest = c_string n (advance m 1) in
    if m 0 == 0 then some [] else elim rest [ none ↦ none | some s ↦ some (m 0 ∷ s) ]

-- The n bytes that strncpy(dst, s, n) writes: at most n of s, padded with zeroes.
unfoldable pub strncpy_bytes : List ℕ → ℕ → List ℕ
strncpy_bytes s zero = []
strncpy_bytes [] (suc n) = 0 ∷ strncpy_bytes [] n
strncpy_bytes (x ∷ s) (suc n) = x ∷ strncpy_bytes s n

-- A byte string without a terminator in it.
abbrev pub IsCString : List ℕ → Type 0
IsCString = All (λ x. x ≢ 0)

pub length-strncpy_bytes : (s : List ℕ) (n : ℕ) → length (strncpy_bytes s n) ≡ n
unfolding strncpy_bytes
length-strncpy_bytes s zero = refl
length-strncpy_bytes [] (suc n) = ap suc (length-strncpy_bytes [] n)
length-strncpy_bytes (x ∷ s) (suc n) = ap suc (length-strncpy_bytes s n)

-- With room for the terminator, strncpy copies the string and its terminator.
pub strncpy_bytes-suc : (s : List ℕ) → strncpy_bytes s (suc (length s)) ≡ s ++ 0 ∷ []
unfolding strncpy_bytes
strncpy_bytes-suc [] = refl
strncpy_bytes-suc (x ∷ s) = ap (◌∷◌ x) (strncpy_bytes-suc s)

-- Without room for it, strncpy copies the string alone.
pub strncpy_bytes-length : (s : List ℕ) → strncpy_bytes s (length s) ≡ s
unfolding strncpy_bytes
strncpy_bytes-length [] = refl
strncpy_bytes-length (x ∷ s) = ap (◌∷◌ x) (strncpy_bytes-length s)

one-add : (i : ℕ) → 1 + i ≡ suc i
one-add i = omega arith

-- Memory that holds a string and its terminator is read as that string.
pub c_string-agrees :
    (s : List ℕ) (n : ℕ) (m : Bytes)
    → IsCString s
    → length s < n
    → ((i : ℕ) → i ≤ length s → m i ≡ get_or (s ++ 0 ∷ []) i 0)
    → c_string n m ≡ some s
unfolding c_string
c_string-agrees s zero m c h agree = elim h [ ]
c_string-agrees [] (suc n) m c h agree = ground (arith, agree 0)
c_string-agrees (y ∷ s) (suc n) m c h agree =
    let rest =
      c_string-agrees s n (advance m 1) c.1 (omega arith)
        (λ i hi. rw (one-add i) (agree (suc i) (omega arith))) in
    ground (arith, agree 0, rest, c.0)

get_or-append_zero : (s : List ℕ) (i : ℕ) → i ≤ length s → i < length (s ++ 0 ∷ [])
get_or-append_zero [] i h = omega arith
get_or-append_zero (y ∷ s) zero h = omega arith
get_or-append_zero (y ∷ s) (suc i) h = omega (arith, get_or-append_zero s i (omega arith))

-- A string that was copied with its terminator is read back.
pub c_string-splice :
    (s : List ℕ) (n : ℕ) (m : Bytes)
    → IsCString s
    → length s < n
    → c_string n (splice m 0 (s ++ 0 ∷ [])) ≡ some s
c_string-splice s n m c h =
    c_string-agrees s n (splice m 0 (s ++ 0 ∷ [])) c h
      λ i hi. ground (arith, get_or-append_zero s i hi)

get_or-within : (s t : List ℕ) (i : ℕ) → i < length s → get_or (s ++ t) i 0 ≡ get_or s i 0
get_or-within [] t i h = absurd (omega arith)
get_or-within (y ∷ s) t zero h = refl
get_or-within (y ∷ s) t (suc i) h = get_or-within s t i (omega arith)

get_or-end : (s : List ℕ) → get_or (s ++ 0 ∷ []) (length s) 0 ≡ 0
get_or-end [] = refl
get_or-end (y ∷ s) = get_or-end s

-- A string that was copied without its terminator into zeroed memory is read back.
pub c_string-zeroed :
    (s : List ℕ) (n : ℕ) → IsCString s → length s < n → c_string n (splice zeroed 0 s) ≡ some s
c_string-zeroed s n c h =
    c_string-agrees s n (splice zeroed 0 s) c h
      λ i hi. ground (arith, get_or-within s (0 ∷ []) i, get_or-end s)

get_or-terminated :
    (s t : List ℕ) (i : ℕ) → i ≤ length s → get_or (s ++ 0 ∷ t) i 0 ≡ get_or (s ++ 0 ∷ []) i 0
get_or-terminated [] t zero h = refl
get_or-terminated [] t (suc i) h = absurd (omega arith)
get_or-terminated (y ∷ s) t zero h = refl
get_or-terminated (y ∷ s) t (suc i) h = get_or-terminated s t i (omega arith)

get_or-behind : (s t : List ℕ) (i : ℕ) → get_or (s ++ 0 ∷ t) (length s + 1 + i) 0 ≡ get_or t i 0
get_or-behind [] t i = ap (λ n. get_or (0 ∷ t) n 0) (one-add i)
get_or-behind (y ∷ s) t i =
    let e : length (y ∷ s) + 1 + i ≡ suc (length s + 1 + i) = omega arith in
    ap (λ n. get_or (y ∷ s ++ 0 ∷ t) n 0) e ∙ get_or-behind s t i

pub length-terminated : (s t : List ℕ) → length (s ++ 0 ∷ t) ≡ length s + 1 + length t
length-terminated [] t = omega arith
length-terminated (y ∷ s) t = omega (arith, length-terminated s t)

minus_zero : (i : ℕ) → i - 0 ≡ i
minus_zero i = omega arith

-- A byte of what was copied.
splice-copied : (m : Bytes) (xs : List ℕ) (i : ℕ) → i < length xs → splice m 0 xs i ≡ get_or xs i 0
splice-copied m xs i h = rw (minus_zero i) (ground arith)

-- Of two strings that were copied one behind the other, the first is read from the start and the
-- second from behind the terminator of the first.
pub c_string-first :
    (s t : List ℕ) (n : ℕ) (m : Bytes)
    → IsCString s
    → length s < n
    → c_string n (splice m 0 (s ++ 0 ∷ t)) ≡ some s
c_string-first s t n m c h =
    c_string-agrees s n (splice m 0 (s ++ 0 ∷ t)) c h
      λ i hi. ground (arith, length-terminated s t, get_or-terminated s t i hi)

pub c_string-second :
    (s t : List ℕ) (n : ℕ) (m : Bytes)
    → IsCString t
    → length t < n
    → c_string n (advance (splice m 0 (s ++ (0 ∷ (t ++ 0 ∷ [])))) (length s + 1)) ≡ some t
c_string-second s t n m c h =
    let both = s ++ (0 ∷ (t ++ 0 ∷ [])) in
    c_string-agrees t n (advance (splice m 0 both) (length s + 1)) c h λ i hi.
      splice-copied m both (length s + 1 + i)
        (omega (arith, length-terminated s (t ++ 0 ∷ []), length-terminated t []))
      ∙ get_or-behind s (t ++ 0 ∷ []) i

-- What is read as a string has no terminator in it.
pub c_string-IsCString : (n : ℕ) (m : Bytes) (s : List ℕ) → c_string n m ≡ some s → IsCString s
unfolding c_string
c_string-IsCString zero m s h = cc
c_string-IsCString (suc n) m [] h = tt
c_string-IsCString (suc n) m (y ∷ s) h = ground (arith, c_string-IsCString n (advance m 1) s)

pub length-read_bytes : (m : Bytes) (n : ℕ) → length (read_bytes m n) ≡ n
unfolding read_bytes
length-read_bytes m zero = refl
length-read_bytes m (suc n) = ap suc (length-read_bytes (advance m 1) n)

pub get_or-read_bytes : (m : Bytes) (n i : ℕ) → i < n → get_or (read_bytes m n) i 0 ≡ m i
unfolding read_bytes
get_or-read_bytes m zero i h = elim h [ ]
get_or-read_bytes m (suc n) zero h = refl
get_or-read_bytes m (suc n) (suc i) h =
    get_or-read_bytes (advance m 1) n i (omega arith) ∙ ap m (one-add i)

-- A copy of n bytes to the start of a memory has those bytes, and leaves the bytes behind them.
pub splice-read_bytes :
    (m f : Bytes) (n i : ℕ) → splice m 0 (read_bytes f n) i ≡ (if ltb i n then f i else m i)
splice-read_bytes m f n i = ground (arith, length-read_bytes f n, get_or-read_bytes f n i)

pub c_string-empty : (n : ℕ) (m : Bytes) → m 0 ≡ 0 → c_string (suc n) m ≡ some []
unfolding c_string
c_string-empty n m h = ground (arith, h)

-- A string from its first byte and what is read behind it.
abbrev cons_byte : ℕ → Option (List ℕ) → Option (List ℕ)
cons_byte x rest = if x == 0 then some [] else elim rest [ none ↦ none | some s ↦ some (x ∷ s) ]

-- A string is read from the bytes up to its bound only.
pub c_string-same :
    (n : ℕ) (m f : Bytes) → ((i : ℕ) → i < n → f i ≡ m i) → c_string n f ≡ c_string n m
unfolding c_string
c_string-same zero m f same = refl
c_string-same (suc n) m f same =
    ap (λ x. cons_byte x (c_string n (advance f 1))) (same 0 (omega arith))
    ∙ ap (cons_byte (m 0)) (
        c_string-same n (advance m 1) (advance f 1)
          (λ i h. rw (one-add i) (same (suc i) (omega arith))))

-- A string that is read within some bytes is read within more.
pub c_string-more :
    (n k : ℕ) (m : Bytes) (s : List ℕ) → c_string n m ≡ some s → n ≤ k → c_string k m ≡ some s
unfolding c_string
c_string-more zero k m s h le = cc
c_string-more (suc n) zero m s h le = absurd (omega arith)
c_string-more (suc n) (suc k) m [] h le = ground arith
c_string-more (suc n) (suc k) m (y ∷ s) h le = ground (arith, c_string-more n k (advance m 1) s)
