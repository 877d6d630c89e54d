-- ===== src/Common/Connection/Gid.antt =====
-- The text of a gid and its reading.
use rdma_rendezvous_key_valu.Prelude.{
  ℕ, zero, suc, ◌+◌, ◌-◌, ◌*◌, ◌^◌, ◌≤◌, ◌<◌, ◌≡◌, refl, sym, ap, ◌∙◌, List, [], ◌++◌, some, Bytes,
  splice, take, drop, take-append, drop-append, length, length-append, get_or, arith, print_hex,
  hex_digits, hex_value, length-hex_digits, scan_number, scan_number-hex_digits, print_hex-8, subst,
  ◌⊎◌, inl, inr,
}
use mathlib.Core.List.{append_assoc, append-nil}
use native.Mathlib.Decide.{dec_lt}
use rdma_rendezvous_key_valu.Common.Connection.{
  htonl, ntohl, gid_words, gid_to_wire_gid, wire_words, wire_gid_to_gid,
}

-- That the first n of the 16 bytes are bytes.
abbrev pub AreBytes : Bytes → Type 0
AreBytes m = (k : ℕ) → k < 16 → m k < 256

htonl-lt : (m : Bytes) (off : ℕ) → off + 3 < 16 → AreBytes m → htonl m off < 2 ^ 32
unfolding htonl
htonl-lt m off h v = omega (
  arith,
  v off (omega arith),
  v (off + 1) (omega arith),
  v (off + 2) (omega arith),
  v (off + 3) (omega arith),
)

four_cases : (k : ℕ) → k < 4 → (k ≡ 0) ⊎ (k ≡ 1) ⊎ (k ≡ 2) ⊎ (k ≡ 3)
four_cases k h = omega arith

add-zero : (n : ℕ) → n + 0 ≡ n
add-zero n = omega arith

take_eight : (xs ys : List ℕ) → length xs ≡ 8 → take 8 (xs ++ ys) ≡ xs
take_eight xs ys e = subst (λ (n : ℕ). take n (xs ++ ys) ≡ xs) e (take-append xs ys)

drop_eight : (xs ys : List ℕ) → length xs ≡ 8 → drop 8 (xs ++ ys) ≡ ys
drop_eight xs ys e = subst (λ (n : ℕ). drop n (xs ++ ys) ≡ ys) e (drop-append xs ys)

-- The four bytes come back.
ntohl-htonl :
    (m : Bytes) (off k : ℕ)
    → off + 3 < 16
    → AreBytes m
    → k < 4
    → get_or (ntohl (htonl m off)) k 0 ≡ m (off + k)
unfolding ntohl htonl
ntohl-htonl m off k h v hk =
    let a = v off (omega arith) in
    let b = v (off + 1) (omega arith) in
    let c = v (off + 2) (omega arith) in
    let d = v (off + 3) (omega arith) in
    elim (four_cases k hk) [
      | inl e ↦ rw e (omega (arith, a, b, c, d, ap m (add-zero off)))
      | inr (inl e) ↦ rw e (omega (arith, a, b, c, d))
      | inr (inr (inl e)) ↦ rw e (omega (arith, a, b, c, d))
      | inr (inr (inr e)) ↦ rw e (omega (arith, a, b, c, d))
    ]

-- The text of one number and its reading.
scan-print_hex :
    (w : ℕ) (tail : List ℕ)
    → w < 2 ^ 32
    → (scan_number hex_value 16 (take 8 (print_hex 8 w ++ tail)) ≡ some (w, []))
      × (drop 8 (print_hex 8 w ++ tail) ≡ tail)
scan-print_hex w tail h =
    let (e, back) = print_hex-8 w h in
    rw e (
      ap (scan_number hex_value 16) (
            take_eight (hex_digits 8 w) tail (length-hex_digits 8 w)
            ∙ sym (append-nil (hex_digits 8 w)))
          ∙ scan_number-hex_digits 7 w [] back tt,
      drop_eight (hex_digits 8 w) tail (length-hex_digits 8 w),
    )

length-ntohl : (v : ℕ) → length (ntohl v) ≡ 4
unfolding ntohl
length-ntohl v = refl

-- One round of the loop.
wire_words-suc :
    (rounds i w : ℕ) (s r : List ℕ) (gid : Bytes)
    → scan_number hex_value 16 (take 8 s) ≡ some (w, r)
    → wire_words (suc rounds) i s gid
      ≡ wire_words rounds (i + 1) (drop 8 s) (splice gid (i * 4) (ntohl w))
unfolding wire_words
wire_words-suc rounds i w s r gid h = ground (arith, h)

-- The bytes that one round stores, and those that it leaves.
stored :
    (raw gid : Bytes) (i k : ℕ)
    → i < 4
    → AreBytes raw
    → (k < i * 4 → splice gid (i * 4) (ntohl (htonl raw (i * 4))) k ≡ gid k)
      × (i * 4 ≤ k → k < i * 4 + 4 → splice gid (i * 4) (ntohl (htonl raw (i * 4))) k ≡ raw k)
stored raw gid i k hi v = (
  λ a. ground arith,
  λ a b.
      let at : i * 4 + (k - i * 4) ≡ k = omega arith in
      ground
        (arith, length-ntohl (htonl raw (i * 4)), ntohl-htonl raw (i * 4) (k - i * 4), ap raw at),
)

-- What the loop has stored, from the index i on.
wire_words-gid_words :
    (rounds i : ℕ) (raw gid : Bytes) (rest : List ℕ)
    → AreBytes raw
    → i + rounds ≡ 4
    → (m : Bytes) × (wire_words rounds i (gid_words rounds i raw ++ rest) gid ≡ some m)
      × ((k : ℕ) → k < i * 4 → m k ≡ gid k)
      × ((k : ℕ) → i * 4 ≤ k → k < 16 → m k ≡ raw k)
unfolding wire_words gid_words
wire_words-gid_words zero i raw gid rest v h =
    (gid, refl, λ k a. refl, λ k a b. absurd (omega arith))
wire_words-gid_words (suc rounds) i raw gid rest v h =
    let w = htonl raw (i * 4) in
    let tail = gid_words rounds (i + 1) raw ++ rest in
    let (scanned, dropped) = scan-print_hex w tail (htonl-lt raw (i * 4) (omega arith) v) in
    let (m, run, before, after) =
      wire_words-gid_words rounds (i + 1) raw (splice gid (i * 4) (ntohl w)) rest v (omega arith) in
    (
      m,
      rw
          (
            append_assoc (print_hex 8 w) (gid_words rounds (i + 1) raw) rest,
            wire_words-suc rounds i w (print_hex 8 w ++ tail) [] gid scanned,
            dropped,
          )
          run,
      λ k a. before k (omega arith) ∙ (stored raw gid i k (omega arith) v).0 a,
      λ k a b. elim (dec_lt k ((i + 1) * 4)) [
        | yes here ↦ before k here ∙ (stored raw gid i k (omega arith) v).1 a (omega arith)
        | no later ↦ after k (omega arith) b
      ],
    )

length-gid_words :
    (rounds i : ℕ) (raw : Bytes)
    → AreBytes raw
    → i + rounds ≡ 4
    → length (gid_words rounds i raw) ≡ 8 * rounds
unfolding gid_words
length-gid_words zero i raw v h = refl
length-gid_words (suc rounds) i raw v h =
    let w = htonl raw (i * 4) in
    let (e, _) = print_hex-8 w (htonl-lt raw (i * 4) (omega arith) v) in
    omega (
      arith,
      length-append (print_hex 8 w) (gid_words rounds (i + 1) raw),
      length-gid_words rounds (i + 1) raw v (omega arith),
      ap length e ∙ length-hex_digits 8 w,
    )

-- The text of 16 bytes, with whatever behind it, is read back as those bytes, and its length is 32.
pub wire_gid_to_gid-gid_to_wire_gid :
    (raw gid : Bytes) (rest : List ℕ)
    → AreBytes raw
    → (length (gid_to_wire_gid raw) ≡ 32)
      × ((m : Bytes) × (wire_gid_to_gid (gid_to_wire_gid raw ++ rest) gid ≡ some m)
          × ((k : ℕ) → k < 16 → m k ≡ raw k))
unfolding wire_gid_to_gid gid_to_wire_gid
wire_gid_to_gid-gid_to_wire_gid raw gid rest v =
    let (m, run, before, after) = wire_words-gid_words 4 0 raw gid rest v (omega arith) in
    (length-gid_words 4 0 raw v (omega arith), (m, run, λ k h. after k (omega arith) h))
