-- ===== src/Prelude/Text.antt =====
-- The conversions of printf and scanf that the program uses, on texts as lists of bytes.
use Prim.Native.Nat.{ℕ, zero, suc, ◌+◌, ◌-◌, ◌*◌, ◌/◌, ◌%◌, ◌^◌, ◌<◌}
use mathlib.Core.Path.{◌≡◌, refl, ap, ◌∙◌}
use mathlib.Core.Bool.{◌&&◌}
use mathlib.Core.List.{List, [], ◌∷◌, ◌++◌, append_assoc}
use mathlib.Core.Option.{Option, none, some}
use native.Mathlib.Omega.{arith}
use rdma_rendezvous_key_valu.Prelude.Tests.{ltb, leb, ◌==◌, if◌then◌else◌, Bool-cases, lt→ltb}
use mathlib.Core.Logic.{inl, inr}
use rdma_rendezvous_key_valu.Prelude.Lists.{length, length-append}

-- The value of a digit, in lower or upper case.
unfoldable pub hex_value : ℕ → Option ℕ
hex_value c =
    if leb b'0' c && leb c b'9'
    then some (c - b'0')
    else if leb b'a' c && leb c b'f'
    then some (c - b'a' + 10)
    else if leb b'A' c && leb c b'F'
    then some (c - b'A' + 10)
    else none

unfoldable pub dec_value : ℕ → Option ℕ
dec_value c = if leb b'0' c && leb c b'9' then some (c - b'0') else none

-- The longest run of digits at the start, read in the base onto `acc`, and what is behind it.
unfoldable pub scan_digits : (ℕ → Option ℕ) → ℕ → ℕ → List ℕ → ℕ × List ℕ
scan_digits value base acc [] = (acc, [])
scan_digits value base acc (c ∷ cs) = elim (value c) [
  | none ↦ (acc, c ∷ cs)
  | some d ↦ scan_digits value base (acc * base + d) cs
]

-- "%x", and "%d" for a number without a sign, with what is behind it: `none` if no digit stands
-- there. White space, which both skip, is not at hand in what the program reads.
unfoldable pub scan_number : (ℕ → Option ℕ) → ℕ → List ℕ → Option (ℕ × List ℕ)
unfolding scan_digits
scan_number value base [] = none
scan_number value base (c ∷ cs) = elim (value c) [
  | none ↦ none
  | some d ↦ some (scan_digits value base 0 (c ∷ cs))
]

-- A literal character of a format.
unfoldable pub scan_char : ℕ → List ℕ → Option (List ℕ)
scan_char c [] = none
scan_char c (d ∷ cs) = if d == c then some cs else none

-- The n last digits of v in base 16, as "%x" prints them.
unfoldable pub hex_digit : ℕ → ℕ
hex_digit d = if ltb d 10 then b'0' + d else b'a' + (d - 10)

unfoldable pub hex_digits : ℕ → ℕ → List ℕ
unfolding hex_digit
hex_digits zero v = []
hex_digits (suc n) v = hex_digits n (v / 16) ++ hex_digit (v % 16) ∷ []

-- The number of digits that "%0wx" prints, for `more` digits more than w at most.
unfoldable pub hex_width : ℕ → ℕ → ℕ → ℕ
hex_width zero w v = w
hex_width (suc more) w v = let rest = hex_width more (w + 1) v in if ltb v (16 ^ w) then w else rest

-- sprintf(…, "%0wx", v), for an `unsigned`
unfoldable pub print_hex : ℕ → ℕ → List ℕ
unfolding hex_width hex_digits
print_hex w v = hex_digits (hex_width (8 - w) w v) v

-- The digits of n in base 10, with enough fuel.
unfoldable pub dec_digits : ℕ → ℕ → List ℕ
dec_digits zero n = []
dec_digits (suc fuel) n =
    let rest = dec_digits fuel (n / 10) in
    if ltb n 10 then (b'0' + n) ∷ [] else rest ++ (b'0' + n % 10) ∷ []

unfoldable pub print_dec : ℕ → List ℕ
unfolding dec_digits
print_dec n = dec_digits (suc n) n

pub hex_value-digit : (d : ℕ) → d < 16 → hex_value (hex_digit d) ≡ some d
unfolding hex_value hex_digit
hex_value-digit d h = ground arith

pub dec_value-digit : (d : ℕ) → d < 10 → dec_value (b'0' + d) ≡ some d
unfolding dec_value
dec_value-digit d h = ground arith

-- What reading the n last digits of v makes of acc.
abbrev pub read_back : ℕ → ℕ → ℕ → ℕ
read_back zero acc v = acc
read_back (suc n) acc v = read_back n acc (v / 16) * 16 + v % 16

module _ (value : ℕ → Option ℕ) (base acc : ℕ) (c : ℕ) (cs : List ℕ) where
  pub scan_digits-some :
      (d : ℕ)
      → value c ≡ some d
      → scan_digits value base acc (c ∷ cs) ≡ scan_digits value base (acc * base + d) cs
  unfolding scan_digits
  scan_digits-some d h = ground (arith, h)

  pub scan_digits-none : value c ≡ none → scan_digits value base acc (c ∷ cs) ≡ (acc, c ∷ cs)
  unfolding scan_digits
  scan_digits-none h = ground (arith, h)

pub scan-hex_digits :
    (n acc v : ℕ) (rest : List ℕ)
    → scan_digits hex_value 16 acc (hex_digits n v ++ rest)
      ≡ scan_digits hex_value 16 (read_back n acc v) rest
unfolding hex_digits scan_digits
scan-hex_digits zero acc v rest = refl
scan-hex_digits (suc n) acc v rest = rw (
  append_assoc (hex_digits n (v / 16)) (hex_digit (v % 16) ∷ []) rest,
  scan-hex_digits n acc (v / 16) (hex_digit (v % 16) ∷ rest),
  scan_digits-some hex_value 16 (read_back n acc (v / 16)) (hex_digit (v % 16)) rest (v % 16)
      (hex_value-digit (v % 16) (omega arith)),
)

pub length-hex_digits : (n v : ℕ) → length (hex_digits n v) ≡ n
unfolding hex_digits
length-hex_digits zero v = refl
length-hex_digits (suc n) v = omega (
  arith,
  length-append (hex_digits n (v / 16)) (hex_digit (v % 16) ∷ []),
  length-hex_digits n (v / 16),
)

-- The fuel for the value itself is enough, and the digits are read back.
pub scan-dec_digits :
    (fuel n : ℕ) (rest : List ℕ)
    → n < fuel
    → scan_digits dec_value 10 0 (dec_digits fuel n ++ rest) ≡ scan_digits dec_value 10 n rest
unfolding dec_digits scan_digits
scan-dec_digits zero n rest h = elim h [ ]
scan-dec_digits (suc fuel) n rest h = elim (Bool-cases (ltb n 10)) [
  | inl one ↦
      rw (one, scan_digits-some dec_value 10 0 (b'0' + n) rest n (dec_value-digit n (ground arith)))
        (ap (λ (k : ℕ). scan_digits dec_value 10 k rest) (omega arith))
  | inr more ↦
      rw
        (
          more,
          append_assoc (dec_digits fuel (n / 10)) ((b'0' + n % 10) ∷ []) rest,
          scan-dec_digits fuel (n / 10) ((b'0' + n % 10) ∷ rest) (ground arith),
          scan_digits-some dec_value 10 (n / 10) (b'0' + n % 10) rest (n % 10)
              (dec_value-digit (n % 10) (omega arith)),
        )
        (ap (λ (k : ℕ). scan_digits dec_value 10 k rest) (omega arith))
]

-- That a text starts with a digit.
abbrev pub HasDigit : (ℕ → Option ℕ) → List ℕ → Type 0
HasDigit value s = (c : ℕ) × (d : ℕ) × (cs : List ℕ) × (s ≡ c ∷ cs) × (value c ≡ some d)

pub scan_number-HasDigit :
    (value : ℕ → Option ℕ) (base : ℕ) (s : List ℕ)
    → HasDigit value s
    → scan_number value base s ≡ some (scan_digits value base 0 s)
unfolding scan_number
scan_number-HasDigit value base s (c, d, cs, e, h) = rw e (head c cs d h)
  where
    head :
        (c : ℕ) (cs : List ℕ) (d : ℕ)
        → value c ≡ some d
        → scan_number value base (c ∷ cs) ≡ some (scan_digits value base 0 (c ∷ cs))
    head c cs d h = ground (arith, h)

pub hex_digits-HasDigit :
    (n v : ℕ) (rest : List ℕ) → HasDigit hex_value (hex_digits (suc n) v ++ rest)
unfolding hex_digits
hex_digits-HasDigit zero v rest =
    (hex_digit (v % 16), v % 16, rest, refl, hex_value-digit (v % 16) (omega arith))
hex_digits-HasDigit (suc n) v rest =
    let (c, d, cs, e, h) = hex_digits-HasDigit n (v / 16) (hex_digit (v % 16) ∷ rest) in
    (c, d, cs, append_assoc (hex_digits (suc n) (v / 16)) (hex_digit (v % 16) ∷ []) rest ∙ e, h)

pub dec_digits-HasDigit :
    (fuel n : ℕ) (rest : List ℕ) → n < fuel → HasDigit dec_value (dec_digits fuel n ++ rest)
unfolding dec_digits
dec_digits-HasDigit zero n rest h = elim h [ ]
dec_digits-HasDigit (suc fuel) n rest h = elim (Bool-cases (ltb n 10)) [
  | inl one ↦ rw one (b'0' + n, n, rest, refl, dec_value-digit n (ground arith))
  | inr more ↦
      let (c, d, cs, e, k) =
        dec_digits-HasDigit fuel (n / 10) ((b'0' + n % 10) ∷ rest) (ground arith) in
      rw more (c, d, cs, append_assoc (dec_digits fuel (n / 10)) ((b'0' + n % 10) ∷ []) rest ∙ e, k)
]

pub print_dec-HasDigit : (n : ℕ) (rest : List ℕ) → HasDigit dec_value (print_dec n ++ rest)
unfolding print_dec
print_dec-HasDigit n rest = dec_digits-HasDigit (suc n) n rest (omega arith)

-- What is behind a number does not go on with a digit.
abbrev pub Stops : (ℕ → Option ℕ) → List ℕ → Type 0
Stops value [] = Unit
Stops value (c ∷ cs) = value c ≡ none

pub scan_digits-Stops :
    (value : ℕ → Option ℕ) (base acc : ℕ) (rest : List ℕ)
    → Stops value rest
    → scan_digits value base acc rest ≡ (acc, rest)
unfolding scan_digits
scan_digits-Stops value base acc [] h = refl
scan_digits-Stops value base acc (c ∷ cs) h = scan_digits-none value base acc c cs h

-- A number in as many digits as hold it is read back from them.
pub scan_number-hex_digits :
    (n v : ℕ) (rest : List ℕ)
    → read_back (suc n) 0 v ≡ v
    → Stops hex_value rest
    → scan_number hex_value 16 (hex_digits (suc n) v ++ rest) ≡ some (v, rest)
scan_number-hex_digits n v rest back stop =
    scan_number-HasDigit hex_value 16 (hex_digits (suc n) v ++ rest) (hex_digits-HasDigit n v rest)
    ∙ ap some
        (scan-hex_digits (suc n) 0 v rest ∙ rw back (scan_digits-Stops hex_value 16 v rest stop))

pub scan_number-print_dec :
    (n : ℕ) (rest : List ℕ)
    → Stops dec_value rest
    → scan_number dec_value 10 (print_dec n ++ rest) ≡ some (n, rest)
unfolding print_dec
scan_number-print_dec n rest stop =
    scan_number-HasDigit dec_value 10 (dec_digits (suc n) n ++ rest)
      (dec_digits-HasDigit (suc n) n rest (omega arith))
    ∙ ap some
        (scan-dec_digits (suc n) n rest (omega arith) ∙ scan_digits-Stops dec_value 10 n rest stop)

-- The widths that the program prints: 4, 6 and 8 digits.
pub print_hex-4 : (v : ℕ) → v < 2 ^ 16 → (print_hex 4 v ≡ hex_digits 4 v) × (read_back 4 0 v ≡ v)
unfolding print_hex hex_width
print_hex-4 v h = (rw (lt→ltb v (2 ^ 16) h), omega arith)

pub print_hex-6 : (v : ℕ) → v < 2 ^ 24 → (print_hex 6 v ≡ hex_digits 6 v) × (read_back 6 0 v ≡ v)
unfolding print_hex hex_width
print_hex-6 v h = (rw (lt→ltb v (2 ^ 24) h), omega arith)

pub print_hex-8 : (v : ℕ) → v < 2 ^ 32 → (print_hex 8 v ≡ hex_digits 8 v) × (read_back 8 0 v ≡ v)
unfolding print_hex hex_width
print_hex-8 v h = (refl, omega arith)
