-- ===== src/Http/Reply/Client.antt =====
-- A client of the replies of ad_system/server3/: it reads a status line, header lines up to an empty
-- one, and then the content, and refuses what is none of these. Every line ends with a carriage return
-- and a newline.
use learning_cpp.Prelude.{
  ℕ, suc, zero, ◌+◌, ◌-◌, ◌*◌, true, false, leb, ◌&&◌, ◌==◌, Option, none, some, List, [], ◌∷◌,
  Bytes, codes, length, equal,
}
use learning_cpp.Http.Request.{Header}

-- The bytes before the first `x`, and those behind it; `none` if there is no `x`.
abbrev pub consed : ℕ → Option (Bytes × Bytes) → Option (Bytes × Bytes)
consed c none = none
consed c (some (before, behind)) = some (c ∷ before, behind)

abbrev pub split : ℕ → Bytes → Option (Bytes × Bytes)
split x [] = none
split x (c ∷ cs) = elim (c == x) [ true ↦ some ([], cs) | false ↦ consed c (split x cs) ]

-- What follows a byte that must be `x`.
abbrev pub skip_byte : ℕ → Bytes → Option Bytes
skip_byte x [] = none
skip_byte x (c ∷ cs) = elim (c == x) [ true ↦ some cs | false ↦ none ]

-- The bytes before the first `x`, and those behind it and a `y` that must follow.
abbrev pub split_two : ℕ → ℕ → Bytes → Option (Bytes × Bytes)
split_two x y bs = elim (split x bs) [
  | none ↦ none
  | some (before, more) ↦ elim (skip_byte y more) [
    | none ↦ none
    | some behind ↦ some (before, behind)
  ]
]

-- A line, and what follows its end.
abbrev pub read_line : Bytes → Option (Bytes × Bytes)
read_line = split_two b'\r' b'\n'

-- A header: its name, a colon, a blank and its value.
abbrev pub read_header : Bytes → Option Header
read_header l = elim (split_two b':' b' ' l) [
  | none ↦ none
  | some (name, value) ↦ some (record { name = name; value = value })
]

abbrev pub header_before :
    Option Header → Option (List Header × Bytes) → Option (List Header × Bytes)
header_before none rest = none
header_before (some h) none = none
header_before (some h) (some (hs, content)) = some (h ∷ hs, content)

-- The headers up to the empty line, and the content. The fuel bounds the number of lines.
unfoldable pub read_headers : ℕ → Bytes → Option (List Header × Bytes)
read_headers zero bs = none
read_headers (suc fuel) bs = elim (read_line bs) [
  | none ↦ none
  | some ([], content) ↦ some ([], content)
  | some (c ∷ l, more) ↦ header_before (read_header (c ∷ l)) (read_headers fuel more)
]

-- A decimal number, on from `n`.
abbrev pub read_decimal : ℕ → Bytes → Option ℕ
read_decimal n [] = some n
read_decimal n (c ∷ cs) = elim (leb b'0' c && leb c b'9') [
  | true ↦ read_decimal (n * 10 + (c - b'0')) cs
  | false ↦ none
]

-- The version, a blank, a code of three digits, a blank, and a reason, which is not looked at.
unfoldable pub read_status : Bytes → Option ℕ
unfolding equal
read_status l = elim (split b' ' l) [
  | none ↦ none
  | some (version, more) ↦ elim (split b' ' more) [
    | none ↦ none
    | some (code, reason) ↦ elim (equal version (codes "HTTP/1.0") && length code == 3) [
      | true ↦ read_decimal 0 code
      | false ↦ none
    ]
  ]
]

abbrev pub status_before :
    Option ℕ → Option (List Header × Bytes) → Option (ℕ × List Header × Bytes)
status_before none rest = none
status_before (some code) none = none
status_before (some code) (some (hs, content)) = some (code, hs, content)

-- The code of the status, the headers and the content.
unfoldable pub read_reply : Bytes → Option (ℕ × List Header × Bytes)
read_reply bs = elim (read_line bs) [
  | none ↦ none
  | some (l, more) ↦ status_before (read_status l) (read_headers (length bs) more)
]
