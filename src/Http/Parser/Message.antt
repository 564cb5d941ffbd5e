-- ===== src/Http/Parser/Message.antt =====
-- A request as a client writes it.
use learning_cpp.Prelude.{ℕ, ◌≡◌, ◌≢◌, true, List, [], ◌∷◌, ◌++◌, All, Bytes}
use learning_cpp.Http.Chars.{is_digit}
use learning_cpp.Http.Request.{Header, Request}
use learning_cpp.Http.Parser.{next_digit}
use learning_cpp.Http.Parser.Sound.{IsToken, IsUri, IsHeader}

abbrev pub IsDigits : Bytes → Type 0
IsDigits = All (λ c. is_digit c ≡ true)

-- The value of digits, as `int` arithmetic has it.
abbrev pub number : ℕ → Bytes → ℕ
number v [] = v
number v (c ∷ cs) = number (next_digit v c) cs

-- A request line with its versions in digits, and the headers.
pub record Message : Type 0 where
  pub method : Bytes
  pub uri : Bytes
  pub major : Bytes
  pub minor : Bytes
  pub headers : List Header

abbrev pub print_headers : List Header → Bytes → Bytes
print_headers [] rest = rest
print_headers (h ∷ hs) rest =
    h.name ++ (b':' ∷ b' ' ∷ (h.value ++ (b'\r' ∷ b'\n' ∷ print_headers hs rest)))

-- The bytes on the wire, with what follows them.
abbrev pub print : Message → Bytes → Bytes
print m rest =
    m.method
    ++ (b' '
        ∷ (m.uri
            ++ (b' '
                ∷ b'H'
                ∷ b'T'
                ∷ b'T'
                ∷ b'P'
                ∷ b'/'
                ∷ (m.major
                    ++ (b'.'
                        ∷ (m.minor
                            ++ (b'\r'
                                ∷ b'\n'
                                ∷ print_headers m.headers (b'\r' ∷ b'\n' ∷ rest))))))))

abbrev pub request_of : Message → Request
request_of m = record {
  method = m.method;
  uri = m.uri;
  http_version_major = number 0 m.major;
  http_version_minor = number 0 m.minor;
  headers = m.headers;
}

pub record IsMessage (m : Message) : Type 0 where
  pub method_ne_nil : m.method ≢ []
  pub method_token : IsToken m.method
  pub uri_is : IsUri m.uri
  pub major_ne_nil : m.major ≢ []
  pub major_digits : IsDigits m.major
  pub minor_ne_nil : m.minor ≢ []
  pub minor_digits : IsDigits m.minor
  pub headers_are : All IsHeader m.headers
